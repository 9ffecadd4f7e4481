-- ===== src/Backend/Entries.antt =====
-- crates/ruac/src/backend_layout.rs: the sets of names, and the entries of `local_names`.
use rua_lang.Base.{
  ℕ, ◌≡◌, ◌≢◌, refl, sym, ◌∙◌, ap, inl, inr, ◌&&◌, ◌⊎◌, true, false, List, [], ◌∷◌, none, some, All,
  ◌==◌, ==_iff, and_true, Bool-cases, arith,
}
use mathlib.Core.Path.{subst}
use rua_lang.Lex.Keywords.{bytes_eq_iff}
use rua_lang.Lex.Kind.{bytes_eq}
use rua_lang.Backend.Names.{contains}
use rua_lang.Backend.Alloc.{Used, insert_name, LocalNames, find_local}

pub contains_self : (names : List (List ℕ)) (a : List ℕ) → contains (a ∷ names) a ≡ true
unfolding contains
contains_self names a = rw ((bytes_eq_iff a a).1 refl) refl

pub contains-cons :
    (names : List (List ℕ)) (x a : List ℕ) → contains names a ≡ true → contains (x ∷ names) a ≡ true
unfolding contains
contains-cons names x a h = ground arith

module _ (used : Used) (scope : ℕ) (a : List ℕ) where
  pub insert_name_self : contains (insert_name used scope a scope) a ≡ true
  unfolding insert_name
  insert_name_self =
      let here : (scope == scope) ≡ true = ground arith in rw here (contains_self (used scope) a)

  pub insert_name-grows :
      (m : ℕ) (x : List ℕ)
      → contains (used m) x ≡ true
      → contains (insert_name used scope a m) x ≡ true
  unfolding insert_name
  insert_name-grows m x h = elim (Bool-cases (m == scope)) [
    | inl t ↦ rw t (contains-cons (used m) a x h)
    | inr f ↦ rw f h
  ]

pub All-map {ℓ} :
    {A : Type ℓ} (P Q : A → Type 0) (xs : List A) → ((x : A) → P x → Q x) → All P xs → All Q xs
All-map P Q [] f h = tt
All-map P Q (x ∷ xs) f (h, hs) = (f x h, All-map P Q xs f hs)

abbrev pub Entry : Type 0
Entry = (ℕ × List ℕ) × List ℕ

-- No two entries of a module have the same name.
abbrev pub Distinct : LocalNames → Type 0
Distinct [] = Unit
Distinct (e ∷ rest) = All (λ (e' : Entry). e'.0.0 ≡ e.0.0 → e'.1 ≢ e.1) rest × Distinct rest

module _ (m' : ℕ) (n' p' : List ℕ) (rest : LocalNames) (m : ℕ) (n : List ℕ) where
  pub find_local-here :
      (m' == m && bytes_eq n' n) ≡ true → find_local (((m', n'), p') ∷ rest) m n ≡ some p'
  unfolding find_local
  find_local-here t = rw t refl

  pub find_local-behind :
      (m' == m && bytes_eq n' n) ≡ false
      → find_local (((m', n'), p') ∷ rest) m n ≡ find_local rest m n
  unfolding find_local
  find_local-behind f = rw f refl

  -- An entry that is found is the first, or is found behind it.
  find_local-cases :
      (p : List ℕ)
      → find_local (((m', n'), p') ∷ rest) m n ≡ some p
      → (◌≡◌ {A = Entry} ((m', n'), p') ((m, n), p)) ⊎ (find_local rest m n ≡ some p)
  find_local-cases p e = elim (Bool-cases (m' == m && bytes_eq n' n)) [
    | inl t ↦
        let (a, b) = (and_true (m' == m) (bytes_eq n' n)).0 t in
        let same_module : m' ≡ m = (==_iff m' m).0 a in
        let same_name : n' ≡ n = (bytes_eq_iff n' n).0 b in
        let found : some p' ≡ some p = sym (find_local-here t) ∙ e in
        let same_place : p' ≡ p = cc in inl (rw (same_module, same_name, same_place) refl)
    | inr f ↦ inr (sym (find_local-behind f) ∙ e)
  ]

pub find_local-All :
    (P : Entry → Type 0) (names : LocalNames) (m : ℕ) (n p : List ℕ)
    → find_local names m n ≡ some p
    → All P names
    → P ((m, n), p)
find_local-All P [] m n p e h = let no : none ≡ some p = unfold find_local in e in cc
find_local-All P (((m', n'), p') ∷ rest) m n p e (h, hs) =
    elim (find_local-cases m' n' p' rest m n p e) [
      | inl same ↦ subst P same h
      | inr found ↦ find_local-All P rest m n p found hs
    ]

-- A name belongs to one source name of a module.
pub find_local_inj :
    (names : LocalNames) (m : ℕ) (a b p : List ℕ)
    → Distinct names
    → find_local names m a ≡ some p
    → find_local names m b ≡ some p
    → a ≡ b
find_local_inj [] m a b p d e e' = let no : none ≡ some p = unfold find_local in e in cc
find_local_inj (((m', n'), p') ∷ rest) m a b p (apart, d) e e' =
    elim (find_local-cases m' n' p' rest m a p e) [
      | inl same ↦ elim (find_local-cases m' n' p' rest m b p e') [
        | inl same' ↦ ap (λ (e : Entry). e.0.1) (sym same ∙ same')
        | inr found ↦ absurd (clash a b same found)
      ]
      | inr found ↦ elim (find_local-cases m' n' p' rest m b p e') [
        | inl same' ↦ absurd (clash b a same' found)
        | inr found' ↦ find_local_inj rest m a b p d found found'
      ]
    ]
  where
    clash :
        (a b : List ℕ)
        → ◌≡◌ {A = Entry} ((m', n'), p') ((m, a), p)
        → find_local rest m b ≡ some p
        → ⊥
    clash a b same found =
        find_local-All (λ (e' : Entry). e'.0.0 ≡ m' → e'.1 ≢ p') rest m b p found apart
          (sym (ap (λ (e : Entry). e.0.0) same)) (sym (ap (λ (e : Entry). e.1) same))

-- ===== src/Backend/Locals.antt =====
-- crates/ruac/src/backend_layout.rs: locals get names of their own.
use rua_lang.Base.{
  ℕ, ◌≡◌, ◌≢◌, refl, sym, ◌∙◌, ap, inl, inr, true, false, ◌&&◌, List, [], ◌∷◌, ◌++◌, append-nil,
  append_assoc, map, none, some, All, ok, Returns, ◌==◌, ==_iff, and_true, Bool-cases, Option-cases,
}
use rua_lang.Lex.Keywords.{bytes_eq_iff}
use rua_lang.Lex.Kind.{bytes_eq}
use rua_lang.Backend.Names.{contains, user_identifier}
use rua_lang.Backend.Alloc.{
  Place, name, Used, insert_name, local_place, LocalData, LocalNames, find_local, Locals, add_local,
  new_local, allocate_local, allocate_locals, local_name,
}
use rua_lang.Backend.Entries.{
  insert_name_self, insert_name-grows, All-map, Entry, Distinct, find_local-here, find_local-behind,
  find_local-All, find_local_inj,
}
use rua_lang.Backend.Fresh.{local_place-free}

-- What holds of the state of the loop that began with the names `used`.
pub record Apart (used : Used) (s : Locals) : Type 0 where
  pub grows : (m : ℕ) (x : List ℕ) → contains (used m) x ≡ true → contains (s.used m) x ≡ true
  pub taken : All (λ (e : Entry). contains (s.used e.0.0) e.1 ≡ true) s.local_names
  pub fresh : All (λ (e : Entry). contains (used e.0.0) e.1 ≡ false) s.local_names
  pub distinct : Distinct s.local_names

-- Entries that are found are found again.
abbrev Extends : LocalNames → LocalNames → Type 0
Extends names names' =
    (m : ℕ) (n p : List ℕ) → find_local names m n ≡ some p → find_local names' m n ≡ some p

-- what one local, and the rest of them, does to the state
record Step (used : Used) (s s' : Locals) (local : LocalData) : Type 0 where
  apart : Apart used s'
  extends : Extends s.local_names s'.local_names
  place : List ℕ
  named : find_local s'.local_names local.module_id local.name ≡ some place
  added : s'.locals ≡ s.locals ++ (local.id, name place) ∷ []

module _ (s : Locals) (local : LocalData) where
  allocate_local-known :
      (place : List ℕ)
      → find_local s.local_names local.module_id local.name ≡ some place
      → allocate_local s local ≡ ok (add_local s local place)
  unfolding allocate_local add_local
  allocate_local-known place e = rw (allocate_local, e) refl

  allocate_local-unknown :
      find_local s.local_names local.module_id local.name ≡ none
      → allocate_local s local ≡ new_local s local
  unfolding allocate_local new_local
  allocate_local-unknown e = rw (allocate_local, e) refl

known-Step :
    (used : Used) (s : Locals) (local : LocalData) (place : List ℕ)
    → Apart used s
    → find_local s.local_names local.module_id local.name ≡ some place
    → Returns (allocate_local s local) (λ s'. Step used s s' local)
unfolding add_local
known-Step used s local place apart e = (
  _,
  allocate_local-known s local place e,
  record {
    apart = record {
      grows = apart.grows;
      taken = apart.taken;
      fresh = apart.fresh;
      distinct = apart.distinct;
    };
    extends = λ m n p h. h;
    place = place;
    named = e;
    added = refl;
  },
)

-- A name outside the set of names is none of the entries', and was not there before.
unused :
    (names : List (List ℕ)) (a b : List ℕ)
    → contains names a ≡ true
    → contains names b ≡ false
    → a ≢ b
unused names a b h k e = let same = ap (contains names) e in cc

new_local-ok :
    (s : Locals) (local : LocalData) (place : List ℕ)
    → local_place (s.used local.module_id) (user_identifier local.name) ≡ ok place
    → new_local s local
      ≡ ok (
          add_local
            (record s {
              used = insert_name s.used local.module_id place;
              local_names = ((local.module_id, local.name), place) ∷ s.local_names;
            })
            local
            place)
unfolding new_local add_local
new_local-ok s local place e = rw (new_local, e) refl

unused_before :
    (names names' : List (List ℕ)) (x : List ℕ)
    → (contains names x ≡ true → contains names' x ≡ true)
    → contains names' x ≡ false
    → contains names x ≡ false
unused_before names names' x grows h = elim (Bool-cases (contains names x)) [
  | inl t ↦ let both = sym (grows t) ∙ h in cc
  | inr f ↦ f
]

known_behind :
    (m : ℕ) (n place : List ℕ) (names : LocalNames) (m' : ℕ) (n' p : List ℕ)
    → find_local names m n ≡ none
    → find_local names m' n' ≡ some p
    → find_local (((m, n), place) ∷ names) m' n' ≡ some p
known_behind m n place names m' n' p e h = elim (Bool-cases (m == m' && bytes_eq n n')) [
  | inl t ↦
      let (a, b) = (and_true (m == m') (bytes_eq n n')).0 t in
      let same : find_local names m n ≡ find_local names m' n' =
        rw ((==_iff m m').0 a, (bytes_eq_iff n n').0 b) refl in
      let both : none ≡ some p = sym e ∙ same ∙ h in cc
  | inr f ↦ find_local-behind m n place names m' n' f ∙ h
]

unknown-Step :
    (used : Used) (s : Locals) (local : LocalData)
    → Apart used s
    → find_local s.local_names local.module_id local.name ≡ none
    → Returns (allocate_local s local) (λ s'. Step used s s' local)
unfolding add_local
unknown-Step used s local apart e =
    let m = local.module_id in
    let (place, found, free) = local_place-free (s.used m) (user_identifier local.name) in
    (
      _,
      allocate_local-unknown s local e ∙ new_local-ok s local place found,
      record {
        apart = record {
          grows = λ m' x h. insert_name-grows s.used m place m' x (apart.grows m' x h);
          taken = (
            insert_name_self s.used m place,
            All-map _ _ s.local_names
                (λ entry h. insert_name-grows s.used m place entry.0.0 entry.1 h) apart.taken,
          );
          fresh = (unused_before (used m) (s.used m) place (apart.grows m place) free, apart.fresh);
          distinct = (
            All-map _ _ s.local_names
                (λ entry h same.
                  unused (s.used m) entry.1 place
                    (ap (λ k. contains (s.used k) entry.1) (sym same) ∙ h) free)
                apart.taken,
            apart.distinct,
          );
        };
        extends = λ m' n p h. known_behind m local.name place s.local_names m' n p e h;
        place = place;
        named = find_local-here m local.name place s.local_names m local.name (
            (and_true (m == m) (bytes_eq local.name local.name)).1
              ((==_iff m m).1 refl, (bytes_eq_iff local.name local.name).1 refl));
        added = refl;
      },
    )

allocate_local-Step :
    (used : Used) (s : Locals) (local : LocalData)
    → Apart used s
    → Returns (allocate_local s local) (λ s'. Step used s s' local)
allocate_local-Step used s local apart =
    elim (Option-cases (find_local s.local_names local.module_id local.name)) [
      | inl e ↦ unknown-Step used s local apart e
      | inr (place, e) ↦ known-Step used s local place apart e
    ]

-- Each of some locals has an entry.
abbrev pub Named : LocalNames → List LocalData → Type 0
Named names = All (λ (local : LocalData).
    (place : List ℕ) × (find_local names local.module_id local.name ≡ some place))

abbrev pub place_of : LocalNames → LocalData → ℕ × Place
place_of names local = (local.id, name (local_name names local.module_id local.name))

-- What the loop over some locals does to the state.
record Steps (used : Used) (s s' : Locals) (locals : List LocalData) : Type 0 where
  apart : Apart used s'
  extends : Extends s.local_names s'.local_names
  named : Named s'.local_names locals
  added : s'.locals ≡ s.locals ++ map (place_of s'.local_names) locals

local_name-found :
    (names : LocalNames) (m : ℕ) (n p : List ℕ)
    → find_local names m n ≡ some p
    → local_name names m n ≡ p
unfolding local_name
local_name-found names m n p e = rw (local_name, e) refl

allocate_locals-Steps :
    (used : Used) (s : Locals) (locals : List LocalData)
    → Apart used s
    → Returns (allocate_locals s locals) (λ s'. Steps used s s' locals)
unfolding allocate_locals
allocate_locals-Steps used s [] apart = (
  s,
  refl,
  record { apart = apart; extends = λ m n p h. h; named = tt; added = sym (append-nil s.locals) },
)
allocate_locals-Steps used s (local ∷ locals) apart =
    let (s', e, step) = allocate_local-Step used s local apart in
    let (s'', e', rest) = allocate_locals-Steps used s' locals step.apart in
    let named = rest.extends local.module_id local.name step.place step.named in
    (
      s'',
      rw e e',
      record {
        apart = rest.apart;
        extends = λ m n p h. rest.extends m n p (step.extends m n p h);
        named = ((step.place, named), rest.named);
        added =
            rest.added
            ∙ ap (λ l. l ++ map (place_of s''.local_names) locals) step.added
            ∙ append_assoc s.locals ((local.id, name step.place) ∷ [])
                (map (place_of s''.local_names) locals)
            ∙ ap (λ n. s.locals ++ (local.id, name n) ∷ map (place_of s''.local_names) locals)
                (sym
                  (local_name-found s''.local_names local.module_id local.name step.place named));
      },
    )

-- What the loop over the locals promises, where `used` are the names of the items in each module.
pub record Placed (used : Used) (locals : List LocalData) : Type 0 where
  pub result : Locals
  pub returns :
      allocate_locals (record { used = used; local_names = []; locals = [] }) locals ≡ ok result
  pub places : result.locals ≡ map (place_of result.local_names) locals
  pub apart :
      All
        (λ (l : LocalData).
          All
            (λ (l' : LocalData).
              l.module_id ≡ l'.module_id
              → local_name result.local_names l.module_id l.name
                ≡ local_name result.local_names l'.module_id l'.name
              → l.name ≡ l'.name)
            locals)
        locals
  pub fresh :
      All
        (λ (l : LocalData).
          contains (used l.module_id) (local_name result.local_names l.module_id l.name) ≡ false)
        locals

-- For every set of names in use and every list of locals, the loop over the locals ends without a
-- panic. Each local's place is the variable that `local_name` gives for its module and name. Locals
-- of one module with the same variable have the same source name, and no variable is one of the names
-- that were in use in the module before.
pub allocate_locals-Placed : (used : Used) (locals : List LocalData) → Placed used locals
allocate_locals-Placed used locals =
    let start : Locals = record { used = used; local_names = []; locals = [] } in
    let (s, e, steps) =
      allocate_locals-Steps used start locals
        (record { grows = λ m x h. h; taken = tt; fresh = tt; distinct = tt }) in
    let names = s.local_names in
    let found : (l : LocalData)
        → (place : List ℕ) × (find_local names l.module_id l.name ≡ some place)
        → find_local names l.module_id l.name ≡ some (local_name names l.module_id l.name) =
      λ l h.
        h.1
        ∙ ap (λ (p : List ℕ). some p) (sym (local_name-found names l.module_id l.name h.0 h.1)) in
    record {
      result = s;
      returns = e;
      places = steps.added;
      apart =
          All-map _ _ locals
            (λ l h.
              All-map _ _ locals
                (λ l' h' same same_name.
                  find_local_inj names l.module_id l.name l'.name _ steps.apart.distinct (found l h)
                    (ap (λ m. find_local names m l'.name) same
                      ∙ found l' h'
                      ∙ ap (λ (p : List ℕ). some p) (sym same_name)))
                steps.named)
            steps.named;
      fresh =
          All-map _ _ locals
            (λ l h.
              find_local-All (λ (entry : Entry). contains (used entry.0.0) entry.1 ≡ false) names
                l.module_id l.name _ (found l h) steps.apart.fresh)
            steps.named;
    }

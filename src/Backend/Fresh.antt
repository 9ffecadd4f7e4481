-- ===== src/Backend/Fresh.antt =====
-- crates/ruac/src/backend_layout.rs: the loop that looks for a free name ends with one.
use rua_lang.Base.{
  ℕ, suc, ◌+◌, ◌-◌, ◌≤◌, ◌≡◌, refl, ap, inl, inr, true, false, List, [], ◌∷◌, ◌++◌, Returns,
  loop-Returns, Keeps, length, length-append, Bool-cases, codes, arith,
}
use rua_lang.Lex.Keywords.{bytes_eq_iff}
use rua_lang.Lex.Kind.{bytes_eq}
use rua_lang.Backend.Names.{contains}
use rua_lang.Backend.Alloc.{longest, push_step, push_until_free, local_place}

pub contains-longest :
    (names : List (List ℕ)) (a : List ℕ) → contains names a ≡ true → length a ≤ longest names
unfolding contains longest
contains-longest [] a h = cc
contains-longest (x ∷ xs) a h = elim (Bool-cases (bytes_eq x a)) [
  | inl t ↦ let same = (bytes_eq_iff x a).0 t in omega (arith, ap length same)
  | inr f ↦ omega (arith, contains-longest xs a (ground arith))
]

pub push_until_free-free :
    (names : List (List ℕ)) (candidate : List ℕ)
    → Returns (push_until_free names candidate) (λ free. contains names free ≡ false)
unfolding push_until_free push_step
push_until_free-free names candidate =
    loop-Returns (λ a. Unit) (λ free. contains names free ≡ false)
      (λ a. suc (longest names) - length a) (push_step names) (λ a _. round a) (2 + longest names)
      candidate (omega arith) tt
  where
    round :
        (a : List ℕ)
        → Returns (push_step names a) (
            Keeps
              (λ a. Unit)
              (λ free. contains names free ≡ false)
              (λ a. suc (longest names) - length a)
              a)
    round a = elim (Bool-cases (contains names a)) [
      | inl t ↦
          rw t
            (_, refl, (tt, omega (arith, length-append a (codes "_"), contains-longest names a t)))
      | inr f ↦ rw f (_, refl, f)
    ]

pub local_place-free :
    (names : List (List ℕ)) (candidate : List ℕ)
    → Returns (local_place names candidate) (λ free. contains names free ≡ false)
unfolding local_place
local_place-free names candidate = elim (Bool-cases (contains names candidate)) [
  | inl t ↦ rw t (push_until_free-free names (candidate ++ codes "__local"))
  | inr f ↦ rw f (candidate, refl, f)
]

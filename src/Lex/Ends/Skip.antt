-- ===== src/Lex/Ends/Skip.antt =====
-- crates/rua-common/src/lex.rs: the loops over a run of bytes, by one induction rule.
use rua_lang.Base.{
  ℕ, ◌+◌, ◌≤◌, ◌<◌, ◌≡◌, refl, ◌⊎◌, inl, inr, Bool, true, false, List, [], ◌∷◌, some, Bool-cases,
  length, get_elem?, drop, drop-eq-cons, drop-eq-nil, get_elem?-lt, arith,
}
use rua_lang.Lex.Bytes.{IsUtf8, is_char_boundary, boundary_ascii, boundary_next_ascii, boundary_end}
use rua_lang.Lex.Scan.{skip_from, skip_while}

-- The loop stops at the end of the bytes or at a byte that fails the test, and keeps what each
-- round keeps.
pub record Skips (p : ℕ → Bool) (bytes : List ℕ) (P : ℕ → Type 0) (start end : ℕ) : Type 0 where
  pub from : start ≤ end
  pub holds : P end
  pub stops : (length bytes ≤ end) ⊎ ((b : ℕ) × (get_elem? bytes end ≡ some b) × (p b ≡ false))

module _ (p : ℕ → Bool) (bytes : List ℕ) (P : ℕ → Type 0)
    (keep : (i b : ℕ) → get_elem? bytes i ≡ some b → p b ≡ true → P i → P (i + 1)) where
  skip_from-Skips :
      (s : List ℕ) (i : ℕ) → drop i bytes ≡ s → P i → Skips p bytes P i (skip_from p s i)
  unfolding skip_from
  skip_from-Skips [] i e h = record {
    from = omega arith;
    holds = h;
    stops = inl (drop-eq-nil bytes i e);
  }
  skip_from-Skips (b ∷ r) i e h = elim (Bool-cases (p b)) [
    | inl t ↦
        let (here, later) = drop-eq-cons bytes i e in
        let rest = skip_from-Skips r (i + 1) later (keep i b here t h) in
        rw t (record { from = omega (arith, rest.from); holds = rest.holds; stops = rest.stops })
    | inr f ↦
        rw f
          (record { from = omega arith; holds = h; stops = inr (b, (drop-eq-cons bytes i e).0, f) })
  ]

  pub skip_while-Skips : (i : ℕ) → P i → Skips p bytes P i (skip_while p bytes i)
  unfolding skip_while
  skip_while-Skips i h = skip_from-Skips _ i refl h

module _ (p : ℕ → Bool) {text : List ℕ} (u : IsUtf8 text) (start : ℕ) where
  -- A run of ASCII bytes ends at a boundary.
  pub skip_ascii :
      ((b : ℕ) → p b ≡ true → b < 128)
      → is_char_boundary text start ≡ true
      → (start ≤ skip_while p text start) × (is_char_boundary text (skip_while p text start) ≡ true)
  skip_ascii small h =
      let s =
        skip_while-Skips p text (λ i. is_char_boundary text i ≡ true)
          (λ i b e t c. boundary_next_ascii i u e (small b t)) start h in
      (s.from, s.holds)

  -- It passes its start, where the byte there is of the run.
  pub skip_ascii_past :
      {b : ℕ}
      → ((c : ℕ) → p c ≡ true → c < 128)
      → get_elem? text start ≡ some b
      → p b ≡ true
      → (start < skip_while p text start) × (is_char_boundary text (skip_while p text start) ≡ true)
  skip_ascii_past {b} small e t =
      let s =
        skip_while-Skips p text (λ i. is_char_boundary text i ≡ true)
          (λ i c g k d. boundary_next_ascii i u g (small c k)) start
          (boundary_ascii text start e (small b t)) in
      (
        elim s.stops [
          | inl over ↦ omega (arith, get_elem?-lt text start e, s.from)
          | inr (c, g, f) ↦ ground (arith, s.from)
        ],
        s.holds,
      )

  -- So does a run up to an ASCII byte.
  pub skip_to_ascii :
      ((b : ℕ) → p b ≡ false → b < 128)
      → start ≤ length text
      → (start ≤ skip_while p text start) × (is_char_boundary text (skip_while p text start) ≡ true)
  skip_to_ascii small h =
      let s =
        skip_while-Skips p text (λ i. i ≤ length text)
          (λ i b e t c. omega (arith, get_elem?-lt text i e)) start h in
      (
        s.from,
        elim s.stops [
          | inl over ↦ boundary_end text _ (omega (arith, s.holds))
          | inr (b, e, f) ↦ boundary_ascii text _ e (small b f)
        ],
      )

-- ===== src/Lex/Ends/Number.antt =====
-- crates/rua-common/src/lex.rs: where `lex_number` ends.
use rua_lang.Base.{
  ℕ, ◌+◌, ◌≤◌, ◌<◌, ◌≡◌, inl, inr, Bool, true, not, ◌&&◌, ◌||◌, List, ◌==◌, if◌then◌else◌, if-both,
  get_elem?, Option-cases, arith,
}
use rua_lang.Lex.Bytes.{
  IsUtf8, is_ascii_digit, is_ascii_alphanumeric, is_name_start, is_at, sat_at, is_char_boundary,
  boundary_ascii, boundary_next_ascii,
}
use rua_lang.Lex.Kind.{TokenKind}
use rua_lang.Lex.Scan.{skip_while, is_digit_or_underscore, fraction, exponent, lex_number}
use rua_lang.Lex.Ends.{EndsAfter}
use rua_lang.Lex.Ends.Skip.{skip_ascii, skip_ascii_past}

module _ {text : List ℕ} (u : IsUtf8 text) where
  -- An ASCII byte that was tested for: a character begins there and behind it.
  sat_at-boundary :
      (i : ℕ) (p : ℕ → Bool)
      → ((b : ℕ) → p b ≡ true → b < 128)
      → sat_at text i p ≡ true
      → (is_char_boundary text i ≡ true) × (is_char_boundary text (i + 1) ≡ true)
  sat_at-boundary i p small t = elim (Option-cases (get_elem? text i)) [
    | inl e ↦ ground arith
    | inr (b, e) ↦
        let ascii : b < 128 = ground (arith, small b) in
        (boundary_ascii text i e ascii, boundary_next_ascii i u e ascii)
  ]

  abbrev From : ℕ → ℕ → Type 0
  From lo end = (lo ≤ end) × (is_char_boundary text end ≡ true)

  digits-From :
      (i : ℕ) → is_char_boundary text i ≡ true → From i (skip_while is_digit_or_underscore text i)
  digits-From i h = skip_ascii is_digit_or_underscore u i (λ b t. ground arith) h

  fraction-From :
      (is_float : Bool) (end : ℕ)
      → is_char_boundary text end ≡ true
      → From end (fraction text (is_float, end)).1
  unfolding fraction
  fraction-From is_float end h =
      if-both (λ (r : Bool × ℕ). From end r.1)
        (is_at text end b'.'
          && not (is_at text (end + 1) b'.')
          && not (sat_at text (end + 1) is_name_start))
        (λ t. ground (
          arith,
          sat_at-boundary end (λ b. b == b'.') (λ b k. ground arith),
          digits-From (end + 1),
        ))
        (λ _. (omega arith, h))

  exponent-From :
      (is_float : Bool) (end : ℕ)
      → is_char_boundary text end ≡ true
      → From end (exponent text (is_float, end)).1
  unfolding exponent
  exponent-From is_float end h =
      if-both (λ (r : Bool × ℕ). From end r.1) (sat_at text end (λ b. b == b'e' || b == b'E'))
        (λ t.
          let behind = (sat_at-boundary end _ (λ b k. ground arith) t).1 in
          if-both (λ start. From end (skip_while is_digit_or_underscore text start))
            (sat_at text (end + 1) (λ b. b == b'+' || b == b'-'))
            (λ s.
              let sign = (sat_at-boundary (end + 1) _ (λ b k. ground arith) s).1 in
              ground (arith, digits-From (end + 2)))
            (λ _. ground (arith, digits-From (end + 1))))
        (λ _. (omega arith, h))

  -- At a digit, or a dot before one, the number ends past its start, at a boundary.
  pub lex_number-EndsAfter :
      (start : ℕ)
      → (sat_at text start is_ascii_digit
          || (is_at text start b'.' && sat_at text (start + 1) is_ascii_digit))
        ≡ true
      → EndsAfter text start (lex_number text start).1
  unfolding lex_number
  lex_number-EndsAfter start h =
      if-both (λ (r : TokenKind × ℕ). EndsAfter text start r.1)
        (is_at text start b'0'
          && sat_at text (start + 1) (λ b. b == b'x' || b == b'X' || b == b'b' || b == b'B'))
        (λ t. prefixed (ground arith)) (λ k. decimal)
    where
      prefixed :
          sat_at text (start + 1) (λ b. b == b'x' || b == b'X' || b == b'b' || b == b'B') ≡ true
          → EndsAfter text start
              (skip_while (λ b. is_ascii_alphanumeric b || b == b'_') text (start + 2))
      prefixed t =
          let behind = (sat_at-boundary (start + 1) _ (λ b k. ground arith) t).1 in
          let run =
            skip_ascii (λ b. is_ascii_alphanumeric b || b == b'_') u (start + 2)
              (λ b k. ground arith) (ground arith) in
          record { past = omega (arith, run.0); boundary = run.1 }

      digits_from : ℕ
      digits_from = if is_at text start b'.' then start + 1 else start

      digits :
          (start < skip_while is_digit_or_underscore text digits_from)
          × (is_char_boundary text (skip_while is_digit_or_underscore text digits_from) ≡ true)
      digits =
          if-both
            (λ i.
              (start < skip_while is_digit_or_underscore text i)
              × (is_char_boundary text (skip_while is_digit_or_underscore text i) ≡ true))
            (is_at text start b'.')
            (λ t. ground (
              arith,
              digits-From (start + 1),
              sat_at-boundary start (λ b. b == b'.') (λ b k. ground arith),
            ))
            (λ k. elim (Option-cases (get_elem? text start)) [
              | inl e ↦ ground arith
              | inr (b, e) ↦
                  skip_ascii_past is_digit_or_underscore u start (λ c t. ground arith) e
                    (ground arith)
            ])

      decimal :
          EndsAfter text start
            (exponent text (
              fraction text
                (is_at text start b'.', skip_while is_digit_or_underscore text digits_from))).1
      decimal =
          let f = fraction-From (is_at text start b'.') _ digits.1 in
          let e = exponent-From _ _ f.1 in
          record { past = omega (arith, digits.0, f.0, e.0); boundary = e.1 }

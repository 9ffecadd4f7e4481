-- ===== src/Lex/Ends/Scan.antt =====
-- crates/rua-common/src/lex.rs: where the loops over a block comment and a string literal end.
use rua_lang.Base.{
  ℕ, suc, ◌+◌, ◌-◌, ◌<◌, ◌≡◌, refl, Bool, true, ◌&&◌, ◌||◌, List, Call, Next, stop, Keeps,
  loop-Returns, Returns, Returns-bind, ◌==◌, leb, ltb, if-both, Option-cases, length, get_elem?,
  get_elem?-lt, get_elem?-of_lt, arith, some, false, inl, inr,
}
use rua_lang.Lex.Bytes.{
  IsUtf8, is_at, is_char_boundary, boundary_next_ascii, char_width, char_width_lem, len_utf8,
}
use rua_lang.Lex.Scan.{comment_step, lex_block_comment, string_byte, string_step, lex_string}
use rua_lang.Lex.Ends.{EndsAfter}

module _ {text : List ℕ} (u : IsUtf8 text) where
  -- An ASCII byte that was read lies in the text, and a character begins behind it.
  pub is_at-boundary :
      (i c : ℕ)
      → is_at text i c ≡ true
      → c < 128
      → (i < length text) × (is_char_boundary text (i + 1) ≡ true)
  is_at-boundary i c t small = elim (Option-cases (get_elem? text i)) [
    | inl e ↦ ground arith
    | inr (b, e) ↦
        let same : b ≡ c = ground arith in
        (get_elem?-lt text i e, boundary_next_ascii i u e (ground arith))
  ]

  pub is_at-boundary₂ :
      (i c d : ℕ)
      → (is_at text i c && is_at text (i + 1) d) ≡ true
      → d < 128
      → (i + 1 < length text) × (is_char_boundary text (i + 2) ≡ true)
  is_at-boundary₂ i c d t small = ground (arith, is_at-boundary (i + 1) d)

  -- `char_width` returns inside the text, and leads to the next boundary.
  pub char_width-Returns :
      (i : ℕ)
      → is_char_boundary text i ≡ true
      → i < length text
      → Returns (char_width text i) (λ w. (0 < w) × (is_char_boundary text (i + w) ≡ true))
  char_width-Returns i c h =
      let (b, e) = get_elem?-of_lt text i h in
      let w = char_width_lem i u c e in (len_utf8 b, w.0, (w.1, w.2))

  module _ (cursor : ℕ) where
    abbrev InComment : ℕ × ℕ → Type 0
    InComment (end, depth) = EndsAfter text cursor end

    abbrev left : ℕ × ℕ → ℕ
    left (end, depth) = length text - end

    comment_step-Keeps :
        (a : ℕ × ℕ) → InComment a → Returns (comment_step text a) (Keeps InComment InComment left a)
    unfolding comment_step
    comment_step-Keeps (end, depth) h =
        if-both Good (leb (length text) end || depth == 0) (λ t. (_, refl, h))
          λ more.
            if-both Good (is_at text end b'/' && is_at text (end + 1) b'*')
              (λ t. (_, refl, ground (arith, is_at-boundary₂ end b'/' b'*' t)))
              λ _.
                if-both Good (is_at text end b'*' && is_at text (end + 1) b'/')
                  (λ t. (_, refl, ground (arith, is_at-boundary₂ end b'*' b'/' t)))
                  λ _.
                    Returns-bind _ _ (char_width-Returns end h.boundary (ground arith))
                      (λ w k. (_, refl, ground arith))
      where
        Good : Call (Next (ℕ × ℕ) (ℕ × ℕ)) → Type 0
        Good r = Returns r (Keeps InComment InComment left (end, depth))

    -- A block comment returns a lexeme that ends at a boundary, terminated or not.
    pub lex_block_comment-Returns :
        is_at text cursor b'/' && is_at text (cursor + 1) b'*' ≡ true
        → Returns (lex_block_comment text cursor) (λ l. EndsAfter text cursor l.end)
    unfolding lex_block_comment
    lex_block_comment-Returns h =
        Returns-bind _ _
          (loop-Returns InComment InComment left (comment_step text) comment_step-Keeps
            (suc (length text)) (cursor + 2, 1) (omega arith)
            (ground (arith, is_at-boundary₂ cursor b'/' b'*' h)))
          (λ (end, depth) k. (_, refl, k))

    abbrev InString : ℕ → Type 0
    InString end = EndsAfter text cursor end

    abbrev GoesOn : ℕ → Call (Next ℕ (ℕ × Bool)) → Type 0
    GoesOn end r =
        Returns r
          (Keeps InString (λ (end', terminated). InString end') (λ end'. length text - end') end)

    string_byte-GoesOn :
        (end b : ℕ)
        → InString end
        → get_elem? text end ≡ some b
        → GoesOn end (string_byte text end b)
    unfolding string_byte
    string_byte-GoesOn end b h e =
        let next : b < 128 → is_char_boundary text (end + 1) ≡ true = boundary_next_ascii end u e in
        let inside = get_elem?-lt text end e in
        if-both (GoesOn end) (b == b'"') (λ t. (_, refl, ground arith))
          λ _.
            if-both (GoesOn end) (b == b'\\')
              (λ t.
                if-both (GoesOn end) (ltb (end + 1) (length text))
                  (λ more.
                    Returns-bind _ _ (char_width-Returns (end + 1) (ground arith) (ground arith))
                      (λ w k. (_, refl, ground arith)))
                  (λ _. (_, refl, ground arith)))
              λ _.
                if-both (GoesOn end) (b == b'\n' || b == b'\r') (λ _. (_, refl, h))
                  λ _.
                    Returns-bind _ _ (char_width-Returns end h.boundary inside)
                      (λ w k. (_, refl, ground arith))

    string_step-GoesOn : (end : ℕ) → InString end → GoesOn end (string_step text end)
    unfolding string_step
    string_step-GoesOn end h = elim (Option-cases (get_elem? text end)) [
      | inl e ↦ (stop (end, false), rw (e, string_step), h)
      | inr (b, e) ↦ rw (e, string_step) (string_byte-GoesOn end b h e)
    ]

    -- A string literal returns a lexeme that ends at a boundary, terminated or not.
    pub lex_string-Returns :
        is_at text cursor b'"' ≡ true
        → Returns (lex_string text cursor) (λ l. EndsAfter text cursor l.end)
    unfolding lex_string
    lex_string-Returns h =
        Returns-bind _ _
          (loop-Returns InString _ (λ end. length text - end) (string_step text) string_step-GoesOn
            (suc (length text)) (cursor + 1) (omega arith)
            (ground (arith, is_at-boundary cursor b'"' h)))
          (λ (end, depth) k. (_, refl, k))

-- ===== src/Lex/Ends/Token.antt =====
-- crates/rua-common/src/lex.rs: where the lexeme of each arm of the dispatch ends.
use rua_lang.Base.{
  ℕ, ◌+◌, ◌<◌, ◌≡◌, refl, true, ◌&&◌, ◌||◌, List, Option, none, some, ◌==◌, if-both, option-both,
  length, slice, codes, get_elem?, get_elem?-lt, get_elem?-le, arith, Call, ok, Returns,
  Returns-bind,
}
use rua_lang.Lex.Bytes.{
  IsUtf8, is_ascii_digit, is_name_start, is_name_continue, is_space, is_at, sat_at,
  is_char_boundary, boundary_next_ascii,
}
use rua_lang.Lex.Kind.{TokenKind, keyword_kind, bytes_eq}
use rua_lang.Lex.Scan.{Lexeme, skip_while, str_slice, not_newline}
use rua_lang.Lex.Lua.{LuaEnd}
use rua_lang.Lex.Token.{
  lexeme, lex_word, lex_lua_or_word, one_or_two, lex_arithmetic, lex_comparison, lex_separator,
  lex_bracket, or_else, lex_unknown, lex_punctuation, lex_byte, lex_one,
}
use rua_lang.Lex.Ends.{EndsAfter}
use rua_lang.Lex.Ends.Skip.{skip_ascii, skip_to_ascii}
use rua_lang.Lex.Ends.Scan.{
  is_at-boundary, char_width-Returns, lex_block_comment-Returns, lex_string-Returns,
}
use rua_lang.Lex.Ends.Number.{lex_number-EndsAfter}
use rua_lang.Lex.Ends.Lua.{BlockEnds, lex_lua_block-Returns}

module _ {text : List ℕ} (u : IsUtf8 text) (cursor : ℕ) {b : ℕ}
    (here : get_elem? text cursor ≡ some b) where
  abbrev Ends : Lexeme → Type 0
  Ends l = EndsAfter text cursor l.end

  abbrev Good : Call Lexeme → Type 0
  Good r = Returns r Ends

  abbrev Found : Option Lexeme → Type 0
  Found none = Unit
  Found (some l) = Ends l

  -- An ASCII byte makes a token of one byte, or of two with an ASCII byte behind it.
  one : b < 128 → EndsAfter text cursor (cursor + 1)
  one small = record { past = omega arith; boundary = boundary_next_ascii cursor u here small }

  two : (c : ℕ) → c < 128 → is_at text (cursor + 1) c ≡ true → EndsAfter text cursor (cursor + 2)
  two c small t = record {
    past = omega arith;
    boundary = ground (arith, is_at-boundary u (cursor + 1) c);
  }

  one_or_two-Ends :
      (c : ℕ) (long short : TokenKind)
      → b < 128
      → c < 128
      → Ends (one_or_two text cursor c long short)
  one_or_two-Ends c long short small small' =
      if-both Ends (is_at text (cursor + 1) c) (two c small') (λ _. one small)

  lex_arithmetic-Found : Found (lex_arithmetic text cursor b)
  unfolding lex_arithmetic
  lex_arithmetic-Found =
      if-both Found (b == b'+')
        (λ t. one_or_two-Ends b'=' TokenKind.plus_eq TokenKind.plus (ground arith) (omega arith))
        λ f₁.
          if-both Found (b == b'-')
            (λ t. if-both Ends (is_at text (cursor + 1) b'>') (two b'>' (omega arith)) (λ _.
              one_or_two-Ends b'=' TokenKind.minus_eq TokenKind.minus (ground arith) (omega arith)))
            λ f₂.
              if-both Found (b == b'*')
                (λ t.
                  one_or_two-Ends b'=' TokenKind.star_eq TokenKind.star (ground arith)
                    (omega arith))
                λ f₃.
                  if-both Found (b == b'/')
                    (λ t.
                      one_or_two-Ends b'=' TokenKind.slash_eq TokenKind.slash (ground arith)
                        (omega arith))
                    λ f₄.
                      if-both Found (b == b'%')
                        (λ t.
                          one_or_two-Ends b'=' TokenKind.percent_eq TokenKind.percent (ground arith)
                            (omega arith))
                        λ f₅. tt

  lex_comparison-Found : Found (lex_comparison text cursor b)
  unfolding lex_comparison
  lex_comparison-Found =
      if-both Found (b == b'<')
        (λ t. one_or_two-Ends b'=' TokenKind.le TokenKind.lt (ground arith) (omega arith))
        λ f₁.
          if-both Found (b == b'>')
            (λ t. one_or_two-Ends b'=' TokenKind.ge TokenKind.gt (ground arith) (omega arith))
            λ f₂.
              if-both Found (b == b'=')
                (λ t. if-both Ends (is_at text (cursor + 1) b'=') (two b'=' (omega arith)) (λ _.
                  one_or_two-Ends b'>' TokenKind.fat_arrow TokenKind.eq (ground arith)
                    (omega arith)))
                λ f₃.
                  if-both Found (b == b'!')
                    (λ t.
                      one_or_two-Ends b'=' TokenKind.ne TokenKind.bang (ground arith) (omega arith))
                    λ f₄.
                      if-both Found (b == b'&')
                        (λ t.
                          one_or_two-Ends b'&' TokenKind.and_and TokenKind.amp (ground arith)
                            (omega arith))
                        λ f₅.
                          if-both Found (b == b'|')
                            (λ t.
                              one_or_two-Ends b'|' TokenKind.or_or TokenKind.pipe (ground arith)
                                (omega arith))
                            λ f₆. tt

  lex_separator-Found : Found (lex_separator text cursor b)
  unfolding lex_separator
  lex_separator-Found =
      if-both Found (b == b'.')
        (λ t.
          if-both Ends (is_at text (cursor + 1) b'.' && is_at text (cursor + 2) b'=')
            (λ k. record {
              past = omega arith;
              boundary = ground (arith, is_at-boundary u (cursor + 2) b'=');
            })
            (λ _.
              one_or_two-Ends b'.' TokenKind.dot_dot TokenKind.dot (ground arith) (omega arith)))
        λ f₁.
          if-both Found (b == b':')
            (λ t.
              one_or_two-Ends b':' TokenKind.colon_colon TokenKind.colon (ground arith)
                (omega arith))
            λ f₂.
              if-both Found (b == b';') (λ t. one (ground arith))
                λ f₃.
                  if-both Found (b == b',') (λ t. one (ground arith))
                    λ f₄.
                      if-both Found (b == b'?')
                        (λ t.
                          if-both Ends (is_at text (cursor + 1) b'?') (two b'?' (omega arith)) (λ _.
                            one_or_two-Ends b'.' TokenKind.question_dot TokenKind.question
                              (ground arith) (omega arith)))
                        λ f₅. tt

  lex_bracket-Found : Found (lex_bracket text cursor b)
  unfolding lex_bracket
  lex_bracket-Found =
      if-both Found (b == b'#') (λ t. one (ground arith))
        λ f₁.
          if-both Found (b == b'(') (λ t. one (ground arith))
            λ f₂.
              if-both Found (b == b')') (λ t. one (ground arith))
                λ f₃.
                  if-both Found (b == b'{') (λ t. one (ground arith))
                    λ f₄.
                      if-both Found (b == b'}') (λ t. one (ground arith))
                        λ f₅.
                          if-both Found (b == b'[') (λ t. one (ground arith))
                            λ f₆. if-both Found (b == b']') (λ t. one (ground arith)) λ f₇. tt

  or_else-Good :
      (found : Option Lexeme) {rest : Call Lexeme}
      → Found found
      → Good rest
      → Good (or_else found rest)
  or_else-Good none h k = k
  or_else-Good (some l) h k = (l, refl, h)

  module _ (start : is_char_boundary text cursor ≡ true) where
    lex_punctuation-Good : Good (lex_punctuation text cursor b)
    unfolding lex_punctuation lex_unknown
    lex_punctuation-Good = or_else-Good _ lex_arithmetic-Found (
        or_else-Good _ lex_comparison-Found (
          or_else-Good _ lex_separator-Found (
            or_else-Good _ lex_bracket-Found (
              Returns-bind _ _ (char_width-Returns u cursor start (get_elem?-lt text cursor here))
                (λ w k. (_, refl, record { past = omega (arith, k.0); boundary = k.1 }))))))

    -- A word starts and ends at a boundary, so its slice does not panic.
    lex_word-Good : is_name_start b ≡ true → Good (lex_word text cursor)
    unfolding lex_word is_name_start is_name_continue str_slice
    lex_word-Good t =
        let end = skip_while is_name_continue text (cursor + 1) in
        let run =
          skip_ascii is_name_continue u (cursor + 1) (λ c k. ground arith)
            (boundary_next_ascii cursor u here (ground arith)) in
        let sliced : str_slice text cursor end ≡ ok (slice text cursor end) =
          rw (start, run.1) (ground (arith, run.0)) in
        (
          lexeme (keyword_kind (slice text cursor end)) end,
          rw sliced refl,
          record { past = omega (arith, run.0); boundary = run.1 },
        )

    lex_lua_or_word-Good : is_name_start b ≡ true → Good (lex_lua_or_word text cursor)
    unfolding lex_lua_or_word
    lex_lua_or_word-Good t = Returns-bind _ _ (lex_lua_block-Returns u cursor) block
      where
        block :
            (block : Option LuaEnd)
            → BlockEnds text cursor block
            → Good (elim block [
              | some (end, error) ↦
                  ok (record { kind = TokenKind.lua_block; end = end; error = error })
              | none ↦ lex_word text cursor
            ])
        block none h = lex_word-Good t
        block (some (end, error)) h = (_, refl, h)

    -- Every arm of the dispatch returns, and ends behind the cursor at a boundary.
    pub lex_byte-Good : Good (lex_byte text cursor b)
    unfolding lex_byte
    lex_byte-Good =
        if-both Good (is_space b)
          (λ t.
            let run =
              skip_ascii is_space u (cursor + 1) (λ c k. unfold is_space in ground arith)
                (boundary_next_ascii cursor u here (unfold is_space in ground arith)) in
            (_, refl, record { past = omega (arith, run.0); boundary = run.1 }))
          λ f₁.
            if-both Good (b == b'/' && is_at text (cursor + 1) b'/')
              (λ t.
                let run =
                  skip_to_ascii not_newline u (cursor + 2) (λ c k. ground arith)
                    (ground (arith, is_at-boundary u (cursor + 1) b'/')) in
                (_, refl, record { past = omega (arith, run.0); boundary = run.1 }))
              λ f₂.
                if-both Good (b == b'/' && is_at text (cursor + 1) b'*')
                  (λ t. lex_block_comment-Returns u cursor (ground arith))
                  λ f₃.
                    if-both Good (b == b'"') (λ t. lex_string-Returns u cursor (ground arith))
                      λ f₄.
                        if-both Good
                          (b == b'l' && bytes_eq (slice text cursor (cursor + 4)) (codes "lua!"))
                          (λ t. lex_lua_or_word-Good (unfold is_name_start in ground arith))
                          λ f₅.
                            if-both Good (is_name_start b) (λ t. lex_word-Good t)
                              λ f₆.
                                if-both Good
                                  (is_ascii_digit b
                                    || (b == b'.' && sat_at text (cursor + 1) is_ascii_digit))
                                  (λ t. (_, refl, lex_number-EndsAfter u cursor (ground arith)))
                                  λ f₇. lex_punctuation-Good

-- At a character of the text the lexer's round returns, behind the cursor, at a boundary.
pub lex_one-Returns :
    {text : List ℕ} (u : IsUtf8 text) (cursor : ℕ)
    → is_char_boundary text cursor ≡ true
    → cursor < length text
    → Returns (lex_one text cursor) (λ l. EndsAfter text cursor l.end)
unfolding lex_one
lex_one-Returns {text} u cursor start lt =
    option-both (λ (r : Call Lexeme). Returns r (λ l. EndsAfter text cursor l.end))
      (get_elem? text cursor) (λ over. absurd (omega (arith, get_elem?-le text cursor over)))
      (λ b here. lex_byte-Good u cursor here start)

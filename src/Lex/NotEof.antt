-- ===== src/Lex/NotEof.antt =====
-- crates/rua-common/src/lex.rs: the kinds of the lexemes that the dispatch makes.
use Prim.Native.String.{String}
use mathlib.Core.Path.{subst}
use rua_lang.Base.{
  ℕ, ◌+◌, ◌≡◌, refl, Bool, true, false, ◌&&◌, ◌||◌, List, [], ◌∷◌, Option, none, some, Call, ok,
  panic, stuck, ◌>>=◌, ◌==◌, if-both, get_elem?, slice, not, loop, suc, length, Option-cases, inl,
  inr, codes, arith,
}
use rua_lang.Lex.Kind.{TokenKind, keyword_kind, keywords, find_keyword, bytes_eq}
use rua_lang.Lex.Bytes.{
  is_space, is_at, is_name_start, is_name_continue, is_ascii_digit, sat_at, char_width,
}
use rua_lang.Lex.Lua.{LuaEnd, lex_lua_block}
use rua_lang.Lex.Scan.{
  Lexeme, lex_block_comment, lex_string, lex_number, str_slice, skip_while, comment_step,
  string_step,
}
use rua_lang.Lex.Token.{
  lex_word, lex_lua_or_word, lex_arithmetic, lex_comparison, lex_separator, lex_bracket, or_else,
  lex_unknown, lex_punctuation, lex_byte, lex_one,
}

unfoldable pub is_eof : TokenKind → Bool
is_eof TokenKind.eof = true
is_eof _ = false

abbrev NotEof : Lexeme → Type 0
NotEof l = is_eof l.kind ≡ false

-- If a call returns, then what it returns has the property.
abbrev Yields {ℓ} : {A : Type ℓ} → (A → Type 0) → Call A → Type 0
Yields P (ok a) = P a
Yields P panic = Unit
Yields P stuck = Unit

abbrev Found : Option Lexeme → Type 0
Found none = Unit
Found (some l) = NotEof l

Yields-bind {ℓ κ} :
    {A : Type ℓ} {B : Type κ} (P : B → Type 0) (r : Call A) (f : A → Call B)
    → ((a : A) → Yields P (f a))
    → Yields P (r >>= f)
Yields-bind P (ok a) f h = h a
Yields-bind P panic f h = tt
Yields-bind P stuck f h = tt

abbrev no_eof : List (String × TokenKind) → Bool
no_eof [] = true
no_eof ((name, kind) ∷ arms) = not (is_eof kind) && no_eof arms

find_keyword-NotEof :
    (arms : List (String × TokenKind)) (word : List ℕ)
    → no_eof arms ≡ true
    → is_eof (find_keyword arms word) ≡ false
unfolding find_keyword
find_keyword-NotEof [] word h = unfold is_eof in refl
find_keyword-NotEof ((name, kind) ∷ arms) word h =
    if-both (λ k. is_eof k ≡ false) (bytes_eq word (codes name)) (λ t. ground arith)
      (λ f. find_keyword-NotEof arms word (ground arith))

keyword_kind-NotEof : (word : List ℕ) → is_eof (keyword_kind word) ≡ false
unfolding keyword_kind is_eof
keyword_kind-NotEof word = find_keyword-NotEof keywords word refl

lex_word-NotEof : (text : List ℕ) (cursor : ℕ) → Yields NotEof (lex_word text cursor)
unfolding lex_word
lex_word-NotEof text cursor =
    Yields-bind NotEof (str_slice text cursor (skip_while is_name_continue text (cursor + 1))) _
      (λ word. keyword_kind-NotEof word)

lex_lua_or_word-NotEof : (text : List ℕ) (cursor : ℕ) → Yields NotEof (lex_lua_or_word text cursor)
unfolding lex_lua_or_word is_eof
lex_lua_or_word-NotEof text cursor = Yields-bind NotEof (lex_lua_block text cursor) _ by_block
  where
    by_block :
        (block : Option LuaEnd)
        → Yields NotEof (elim block [
          | some (end, error) ↦ ok (record { kind = TokenKind.lua_block; end = end; error = error })
          | none ↦ lex_word text cursor
        ])
    by_block none = lex_word-NotEof text cursor
    by_block (some (end, error)) = refl

lex_block_comment-NotEof :
    (text : List ℕ) (cursor : ℕ) → Yields NotEof (lex_block_comment text cursor)
unfolding lex_block_comment is_eof
lex_block_comment-NotEof text cursor =
    Yields-bind NotEof (loop (suc (length text)) (comment_step text) (cursor + 2, 1)) _ (λ p. refl)

lex_string-NotEof : (text : List ℕ) (cursor : ℕ) → Yields NotEof (lex_string text cursor)
unfolding lex_string is_eof
lex_string-NotEof text cursor =
    Yields-bind NotEof (loop (suc (length text)) (string_step text) (cursor + 1)) _ (λ p. refl)

lex_number-NotEof : (text : List ℕ) (cursor : ℕ) → is_eof (lex_number text cursor).0 ≡ false
unfolding lex_number is_eof
lex_number-NotEof text cursor = ground arith

module _ (text : List ℕ) (cursor b : ℕ) where
  lex_arithmetic-NotEof : Found (lex_arithmetic text cursor b)
  unfolding lex_arithmetic is_eof
  lex_arithmetic-NotEof = ground arith

  lex_comparison-NotEof : Found (lex_comparison text cursor b)
  unfolding lex_comparison is_eof
  lex_comparison-NotEof = ground arith

  lex_separator-NotEof : Found (lex_separator text cursor b)
  unfolding lex_separator is_eof
  lex_separator-NotEof = ground arith

  lex_bracket-NotEof : Found (lex_bracket text cursor b)
  unfolding lex_bracket is_eof
  lex_bracket-NotEof = ground arith

  or_else-NotEof :
      (found : Option Lexeme) (rest : Call Lexeme)
      → Found found
      → Yields NotEof rest
      → Yields NotEof (or_else found rest)
  or_else-NotEof none rest h k = k
  or_else-NotEof (some l) rest h k = h

  lex_unknown-NotEof : Yields NotEof (lex_unknown text cursor)
  unfolding lex_unknown is_eof
  lex_unknown-NotEof = Yields-bind NotEof (char_width text cursor) _ (λ width. refl)

  lex_punctuation-NotEof : Yields NotEof (lex_punctuation text cursor b)
  unfolding lex_punctuation
  lex_punctuation-NotEof = or_else-NotEof _ _ lex_arithmetic-NotEof (
      or_else-NotEof _ _ lex_comparison-NotEof (
        or_else-NotEof _ _ lex_separator-NotEof
          (or_else-NotEof _ _ lex_bracket-NotEof lex_unknown-NotEof)))

  lex_byte-NotEof : Yields NotEof (lex_byte text cursor b)
  unfolding lex_byte is_eof
  lex_byte-NotEof =
      if-both P (is_space b) (λ _. refl)
        λ _.
          if-both P (b == b'/' && is_at text (cursor + 1) b'/') (λ _. refl)
            λ _.
              if-both P (b == b'/' && is_at text (cursor + 1) b'*')
                (λ _. lex_block_comment-NotEof text cursor)
                λ _.
                  if-both P (b == b'"') (λ _. lex_string-NotEof text cursor)
                    λ _.
                      if-both P
                        (b == b'l' && bytes_eq (slice text cursor (cursor + 4)) (codes "lua!"))
                        (λ _. lex_lua_or_word-NotEof text cursor)
                        λ _.
                          if-both P (is_name_start b) (λ _. lex_word-NotEof text cursor)
                            λ _.
                              if-both P
                                (is_ascii_digit b
                                  || (b == b'.' && sat_at text (cursor + 1) is_ascii_digit))
                                (λ _. lex_number-NotEof text cursor) (λ _. lex_punctuation-NotEof)
    where
      P : Call Lexeme → Type 0
      P = Yields NotEof

lex_one-NotEof : (text : List ℕ) (cursor : ℕ) → Yields NotEof (lex_one text cursor)
unfolding lex_one
lex_one-NotEof text cursor = elim (Option-cases (get_elem? text cursor)) [
  | inl e ↦ rw (lex_one, e) tt
  | inr (b, e) ↦ rw (lex_one, e) (lex_byte-NotEof text cursor b)
]

-- No lexeme has the kind of the end of the text.
pub lex_one-ne-eof :
    (text : List ℕ) (cursor : ℕ) (l : Lexeme) → lex_one text cursor ≡ ok l → is_eof l.kind ≡ false
lex_one-ne-eof text cursor l e = subst (Yields NotEof) e (lex_one-NotEof text cursor)

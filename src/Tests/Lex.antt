-- ===== src/Tests/Lex.antt =====
-- crates/rua-common/src/lex.rs, run on the inputs of its own tests, and the theorems at such inputs.
use rua_lang.Tests.Utf8.{is_utf8_after, is_utf8_after_sound}
use rua_lang.Base.{ℕ, ◌++◌, ◌≡◌, refl, ◌↔◌, List, ap, [], ◌∷◌, Call, ok, loop, codes, arith}
use rua_lang.Lex.Bytes.{
  is_name_start, is_name_continue, is_space, is_char_boundary, char_width, IsUtf8,
}
use rua_lang.Lex.Keywords.{keyword_kind_iff, is_keyword}
use rua_lang.Lex.Kind.{TokenKind, user_string, bytes_eq, keyword_kind, find_keyword}
use rua_lang.Lex.Lossless.{Lexed, lex-Lexed}
use rua_lang.Lex.Lua.{
  quoted_step, skip_lua_quoted, match_level, closes_at, bracket_step, skip_lua_long_bracket,
  lua_brace, lua_comment_or_brace, lua_step, lex_lua_block,
}
use rua_lang.Lex.Range
use rua_lang.Lex.Range.{u32_max}
use rua_lang.Lex.Scan.{
  skip_from, skip_while, str_slice, comment_step, lex_block_comment, string_byte, string_step,
  lex_string, fraction, exponent, lex_number,
}
use rua_lang.Lex.Stream.{LexToken, new_token, push_token, lex_step, lex_with_limit, lex}
use rua_lang.Lex.Token.{
  lex_word, lex_lua_or_word, lex_arithmetic, lex_comparison, lex_separator, lex_bracket,
  lex_unknown, lex_punctuation, lex_byte, lex_one,
}

-- The kinds and lengths of the tokens of a text.
summary : List LexToken → List (TokenKind × ℕ)
summary [] = []
summary (t ∷ ts) = (t.kind, Range.len t.range) ∷ summary ts

abbrev found : Call (List LexToken) → List LexToken
found (ok ts) = ts
found _ = []

unfoldable pub tokens_of : List ℕ → List LexToken
unfolding lex lex_with_limit loop lex_step push_token new_token Range.at Range.new lex_one lex_byte
    lex_word lex_lua_or_word lex_arithmetic lex_comparison lex_separator lex_bracket lex_unknown
    lex_punctuation lex_number fraction exponent lex_string string_step string_byte
    lex_block_comment comment_step str_slice skip_while skip_from lex_lua_block lua_step
    lua_comment_or_brace lua_brace skip_lua_long_bracket bracket_step closes_at match_level
    skip_lua_quoted quoted_step is_name_start is_name_continue is_space is_char_boundary char_width
    bytes_eq keyword_kind find_keyword
tokens_of text = found (lex text)

run : List ℕ → List (TokenKind × ℕ)
unfolding tokens_of summary
run text = summary (tokens_of text)

numbers :
    run (codes "0xff .5 1. 1e-2 1..2")
    ≡ (TokenKind.int, 4)
      ∷ (TokenKind.whitespace, 1)
      ∷ (TokenKind.float, 2)
      ∷ (TokenKind.whitespace, 1)
      ∷ (TokenKind.float, 2)
      ∷ (TokenKind.whitespace, 1)
      ∷ (TokenKind.float, 4)
      ∷ (TokenKind.whitespace, 1)
      ∷ (TokenKind.int, 1)
      ∷ (TokenKind.dot_dot, 2)
      ∷ (TokenKind.int, 1)
      ∷ []
unfolding run
numbers = refl

lua_block :
    run (codes "lua! { local t = [[ { ]]; -- }\n x = '}' } let")
    ≡ (TokenKind.lua_block, 41) ∷ (TokenKind.whitespace, 1) ∷ (TokenKind.kw_let, 3) ∷ []
unfolding run
lua_block = refl

nested_comment :
    run (codes "/* a /* b */ c */x") ≡ (TokenKind.block_comment, 17) ∷ (TokenKind.ident, 1) ∷ []
unfolding run
nested_comment = refl

-- "é" is two bytes
abbrev pub sample : List ℕ
sample = codes "\"" ++ 195 ∷ 169 ∷ codes "\" fn"

run-sample : run sample ≡ (TokenKind.str, 4) ∷ (TokenKind.whitespace, 1) ∷ (TokenKind.kw_fn, 2) ∷ []
unfolding run
run-sample = refl

pub sample-IsUtf8 : IsUtf8 sample
unfolding is_utf8_after
sample-IsUtf8 = is_utf8_after_sound 0 sample refl

-- the tokens that `lex` returns are those
pub tokens_of-lex : (ts : List LexToken) → lex sample ≡ ok ts → tokens_of sample ≡ ts
unfolding tokens_of
tokens_of-lex ts e = ap found e

lex-Lexed_example : Lexed sample
lex-Lexed_example = lex-Lexed sample sample-IsUtf8 (omega arith)

keyword_kind_iff_example :
    (keyword_kind (codes "while") ≡ TokenKind.kw_while)
    ↔ (codes "while" ≡ codes (user_string TokenKind.kw_while))
unfolding is_keyword
keyword_kind_iff_example = keyword_kind_iff TokenKind.kw_while (codes "while") refl

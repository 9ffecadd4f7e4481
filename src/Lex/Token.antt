-- ===== src/Lex/Token.antt =====
-- crates/rua-common/src/lex.rs: the dispatch of `lex_with_limit` on the byte at the cursor, in the
-- order of its match arms.
use rua_lang.Base.{
  ℕ, ◌+◌, ◌&&◌, ◌||◌, List, Option, none, some, Call, ok, panic, ◌>>=◌, ◌==◌, if◌then◌else◌,
  get_elem?, slice, codes,
}
use rua_lang.Lex.Kind.{TokenKind, LexErrorKind, bytes_eq, keyword_kind}
use rua_lang.Lex.Bytes.{
  is_ascii_digit, is_name_start, is_name_continue, is_space, is_at, sat_at, char_width,
}
use rua_lang.Lex.Scan.{
  Lexeme, skip_while, str_slice, not_newline, lex_block_comment, lex_string, lex_number,
}
use rua_lang.Lex.Lua.{lex_lua_block}

abbrev pub lexeme : TokenKind → ℕ → Lexeme
lexeme kind end = record { kind = kind; end = end; error = none }

abbrev pub simple : TokenKind → ℕ → ℕ → Lexeme
simple kind cursor len = lexeme kind (cursor + len)

unfoldable pub lex_word : List ℕ → ℕ → Call Lexeme
lex_word text cursor =
    let end = skip_while is_name_continue text (cursor + 1) in
    (str_slice text cursor end >>= λ word. ok (lexeme (keyword_kind word) end))

unfoldable pub lex_lua_or_word : List ℕ → ℕ → Call Lexeme
lex_lua_or_word text cursor = lex_lua_block text cursor >>= λ block. elim block [
  | some (end, error) ↦ ok (record { kind = TokenKind.lua_block; end = end; error = error })
  | none ↦ lex_word text cursor
]

-- a token of two bytes if `c` follows, else of one
abbrev pub one_or_two : List ℕ → ℕ → ℕ → TokenKind → TokenKind → Lexeme
one_or_two text cursor c two one =
    if is_at text (cursor + 1) c then simple two cursor 2 else simple one cursor 1

unfoldable pub lex_arithmetic : List ℕ → ℕ → ℕ → Option Lexeme
lex_arithmetic text cursor b =
    if b == b'+'
    then some (one_or_two text cursor b'=' TokenKind.plus_eq TokenKind.plus)
    else if b == b'-'
    then some (
        if is_at text (cursor + 1) b'>'
        then simple TokenKind.arrow cursor 2
        else one_or_two text cursor b'=' TokenKind.minus_eq TokenKind.minus)
    else if b == b'*'
    then some (one_or_two text cursor b'=' TokenKind.star_eq TokenKind.star)
    else if b == b'/'
    then some (one_or_two text cursor b'=' TokenKind.slash_eq TokenKind.slash)
    else if b == b'%'
    then some (one_or_two text cursor b'=' TokenKind.percent_eq TokenKind.percent)
    else none

unfoldable pub lex_comparison : List ℕ → ℕ → ℕ → Option Lexeme
lex_comparison text cursor b =
    if b == b'<'
    then some (one_or_two text cursor b'=' TokenKind.le TokenKind.lt)
    else if b == b'>'
    then some (one_or_two text cursor b'=' TokenKind.ge TokenKind.gt)
    else if b == b'='
    then some (
        if is_at text (cursor + 1) b'='
        then simple TokenKind.eq_eq cursor 2
        else one_or_two text cursor b'>' TokenKind.fat_arrow TokenKind.eq)
    else if b == b'!'
    then some (one_or_two text cursor b'=' TokenKind.ne TokenKind.bang)
    else if b == b'&'
    then some (one_or_two text cursor b'&' TokenKind.and_and TokenKind.amp)
    else if b == b'|'
    then some (one_or_two text cursor b'|' TokenKind.or_or TokenKind.pipe)
    else none

unfoldable pub lex_separator : List ℕ → ℕ → ℕ → Option Lexeme
lex_separator text cursor b =
    if b == b'.'
    then some (
        if is_at text (cursor + 1) b'.' && is_at text (cursor + 2) b'='
        then simple TokenKind.dot_dot_eq cursor 3
        else one_or_two text cursor b'.' TokenKind.dot_dot TokenKind.dot)
    else if b == b':'
    then some (one_or_two text cursor b':' TokenKind.colon_colon TokenKind.colon)
    else if b == b';'
    then some (simple TokenKind.semi cursor 1)
    else if b == b','
    then some (simple TokenKind.comma cursor 1)
    else if b == b'?'
    then some (
        if is_at text (cursor + 1) b'?'
        then simple TokenKind.question_question cursor 2
        else one_or_two text cursor b'.' TokenKind.question_dot TokenKind.question)
    else none

unfoldable pub lex_bracket : List ℕ → ℕ → ℕ → Option Lexeme
lex_bracket text cursor b =
    if b == b'#'
    then some (simple TokenKind.hash cursor 1)
    else if b == b'('
    then some (simple TokenKind.l_paren cursor 1)
    else if b == b')'
    then some (simple TokenKind.r_paren cursor 1)
    else if b == b'{'
    then some (simple TokenKind.l_brace cursor 1)
    else if b == b'}'
    then some (simple TokenKind.r_brace cursor 1)
    else if b == b'['
    then some (simple TokenKind.l_bracket cursor 1)
    else if b == b']'
    then some (simple TokenKind.r_bracket cursor 1)
    else none

abbrev pub or_else : Option Lexeme → Call Lexeme → Call Lexeme
or_else found rest = elim found [ some l ↦ ok l | none ↦ rest ]

unfoldable pub lex_unknown : List ℕ → ℕ → Call Lexeme
lex_unknown text cursor = char_width text cursor >>= λ width. ok (record {
  kind = TokenKind.unknown;
  end = cursor + width;
  error = some LexErrorKind.unknown_character;
})

unfoldable pub lex_punctuation : List ℕ → ℕ → ℕ → Call Lexeme
lex_punctuation text cursor b = or_else (lex_arithmetic text cursor b) (
    or_else (lex_comparison text cursor b) (
      or_else (lex_separator text cursor b)
        (or_else (lex_bracket text cursor b) (lex_unknown text cursor))))

unfoldable pub lex_byte : List ℕ → ℕ → ℕ → Call Lexeme
lex_byte text cursor b =
    if is_space b
    then ok (lexeme TokenKind.whitespace (skip_while is_space text (cursor + 1)))
    else if b == b'/' && is_at text (cursor + 1) b'/'
    then ok (lexeme TokenKind.line_comment (skip_while not_newline text (cursor + 2)))
    else if b == b'/' && is_at text (cursor + 1) b'*'
    then lex_block_comment text cursor
    else if b == b'"'
    then lex_string text cursor
    else if b == b'l' && bytes_eq (slice text cursor (cursor + 4)) (codes "lua!")
    then lex_lua_or_word text cursor
    else if is_name_start b
    then lex_word text cursor
    else if is_ascii_digit b || (b == b'.' && sat_at text (cursor + 1) is_ascii_digit)
    then (let (kind, end) = lex_number text cursor in ok (lexeme kind end))
    else lex_punctuation text cursor b

-- one round of `lex_with_limit`, without its bookkeeping
unfoldable pub lex_one : List ℕ → ℕ → Call Lexeme
lex_one text cursor = elim (get_elem? text cursor) [
  | none ↦ panic
  | some b ↦ lex_byte text cursor b
]

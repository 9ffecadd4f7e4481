-- ===== src/Tokenize.antt =====
-- crates/ruac/src/tokenize.rs: the compiler's strict tokens, read off the lossless lexer's.
pub mod Strict
pub mod Reads
pub mod Cover
use rua_lang.Base.{
  ℕ, suc, ◌+◌, ◌-◌, Bool, true, false, not, ◌&&◌, List, [], ◌∷◌, Option, none, some, Call, ok,
  ◌>>=◌, Next, go, stop, loop, Result, error, done, ◌==◌, if◌then◌else◌, length, get_elem?,
}
use rua_lang.Lex.Kind.{TokenKind, LexErrorKind, is_trivia}
use rua_lang.Lex.Range
use rua_lang.Lex.Scan.{str_slice}
use rua_lang.Lex.Stream.{LexToken, LexResult, tokens, limit, TokenLimitError, lex, lex_with_limit}
use rua_lang.Source
use rua_lang.Source.{SourceRange, TokenData}

pub record TokenizeError : Type 0 where
  pub kind : LexErrorKind
  pub range : SourceRange

pub record StrictTokenStream : Type 0 where
  pub text : List ℕ
  pub tokens : List LexToken

unfoldable pub new : List ℕ → ℕ → Call (Result TokenLimitError StrictTokenStream)
new text max_tokens = lex_with_limit text max_tokens >>= λ r. elim r [
  | tokens ts ↦ ok (done (record { text = text; tokens = ts }))
  | limit e ↦ ok (error e)
]

unfoldable pub unlimited : List ℕ → Call StrictTokenStream
unlimited text = lex text >>= λ ts. ok (record { text = text; tokens = ts })

pub record RuaTokenize : Type 0 where
  pub text : List ℕ
  pub tokens : List LexToken
  pub cursor : ℕ
  pub line : ℕ

unfoldable pub from_stream : StrictTokenStream → RuaTokenize
from_stream stream = record { text = stream.text; tokens = stream.tokens; cursor = 0; line = 1 }

-- the line breaks that the loop of `advance_lines` counts; a `\r\n` is one
unfoldable pub line_breaks : List ℕ → ℕ
line_breaks [] = 0
line_breaks (b ∷ []) = if b == b'\r' then 1 else if b == b'\n' then 1 else 0
line_breaks (b ∷ c ∷ rest) =
    let behind_both = suc (line_breaks rest) in
    let behind = line_breaks (c ∷ rest) in
    if b == b'\r'
    then (if c == b'\n' then behind_both else suc behind)
    else if b == b'\n'
    then suc behind
    else behind

unfoldable pub advance_lines : RuaTokenize → LexToken → Call RuaTokenize
advance_lines s token = str_slice s.text token.range.start token.range.end >>= λ bytes.
    ok (record s { line = s.line + line_breaks bytes })

unfoldable pub range_of : LexToken → ℕ → SourceRange
range_of token line = Source.new token.range.start (Range.len token.range) line

-- where the token at the cursor starts, or the text ends
unfoldable pub next_start : RuaTokenize → ℕ
next_start s = elim (get_elem? s.tokens s.cursor) [
  | none ↦ length s.text
  | some token ↦ token.range.start
]

-- one round of the loop of `skip_trivia`, at a token
unfoldable pub skip_token :
    RuaTokenize → LexToken → Call (Next RuaTokenize (RuaTokenize × Option TokenizeError))
skip_token s token =
    if not (is_trivia token.kind)
    then ok (stop (s, none))
    else (advance_lines (record s { cursor = s.cursor + 1 }) token >>= λ s'. elim token.error [
      | none ↦ ok (go s')
      | some e ↦ ok (stop (s', some (record { kind = e; range = range_of token s.line })))
    ])

unfoldable pub skip_step :
    RuaTokenize → Call (Next RuaTokenize (RuaTokenize × Option TokenizeError))
skip_step s = elim (get_elem? s.tokens s.cursor) [
  | none ↦ ok (stop (s, none))
  | some token ↦ skip_token s token
]

unfoldable pub skip_trivia : RuaTokenize → Call (RuaTokenize × Option TokenizeError)
skip_trivia s = loop (suc (length s.tokens)) skip_step s

unfoldable pub is_strict_error : LexErrorKind → Bool
is_strict_error LexErrorKind.unknown_character = false
is_strict_error _ = true

-- a token behind its trivia
unfoldable pub take_token :
    RuaTokenize → SourceRange → LexToken → Call (RuaTokenize × Result TokenizeError TokenData)
take_token s leading_trivia token =
    advance_lines (record s { cursor = s.cursor + 1 }) token >>= λ s'.
    let range = range_of token s.line in
    let data_of : TokenData = record {
      kind = token.kind;
      range = range;
      leading_trivia = leading_trivia;
    } in
    elim token.error [
      | none ↦ ok (s', done data_of)
      | some e ↦
          if is_strict_error e
          then ok (s', error (record { kind = e; range = range }))
          else ok (s', done data_of)
    ]

-- the end of the text behind its trivia
unfoldable pub eof_token : RuaTokenize → SourceRange → TokenData
eof_token s leading_trivia = record {
  kind = TokenKind.eof;
  range = Source.new (length s.text) 0 s.line;
  leading_trivia = leading_trivia;
}

-- `next_token` behind `skip_trivia`
unfoldable pub after_trivia :
    ℕ → ℕ → RuaTokenize × Option TokenizeError → Call (RuaTokenize × Result TokenizeError TokenData)
after_trivia trivia_start trivia_line (s, some e) = ok (s, error e)
after_trivia trivia_start trivia_line (s, none) =
    let leading_trivia = Source.new trivia_start (next_start s - trivia_start) trivia_line in
    elim (get_elem? s.tokens s.cursor) [
      | none ↦ ok (s, done (eof_token s leading_trivia))
      | some token ↦ take_token s leading_trivia token
    ]

unfoldable pub next_token : RuaTokenize → Call (RuaTokenize × Result TokenizeError TokenData)
next_token s = skip_trivia s >>= after_trivia (next_start s) s.line

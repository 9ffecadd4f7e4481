-- ===== src/Cursor.antt =====
-- crates/ruac/src/lexer.rs: the parser's token cursor, with one token of lookahead.
pub mod Walk
use rua_lang.Base.{
  ℕ, not, Bool, List, Option, none, some, Call, ok, ◌>>=◌, Result, error, done, if◌then◌else◌,
}
use rua_lang.Lex.Kind.{TokenKind}
use rua_lang.Lex.NotEof.{is_eof}
use rua_lang.Lex.Scan.{str_slice}
use rua_lang.Source
use rua_lang.Source.{SourceRange, TokenData}
use rua_lang.Tokenize.{RuaTokenize, StrictTokenStream, TokenizeError, next_token, unlimited}
use rua_lang.Tokenize as Tokenize

pub record RuaLexer : Type 0 where
  pub text : List ℕ
  pub tokenizer : RuaTokenize
  pub current_token : TokenData
  pub next_data : TokenData
  pub previous : Option SourceRange

-- the second token of a cursor, behind the first
unfoldable pub second_token :
    List ℕ
    → TokenData
    → RuaTokenize × Result TokenizeError TokenData
    → Result TokenizeError RuaLexer
second_token text current (tokenizer, error e) = error e
second_token text current (tokenizer, done next) = done (record {
  text = text;
  tokenizer = tokenizer;
  current_token = current;
  next_data = next;
  previous = none;
})

unfoldable pub first_token :
    List ℕ → RuaTokenize × Result TokenizeError TokenData → Call (Result TokenizeError RuaLexer)
first_token text (tokenizer, error e) = ok (error e)
first_token text (tokenizer, done current) =
    next_token tokenizer >>= λ r. ok (second_token text current r)

unfoldable pub from_stream : StrictTokenStream → Call (Result TokenizeError RuaLexer)
from_stream stream = next_token (Tokenize.from_stream stream) >>= first_token stream.text

unfoldable pub new : List ℕ → Call (Result TokenizeError RuaLexer)
new text = unlimited text >>= from_stream

unfoldable pub current : RuaLexer → TokenKind
current l = l.current_token.kind

unfoldable pub current_range : RuaLexer → SourceRange
current_range l = l.current_token.range

unfoldable pub current_line : RuaLexer → ℕ
current_line l = l.current_token.range.line

unfoldable pub previous_range : RuaLexer → SourceRange
previous_range l = elim l.previous [ none ↦ Source.empty | some range ↦ range ]

unfoldable pub peek_next : RuaLexer → TokenKind
peek_next l = l.next_data.kind

abbrev pub text_of : List ℕ → SourceRange → Call (List ℕ)
text_of text range = str_slice text range.start (Source.end range)

unfoldable pub current_text : RuaLexer → Call (List ℕ)
current_text l = text_of l.text l.current_token.range

unfoldable pub current_leading_trivia : RuaLexer → Call (List ℕ)
current_leading_trivia l = text_of l.text l.current_token.leading_trivia

-- the token read by `bump`; after an error the token is the one from before
unfoldable pub refill :
    RuaLexer → RuaTokenize × Result TokenizeError TokenData → RuaLexer × Option TokenizeError
refill l (tokenizer, error e) = (record l { tokenizer = tokenizer }, some e)
refill l (tokenizer, done token) = (record l { tokenizer = tokenizer; next_data = token }, none)

unfoldable pub bump : RuaLexer → Call (RuaLexer × Option TokenizeError)
bump l =
    let l' = record l { previous = some l.current_token.range; current_token = l.next_data } in
    if not (is_eof l'.current_token.kind)
    then (next_token l'.tokenizer >>= λ r. ok (refill l' r))
    else ok (l', none)

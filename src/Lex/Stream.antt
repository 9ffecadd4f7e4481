-- ===== src/Lex/Stream.antt =====
-- crates/rua-common/src/lex.rs: `LexToken`, `lex_with_limit` and `lex`.
use rua_lang.Base.{
  ℕ, suc, ◌-◌, ◌^◌, ◌&&◌, List, [], ◌∷◌, ◌++◌, Option, Call, ok, panic, ◌>>=◌, Next, go, stop, loop,
  ◌==◌, leb, if◌then◌else◌, length,
}
use rua_lang.Lex.Kind.{TokenKind, LexErrorKind}
use rua_lang.Lex.Range
use rua_lang.Lex.Range.{TextRange, u32_max, as_u32}
use rua_lang.Lex.Scan.{Lexeme}
use rua_lang.Lex.Token.{lex_one}

pub record LexToken : Type 0 where
  pub kind : TokenKind
  pub range : TextRange
  pub error : Option LexErrorKind

pub record TokenLimitError : Type 0 where
  pub range : TextRange

-- `Result<Vec<LexToken>, TokenLimitError>`
pub data LexResult : Type 0 where
  tokens : List LexToken → LexResult
  limit : TokenLimitError → LexResult

unfoldable pub new_token : TokenKind → ℕ → ℕ → Option LexErrorKind → Call LexToken
new_token kind start len error =
    if leb start u32_max && leb len u32_max
    then (Range.at (as_u32 start) (as_u32 len) >>= λ range.
        ok (record { kind = kind; range = range; error = error }))
    else panic

-- one round of the loop, on `cursor` and the tokens pushed so far
unfoldable pub push_token :
    List ℕ → ℕ → ℕ × List LexToken → Lexeme → Call (Next (ℕ × List LexToken) LexResult)
push_token text max_tokens (start, pushed) l =
    if length pushed == max_tokens
    then (Range.at (as_u32 start) (as_u32 (l.end - start)) >>= λ range.
        ok (stop (limit (record { range = range }))))
    else (new_token l.kind start (l.end - start) l.error >>= λ token.
        ok (go (l.end, pushed ++ token ∷ [])))

unfoldable pub lex_step : List ℕ → ℕ → ℕ × List LexToken → Call (Next (ℕ × List LexToken) LexResult)
lex_step text max_tokens (cursor, pushed) =
    if leb (length text) cursor
    then ok (stop (tokens pushed))
    else (lex_one text cursor >>= λ l. push_token text max_tokens (cursor, pushed) l)

unfoldable pub lex_with_limit : List ℕ → ℕ → Call LexResult
lex_with_limit text max_tokens = loop (suc (length text)) (lex_step text max_tokens) (0, [])

abbrev pub usize_max : ℕ
usize_max = 2 ^ 64 - 1

-- `lex_with_limit` without a limit; its `expect` panics on a limit error.
unfoldable pub lex : List ℕ → Call (List LexToken)
lex text = lex_with_limit text usize_max >>= λ r. elim r [ tokens ts ↦ ok ts | limit e ↦ panic ]

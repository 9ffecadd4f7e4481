-- ===== src/Tests/Tokenize.antt =====
-- crates/ruac/src/tokenize.rs, run on a small text, and the theorem there.
use rua_lang.Tests.Lex.{sample, sample-IsUtf8, tokens_of}
use rua_lang.Base.{ℕ, ◌≡◌, refl, List, [], ◌∷◌, done, arith, codes}
use rua_lang.Lex.Kind.{TokenKind, is_trivia}
use rua_lang.Source
use rua_lang.Source.{SourceRange, TokenData}
use rua_lang.Tokenize.{line_breaks, range_of, is_strict_error}
use rua_lang.Tokenize.Cover.{Tokenized, next_token-Tokenized}
use rua_lang.Tokenize.Strict.{Stream, strict, fate}

unfoldable pub strict_tokens : List ℕ → Stream
unfolding strict fate is_trivia line_breaks range_of is_strict_error tokens_of
strict_tokens text = strict text 0 1 1 (tokens_of text)

-- kinds and lines
summary : List TokenData → List (TokenKind × ℕ)
summary [] = []
summary (t ∷ ts) = (t.kind, t.range.line) ∷ summary ts

lines :
    summary (strict_tokens (codes "fn\n// a\r\nb\n\n;")).front
    ≡ (TokenKind.kw_fn, 1) ∷ (TokenKind.ident, 3) ∷ (TokenKind.semi, 5) ∷ []
unfolding strict_tokens summary Source.new
lines = refl

abbrev pub sample_eof : TokenData
sample_eof = record {
  kind = TokenKind.eof;
  range = Source.new 7 0 1;
  leading_trivia = Source.new 7 0 1;
}

pub strict_tokens-last : (strict_tokens sample).last ≡ done sample_eof
unfolding strict_tokens Source.new is_trivia
strict_tokens-last = refl

next_token-Tokenized_example : Tokenized sample
next_token-Tokenized_example = next_token-Tokenized sample sample-IsUtf8 (omega arith)

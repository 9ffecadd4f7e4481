-- ===== src/Source.antt =====
-- crates/ruac/src/token.rs: `SourceRange`, a span with its line and file, and `TokenData`.
use rua_lang.Base.{ℕ, ◌+◌}
use rua_lang.Lex.Kind.{TokenKind}

pub record SourceRange : Type 0 where
  pub start : ℕ
  pub len : ℕ
  pub line : ℕ
  pub file : ℕ

unfoldable pub new : ℕ → ℕ → ℕ → SourceRange
new start len line = record { start = start; len = len; line = line; file = 0 }

unfoldable pub end : SourceRange → ℕ
end r = r.start + r.len

abbrev pub empty : SourceRange
empty = record { start = 0; len = 0; line = 0; file = 0 }

pub record TokenData : Type 0 where
  pub kind : TokenKind
  pub range : SourceRange
  pub leading_trivia : SourceRange

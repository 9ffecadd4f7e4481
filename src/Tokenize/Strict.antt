-- ===== src/Tokenize/Strict.antt =====
-- crates/ruac/src/tokenize.rs: the strict tokens of a list of lossless ones, without a cursor.
use rua_lang.Base.{
  ℕ, ◌+◌, ◌-◌, List, [], ◌∷◌, Option, none, some, Result, error, done, if◌then◌else◌, length, slice,
}
use rua_lang.Lex.Kind.{TokenKind, LexErrorKind, is_trivia}
use rua_lang.Lex.Stream.{LexToken}
use rua_lang.Source
use rua_lang.Source.{TokenData}
use rua_lang.Tokenize.{TokenizeError, line_breaks, range_of}

-- the tokens up to the first error, and that error, or the token at the end of the text
pub record Stream : Type 0 where
  pub front : List TokenData
  pub last : Result TokenizeError TokenData

abbrev pub breaks_of : List ℕ → LexToken → ℕ
breaks_of text token = line_breaks (slice text token.range.start token.range.end)

-- what becomes of a token: trivia are skipped, and an error but an unknown character ends the stream
pub data Fate : Type 0 where
  skipped kept : Fate
  refused : LexErrorKind → Fate

abbrev pub fate_of_error : Fate → Option LexErrorKind → Fate
fate_of_error otherwise none = otherwise
fate_of_error kept (some LexErrorKind.unknown_character) = kept
fate_of_error otherwise (some e) = refused e

unfoldable pub fate : LexToken → Fate
fate t = fate_of_error (if is_trivia t.kind then skipped else kept) t.error

abbrev pub data_of : ℕ → ℕ → ℕ → LexToken → TokenData
data_of start start_line line t = record {
  kind = t.kind;
  range = range_of t line;
  leading_trivia = Source.new start (t.range.start - start) start_line;
}

-- The trivia since the last token began at `start`, on line `start_line`; `line` is the line reached.
unfoldable pub strict : List ℕ → ℕ → ℕ → ℕ → List LexToken → Stream
strict text start start_line line [] = record {
  front = [];
  last = done (record {
    kind = TokenKind.eof;
    range = Source.new (length text) 0 line;
    leading_trivia = Source.new start (length text - start) start_line;
  });
}
strict text start start_line line (t ∷ ts) =
    let line' = line + breaks_of text t in
    elim (fate t) [
      | skipped ↦ strict text start start_line line' ts
      | kept ↦
          let behind = strict text t.range.end line' line' ts in
          record { front = data_of start start_line line t ∷ behind.front; last = behind.last }
      | refused e ↦ record {
        front = [];
        last = error (record { kind = e; range = range_of t line });
      }
    ]

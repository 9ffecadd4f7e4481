-- ===== src/LineIndex.antt =====
-- crates/rua-ide/src/syntax/line_index.rs: byte offsets and UTF-16 positions. A text is the list of
-- its bytes; the characters of a slice are given by their lead bytes.
pub mod Line
pub mod Chars
pub mod Row
pub mod Content
pub mod RoundTrip
pub mod Ascii
pub mod Position
use rua_lang.Base.{
  ℕ, zero, suc, ◌+◌, ◌-◌, min, Bool, true, false, not, ◌&&◌, List, [], ◌∷◌, Option, none, some,
  Call, ok, panic, ◌>>=◌, ◌==◌, ltb, leb, if◌then◌else◌, length, get_elem?,
}
use rua_lang.Lex.Bytes.{is_continuation, is_at, len_utf8}
use rua_lang.Lex.Scan.{str_slice}
use rua_lang.Newlines.{starts_after, partition_point}

pub record LineIndex : Type 0 where
  pub line_starts : List ℕ
  pub line_ascii : List Bool
  pub len : ℕ

-- the flags that the loop of `LineIndex::new` pushes, from the flag of the line so far
unfoldable pub ascii_flags : List ℕ → Bool → List Bool
ascii_flags [] ascii = ascii ∷ []
ascii_flags (b ∷ bytes) ascii =
    let ascii' = ascii && ltb b 128 in
    let rest = ascii_flags bytes (if b == b'\n' then true else ascii') in
    if b == b'\n' then ascii' ∷ rest else rest

unfoldable pub new : List ℕ → LineIndex
new text = record {
  line_starts = 0 ∷ starts_after 0 text;
  line_ascii = ascii_flags text true;
  len = length text;
}

unfoldable pub line_count : LineIndex → ℕ
line_count index = length index.line_starts

-- `binary_search` finds the offset, or the place where it would stand: behind the smaller ones. In
-- the second case the source subtracts one.
unfoldable pub line : LineIndex → ℕ → Call ℕ
line index offset =
    let next = partition_point (λ start. ltb start offset) index.line_starts in
    if is_at index.line_starts next offset
    then ok next
    else if next == 0
    then panic
    else ok (next - 1)

unfoldable pub line_start : LineIndex → ℕ → Option ℕ
line_start index row = get_elem? index.line_starts row

-- `vec[i]`
abbrev pub at_index : List ℕ → ℕ → Call ℕ
at_index xs i = elim (get_elem? xs i) [ none ↦ panic | some x ↦ ok x ]

-- `self.line_ascii.get(line).copied().unwrap_or(false)`
abbrev pub flag_at : List Bool → ℕ → Bool
flag_at flags row = elim (get_elem? flags row) [ none ↦ false | some flag ↦ flag ]

-- the characters of a `str`, by their lead bytes
unfoldable pub chars : List ℕ → List ℕ
chars [] = []
chars (b ∷ bytes) = if is_continuation b then chars bytes else b ∷ chars bytes

-- `char::len_utf16`
abbrev pub len_utf16 : ℕ → ℕ
len_utf16 lead = if ltb lead 240 then 1 else 2

unfoldable pub sum_utf16 : List ℕ → ℕ
sum_utf16 [] = 0
sum_utf16 (c ∷ cs) = len_utf16 c + sum_utf16 cs

unfoldable pub line_col : LineIndex → ℕ → List ℕ → Call (ℕ × ℕ)
line_col index offset' text = do
  let offset = min offset' index.len
  row ← line index offset
  start ← at_index index.line_starts row
  if flag_at index.line_ascii row
      then (if leb start offset then ok (row, offset - start) else panic)
      else (str_slice text start offset >>= λ slice. ok (row, sum_utf16 (chars slice)))

-- the loop of `offset` over the characters, on `remaining` and `byte`
unfoldable pub walk : List ℕ → ℕ → ℕ → ℕ
walk [] remaining byte = byte
walk (c ∷ cs) remaining byte =
    let rest = walk cs (remaining - len_utf16 c) (byte + len_utf8 c) in
    if ltb remaining (len_utf16 c) then byte else rest

-- where the next line starts, or the text ends
abbrev pub end_of : LineIndex → ℕ → ℕ
end_of index row = elim (get_elem? index.line_starts (row + 1)) [ none ↦ index.len | some e ↦ e ]

-- `e > start && bytes[e - 1] == c`, which panics behind the text
unfoldable pub ends_in : List ℕ → ℕ → ℕ → ℕ → Call Bool
ends_in bytes start e c =
    if ltb start e then (at_index bytes (e - 1) >>= λ b. ok (b == c)) else ok false

unfoldable pub line_content_end : LineIndex → ℕ → List ℕ → Call ℕ
line_content_end index row text = do
  let e = end_of index row
  start ← at_index index.line_starts row
  line_feed ← ends_in text start e b'\n'
  carriage_return ← if line_feed then ends_in text start (e - 1) b'\r' else ok false
  ok (if line_feed then (if carriage_return then e - 1 - 1 else e - 1) else e)

unfoldable pub offset : LineIndex → ℕ → ℕ → List ℕ → Call ℕ
offset index row utf16_col text = elim (get_elem? index.line_starts row) [
  | none ↦ ok index.len
  | some start ↦ line_content_end index row text >>= λ content_end.
      if flag_at index.line_ascii row
      then ok (min (start + utf16_col) content_end)
      else (str_slice text start content_end >>= λ slice.
          ok (min (walk (chars slice) utf16_col start) content_end))
]

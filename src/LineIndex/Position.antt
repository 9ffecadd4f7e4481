-- ===== src/LineIndex/Position.antt =====
-- crates/rua-ide/src/syntax/line_index.rs: `line_col` against a count from the start of the text.
use mathlib.Core.Bool.{false≢true}
use rua_lang.Base.{
  ℕ, zero, suc, ◌+◌, ◌-◌, min, ◌≤◌, ◌<◌, ◌≡◌, refl, sym, ◌∙◌, ap, inl, inr, true, false, List, [],
  ◌∷◌, ◌++◌, some, ok, ◌==◌, if◌then◌else◌, Bool-cases, length, get_elem?, take, drop, length-take,
  length-drop, slice, arith,
}
use rua_lang.Lex.Bytes.{is_at, is_continuation, is_char_boundary, IsUtf8, boundary-le}
use rua_lang.LineIndex.{LineIndex, new, line, line_col, flag_at, chars, len_utf16, sum_utf16}
use rua_lang.LineIndex.Ascii.{flag-IsAscii, sum_utf16-ascii}
use rua_lang.LineIndex.Chars.{take-split}
use rua_lang.LineIndex.Line.{line-new}
use rua_lang.LineIndex.Row.{
  Starts, byte-is_at, row-Starts, no_break, starts, starts_after-at, at_index-ok,
}
use rua_lang.LineIndex.RoundTrip.{str_slice-ok}
use rua_lang.Newlines.{newlines}
use rua_lang.Newlines.Count.{newlines-take_mono}

-- The position behind some bytes, counted byte by byte: a break begins a row, and any other byte
-- that begins a character adds the width of that.
unfoldable pub count : List ℕ → ℕ → ℕ → ℕ × ℕ
count [] row col = (row, col)
count (b ∷ bytes) row col =
    if b == b'\n'
    then count bytes (row + 1) 0
    else count bytes row (if is_continuation b then col else col + len_utf16 b)

count-newline :
    (b : ℕ) (bytes : List ℕ) (row col : ℕ)
    → (b == b'\n') ≡ true
    → count (b ∷ bytes) row col ≡ count bytes (row + 1) 0
unfolding count
count-newline b bytes row col t = rw t refl

count-other :
    (b : ℕ) (bytes : List ℕ) (row col : ℕ)
    → (b == b'\n') ≡ false
    → count (b ∷ bytes) row col
      ≡ count bytes row (if is_continuation b then col else col + len_utf16 b)
unfolding count
count-other b bytes row col f = rw f refl

count-append :
    (xs ys : List ℕ) (row col row' col' : ℕ)
    → count xs row col ≡ (row', col')
    → count (xs ++ ys) row col ≡ count ys row' col'
unfolding count
count-append [] ys row col row' col' e = ap (λ p. count ys p.0 p.1) e
count-append (b ∷ xs) ys row col row' col' e = elim (Bool-cases (b == b'\n')) [
  | inl t ↦ rw t (count-append xs ys (row + 1) 0 row' col' (sym (count-newline b xs row col t) ∙ e))
  | inr f ↦ rw f (
      count-append xs ys row (if is_continuation b then col else col + len_utf16 b) row' col'
        (sym (count-other b xs row col f) ∙ e))
]

-- without a break, the columns add up
count-columns :
    (bytes : List ℕ) (row col : ℕ)
    → ((j : ℕ) → is_at bytes j b'\n' ≡ false)
    → count bytes row col ≡ (row, col + sum_utf16 (chars bytes))
unfolding count sum_utf16 chars
count-columns [] row col h = ap (λ c. (row, c)) (omega arith)
count-columns (b ∷ bytes) row col h = elim (Bool-cases (is_continuation b)) [
  | inl t ↦ rw (h 0, t) (count-columns bytes row col (λ j. h (suc j)))
  | inr f ↦
      rw (h 0, f)
        (count-columns bytes row (col + len_utf16 b) (λ j. h (suc j))
          ∙ ap (λ c. (row, c)) (omega arith))
]

-- behind a break the column is 0
count-break :
    (j : ℕ) (bytes : List ℕ) (row col : ℕ)
    → is_at bytes j b'\n' ≡ true
    → count (take (suc j) bytes) row col ≡ (row + newlines (take (suc j) bytes), 0)
unfolding count newlines
count-break j [] row col t = absurd (ground arith)
count-break zero (b ∷ bytes) row col t = rw t refl
count-break (suc j) (b ∷ bytes) row col t = elim (Bool-cases (b == b'\n')) [
  | inl y ↦ rw y (count-break j bytes (row + 1) 0 t ∙ ap (λ r. (r, 0)) (omega arith))
  | inr n ↦ rw n (count-break j bytes row _ t ∙ ap (λ r. (r, 0)) (omega arith))
]

count-start :
    (text : List ℕ) (row start : ℕ)
    → get_elem? (starts text) row ≡ some start
    → count (take start text) 0 0 ≡ (newlines (take start text), 0)
unfolding count newlines
count-start text zero start e =
    ap (λ s. count (take s text) 0 0) (sym zero_start)
    ∙ ap (λ s. (newlines (take s text), 0)) zero_start
  where
    zero_start : 0 ≡ start
    zero_start = ground arith
count-start text (suc row) start e =
    let (j, p, q, r) = starts_after-at 0 row start text e in
    let s : suc j ≡ start = omega (arith, p) in
    ap (λ s. count (take s text) 0 0) (sym s)
    ∙ count-break j text 0 0 q
    ∙ ap (λ k. (k, 0)) (omega arith)
    ∙ ap (λ s. (newlines (take s text), 0)) s

get_elem?-take :
    (xs : List ℕ) (n j b : ℕ)
    → get_elem? (take n xs) j ≡ some b
    → (get_elem? xs j ≡ some b) × (j < n)
get_elem?-take xs zero j b e = cc
get_elem?-take [] (suc n) j b e = cc
get_elem?-take (x ∷ xs) (suc n) zero b e = (e, omega arith)
get_elem?-take (x ∷ xs) (suc n) (suc j) b e =
    let (f, h) = get_elem?-take xs n j b e in (f, omega (arith, h))

get_elem?-drop : (xs : List ℕ) (s j k : ℕ) → k ≡ s + j → get_elem? (drop s xs) j ≡ get_elem? xs k
get_elem?-drop xs zero j k e = ap (get_elem? xs) (omega arith)
get_elem?-drop [] (suc s) j k e = refl
get_elem?-drop (x ∷ xs) (suc s) j zero e = absurd (omega arith)
get_elem?-drop (x ∷ xs) (suc s) j (suc k) e = get_elem?-drop xs s j k (omega arith)

get_elem?-slice :
    (text : List ℕ) (lo hi j b : ℕ)
    → get_elem? (slice text lo hi) j ≡ some b
    → (get_elem? text (lo + j) ≡ some b) × (lo + j < hi)
get_elem?-slice text lo hi j b e =
    let (f, h) = get_elem?-take (drop lo text) (hi - lo) j b e in
    (sym (get_elem?-drop text lo j (lo + j) refl) ∙ f, omega (arith, h))

length-slice : (text : List ℕ) (lo hi : ℕ) → hi ≤ length text → length (slice text lo hi) ≡ hi - lo
length-slice text lo hi h =
    length-take (drop lo text) (hi - lo) (omega (arith, length-drop text lo))

is_at-byte : (text : List ℕ) (j c : ℕ) → get_elem? text j ≡ some c → is_at text j c ≡ true
is_at-byte text j c e = ground arith

-- what lies between the start of an offset's row and the offset
module _ (text : List ℕ) (off start : ℕ)
    (at_start : get_elem? (starts text) (newlines (take off text)) ≡ some start)
    (s : Starts text (newlines (take off text)) start) (le : start ≤ off) where
  count-off :
      count (take off text) 0 0
      ≡ (newlines (take off text), sum_utf16 (chars (slice text start off)))
  count-off =
      ap (λ bytes. count bytes 0 0) (take-split text start (off - start) off (omega arith))
      ∙ count-append (take start text) (slice text start off) 0 0 (newlines (take off text)) 0
          (count-start text (newlines (take off text)) start at_start ∙ ap (λ r. (r, 0)) s.count)
      ∙ count-columns (slice text start off) (newlines (take off text)) 0 unbroken
      ∙ ap (λ c. (newlines (take off text), c)) (omega arith)
    where
      unbroken : (j : ℕ) → is_at (slice text start off) j b'\n' ≡ false
      unbroken j = elim (Bool-cases (is_at (slice text start off) j b'\n')) [
        | inr f ↦ f
        | inl t ↦
            let (e, h) =
              get_elem?-slice text start off j b'\n'
                (byte-is_at (slice text start off) j b'\n' t) in
            absurd (
              false≢true (
                sym (no_break text start off (start + j) s.count (omega arith) h)
                ∙ is_at-byte text (start + j) b'\n' e))
      ]

  columns-ascii :
      off ≤ length text
      → flag_at (new text).line_ascii (newlines (take off text)) ≡ true
      → sum_utf16 (chars (slice text start off)) ≡ off - start
  columns-ascii h f =
      sum_utf16-ascii (slice text start off) (λ j byte e.
        let (e', k) = get_elem?-slice text start off j byte e in
        flag-IsAscii text true (newlines (take off text)) (start + j) byte (unfold new in f) e' (
          omega (
            arith,
            newlines-take_mono text start (start + j) (omega arith),
            newlines-take_mono text (start + j) off (omega (arith, k)),
            s.count,
          )))
      ∙ length-slice text start off h

line_col-row :
    (index : LineIndex) (text : List ℕ) (off row start col : ℕ)
    → off ≤ index.len
    → line index off ≡ ok row
    → get_elem? index.line_starts row ≡ some start
    → start ≤ off
    → is_char_boundary text start ≡ true
    → is_char_boundary text off ≡ true
    → sum_utf16 (chars (slice text start off)) ≡ col
    → (flag_at index.line_ascii row ≡ true → col ≡ off - start)
    → line_col index off text ≡ ok (row, col)
unfolding line_col
line_col-row index text off row start col h at_row at_start le cs co wide ascii =
    let clamp : min off index.len ≡ off = omega arith in
    let here = at_index-ok index.line_starts row at_start in
    elim (Bool-cases (flag_at index.line_ascii row)) [
      | inl t ↦ rw (clamp, at_row, here, t, ascii t) (ground arith)
      | inr f ↦ rw (clamp, at_row, here, f, str_slice-ok text start off cs co le, wide) refl
    ]

-- For every UTF-8 text and every character boundary in it, `line_col` returns the position that
-- counting byte by byte from the start of the text gives, on ASCII lines too.
pub line_col-count :
    (text : List ℕ) (off : ℕ)
    → IsUtf8 text
    → is_char_boundary text off ≡ true
    → line_col (new text) off text ≡ ok (count (take off text) 0 0)
line_col-count text off u c =
    let (start, e, s, le) = row-Starts text off in
    let h = boundary-le text off c in
    line_col-row (new text) text off (newlines (take off text)) start
      (sum_utf16 (chars (slice text start off))) (unfold new in h) (line-new text off)
      (unfold new in e) le (s.boundary u) c refl (λ t. columns-ascii text off start e s le h t)
    ∙ ap ok (sym (count-off text off start e s le))

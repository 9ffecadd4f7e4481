-- ===== src/LineIndex/RoundTrip.antt =====
-- crates/rua-ide/src/syntax/line_index.rs: `line_col`, then `offset`.
use std.Path.{ap}
use rua_lang.Base.{
  ℕ, ◌-◌, min, ◌≤◌, ◌≡◌, refl, ◌∙◌, inl, inr, true, false, List, some, ok, Returns, Bool-cases,
  get_elem?, slice, take, arith,
}
use rua_lang.Lex.Bytes.{is_char_boundary, IsUtf8, boundary-le}
use rua_lang.Lex.Scan.{str_slice}
use rua_lang.LineIndex.{
  LineIndex, new, line, line_col, line_content_end, offset, flag_at, chars, sum_utf16, walk,
}
use rua_lang.LineIndex.Chars.{sum_utf8-slice, walk-append, chars-slice}
use rua_lang.LineIndex.Line.{line-new}
use rua_lang.LineIndex.Content.{in_break, line_content_end-Content}
use rua_lang.LineIndex.Row.{row-Starts, at_index-ok}
use rua_lang.Newlines.{newlines}

pub str_slice-ok :
    (text : List ℕ) (lo hi : ℕ)
    → is_char_boundary text lo ≡ true
    → is_char_boundary text hi ≡ true
    → lo ≤ hi
    → str_slice text lo hi ≡ ok (slice text lo hi)
unfolding str_slice
str_slice-ok text lo hi cl ch le = rw (cl, ch) (ground arith)

-- The walk of a line's characters up to `hi`, by the columns of those up to `mid`, ends at `mid`.
walk-slice :
    (text : List ℕ) (lo mid hi : ℕ)
    → IsUtf8 text
    → is_char_boundary text lo ≡ true
    → is_char_boundary text mid ≡ true
    → lo ≤ mid
    → mid ≤ hi
    → walk (chars (slice text lo hi)) (sum_utf16 (chars (slice text lo mid))) lo ≡ mid
walk-slice text lo mid hi u cl cm h k =
    ap (λ cs. walk cs (sum_utf16 (chars (slice text lo mid))) lo) (chars-slice text lo mid hi h k)
    ∙ walk-append (chars (slice text lo mid)) (chars (slice text mid hi)) lo
    ∙ omega (arith, sum_utf8-slice text lo mid u cl cm h (boundary-le text lo cl))

-- One row of an index: what `line_col` and `offset` answer there.
module _ (index : LineIndex) (text : List ℕ) (row start off end : ℕ) (u : IsUtf8 text)
    (at_row : line index off ≡ ok row) (at_start : get_elem? index.line_starts row ≡ some start)
    (at_end : line_content_end index row text ≡ ok end) (in_text : off ≤ index.len)
    (behind : start ≤ off) (before : off ≤ end)
    (start_boundary : is_char_boundary text start ≡ true)
    (off_boundary : is_char_boundary text off ≡ true)
    (end_boundary : is_char_boundary text end ≡ true) where
  clamp : min off index.len ≡ off
  clamp = omega arith

  ascii_row :
      flag_at index.line_ascii row ≡ true
      → Returns (line_col index off text) (λ p. offset index p.0 p.1 text ≡ ok off)
  unfolding line_col offset
  ascii_row f = (
    (row, off - start),
    rw (clamp, at_row, at_index-ok index.line_starts row at_start, f) (ground arith),
    rw (offset, at_start, at_end, f) (ap ok (omega arith)),
  )

  wide_row :
      flag_at index.line_ascii row ≡ false
      → Returns (line_col index off text) (λ p. offset index p.0 p.1 text ≡ ok off)
  unfolding line_col offset
  wide_row f = (
    (row, sum_utf16 (chars (slice text start off))),
    rw
        (
          clamp,
          at_row,
          at_index-ok index.line_starts row at_start,
          f,
          str_slice-ok text start off start_boundary off_boundary behind,
        )
        refl,
    rw
        (
          offset,
          at_start,
          at_end,
          f,
          str_slice-ok text start end start_boundary end_boundary (omega arith),
          walk-slice text start off end u start_boundary off_boundary behind before,
        )
        (ap ok (omega arith)),
  )

-- For every UTF-8 text and every character boundary in it that does not stand inside a `\r\n`,
-- `line_col` returns a position, and `offset` returns the boundary for it.
pub offset-line_col :
    (text : List ℕ) (off : ℕ)
    → IsUtf8 text
    → is_char_boundary text off ≡ true
    → in_break text off ≡ false
    → Returns (line_col (new text) off text) (λ p. offset (new text) p.0 p.1 text ≡ ok off)
offset-line_col text off u c out =
    let row = newlines (take off text) in
    let (start, e, s, le) = row-Starts text off in
    let h = boundary-le text off c in
    let (end, at_end, content) = line_content_end-Content text off start e s.count le h out in
    let at_start : get_elem? (new text).line_starts row ≡ some start = unfold new in e in
    let in_text : off ≤ (new text).len = unfold new in h in
    elim (Bool-cases (flag_at (new text).line_ascii row)) [
      | inl t ↦
          ascii_row (new text) text row start off end u (line-new text off) at_start at_end in_text
            le content.behind (s.boundary u) c (content.boundary u) t
      | inr f ↦
          wide_row (new text) text row start off end u (line-new text off) at_start at_end in_text
            le content.behind (s.boundary u) c (content.boundary u) f
    ]

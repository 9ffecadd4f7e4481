-- ===== src/Tests/LineIndex.antt =====
-- crates/rua-ide/src/syntax/line_index.rs, run on texts like those of its own tests.
use rua_lang.Base.{ℕ, ◌≡◌, refl, List, ◌∷◌, ◌++◌, Call, ok, Returns, take, codes}
use rua_lang.Lex.Bytes.{IsUtf8, is_char_boundary}
use rua_lang.Lex.Scan.{str_slice}
use rua_lang.LineIndex.{
  new, ascii_flags, line, line_col, ends_in, line_content_end, offset, chars, sum_utf16, walk,
}
use rua_lang.LineIndex.RoundTrip.{offset-line_col}
use rua_lang.LineIndex.Position.{count, line_col-count}
use rua_lang.Newlines.{starts_after, partition_point}
use rua_lang.Tests.Utf8.{is_utf8_after, is_utf8_after_sound}

-- `hi`, a break of two bytes, then `a`, a character of two bytes, one of four bytes, and `b`
abbrev mixed : List ℕ
mixed = codes "hi\r\na" ++ 195 ∷ 169 ∷ 240 ∷ 157 ∷ 132 ∷ 158 ∷ codes "b"

mixed-IsUtf8 : IsUtf8 mixed
unfolding is_utf8_after
mixed-IsUtf8 = is_utf8_after_sound 0 mixed refl

position : ℕ → Call (ℕ × ℕ)
unfolding line_col new line starts_after partition_point ascii_flags str_slice is_char_boundary
    chars sum_utf16
position off = line_col (new mixed) off mixed

back : ℕ → ℕ → Call ℕ
unfolding offset new ends_in line_content_end starts_after ascii_flags str_slice is_char_boundary
    chars walk
back row col = offset (new mixed) row col mixed

position-b : position 11 ≡ ok (1, 4)
unfolding position
position-b = refl

back-b : back 1 4 ≡ ok 11
unfolding back
back-b = refl

back-past_end : back 0 99 ≡ ok 2
unfolding back
back-past_end = refl

offset-line_col_example :
    Returns (line_col (new mixed) 11 mixed) (λ p. offset (new mixed) p.0 p.1 mixed ≡ ok 11)
unfolding is_char_boundary
offset-line_col_example = offset-line_col mixed 11 mixed-IsUtf8 refl refl

line_col-count_example : line_col (new mixed) 11 mixed ≡ ok (count (take 11 mixed) 0 0)
unfolding is_char_boundary
line_col-count_example = line_col-count mixed 11 mixed-IsUtf8 refl

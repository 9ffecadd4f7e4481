-- ===== src/Lex/Scan.antt =====
-- crates/rua-common/src/lex.rs: the loops of `lex_with_limit` over one comment, one string literal
-- or one run of bytes, and `lex_number`. Positions are indexes into the bytes of the text.
use rua_lang.Base.{
  ℕ, suc, ◌+◌, ◌-◌, Bool, true, false, not, ◌&&◌, ◌||◌, List, [], ◌∷◌, Option, none, some, Call, ok,
  panic, ◌>>=◌, Next, go, stop, loop, ◌==◌, ltb, leb, if◌then◌else◌, length, get_elem?, drop, slice,
}
use rua_lang.Lex.Kind.{TokenKind, LexErrorKind}
use rua_lang.Lex.Bytes.{
  is_ascii_digit, is_ascii_alphanumeric, is_name_start, sat_at, is_at, is_char_boundary, char_width,
}

-- `while end < bytes.len() && p(bytes[end]) { end += 1; }`
unfoldable pub skip_from : (ℕ → Bool) → List ℕ → ℕ → ℕ
skip_from p [] end = end
skip_from p (b ∷ rest) end = if p b then skip_from p rest (end + 1) else end

unfoldable pub skip_while : (ℕ → Bool) → List ℕ → ℕ → ℕ
skip_while p bytes end = skip_from p (drop end bytes) end

-- `&text[lo..hi]` panics off a character boundary.
unfoldable pub str_slice : List ℕ → ℕ → ℕ → Call (List ℕ)
str_slice text lo hi =
    if is_char_boundary text lo && is_char_boundary text hi && leb lo hi
    then ok (slice text lo hi)
    else panic

-- A token without its start.
pub record Lexeme : Type 0 where
  pub kind : TokenKind
  pub end : ℕ
  pub error : Option LexErrorKind

abbrev pub not_newline : ℕ → Bool
not_newline b = not (b == b'\n' || b == b'\r')

-- one round of the block comment's loop, on its `end` and `depth`
unfoldable pub comment_step : List ℕ → ℕ × ℕ → Call (Next (ℕ × ℕ) (ℕ × ℕ))
comment_step text (end, depth) =
    if leb (length text) end || depth == 0
    then ok (stop (end, depth))
    else if is_at text end b'/' && is_at text (end + 1) b'*'
    then ok (go (end + 2, depth + 1))
    else if is_at text end b'*' && is_at text (end + 1) b'/'
    then ok (go (end + 2, depth - 1))
    else char_width text end >>= λ width. ok (go (end + width, depth))

unfoldable pub lex_block_comment : List ℕ → ℕ → Call Lexeme
lex_block_comment text cursor = do
  (end, depth) ← loop (suc (length text)) (comment_step text) (cursor + 2, 1)
  ok (record {
    kind = TokenKind.block_comment;
    end = end;
    error = if depth == 0 then none else some LexErrorKind.unterminated_block_comment;
  })

-- the body of the string's loop, on its `end` and the byte there; the loop stops with `end` and
-- `terminated`
unfoldable pub string_byte : List ℕ → ℕ → ℕ → Call (Next ℕ (ℕ × Bool))
string_byte text end b =
    if b == b'"'
    then ok (stop (end + 1, true))
    else if b == b'\\'
    then (if ltb (end + 1) (length text)
        then (char_width text (end + 1) >>= λ width. ok (go (end + 1 + width)))
        else ok (go (end + 1)))
    else if b == b'\n' || b == b'\r'
    then ok (stop (end, false))
    else (char_width text end >>= λ width. ok (go (end + width)))

unfoldable pub string_step : List ℕ → ℕ → Call (Next ℕ (ℕ × Bool))
string_step text end = elim (get_elem? text end) [
  | none ↦ ok (stop (end, false))
  | some b ↦ string_byte text end b
]

unfoldable pub lex_string : List ℕ → ℕ → Call Lexeme
lex_string text cursor = do
  (end, terminated) ← loop (suc (length text)) (string_step text) (cursor + 1)
  ok (record {
    kind = TokenKind.str;
    end = end;
    error = if terminated then none else some LexErrorKind.unterminated_string;
  })

abbrev pub is_digit_or_underscore : ℕ → Bool
is_digit_or_underscore b = is_ascii_digit b || b == b'_'

-- the part of `lex_number` behind the integral digits, from `is_float` and `end`
unfoldable pub fraction : List ℕ → Bool × ℕ → Bool × ℕ
fraction bytes (is_float, end) =
    if is_at bytes end b'.'
      && not (is_at bytes (end + 1) b'.')
      && not (sat_at bytes (end + 1) is_name_start)
    then (true, skip_while is_digit_or_underscore bytes (end + 1))
    else (is_float, end)

unfoldable pub exponent : List ℕ → Bool × ℕ → Bool × ℕ
exponent bytes (is_float, end) =
    if sat_at bytes end (λ b. b == b'e' || b == b'E')
    then (
      true,
      skip_while is_digit_or_underscore bytes
          (if sat_at bytes (end + 1) (λ b. b == b'+' || b == b'-') then end + 2 else end + 1),
    )
    else (is_float, end)

unfoldable pub lex_number : List ℕ → ℕ → TokenKind × ℕ
lex_number bytes start =
    if is_at bytes start b'0'
      && sat_at bytes (start + 1) (λ b. b == b'x' || b == b'X' || b == b'b' || b == b'B')
    then (TokenKind.int, skip_while (λ b. is_ascii_alphanumeric b || b == b'_') bytes (start + 2))
    else let leading_dot = is_at bytes start b'.' in
      let digits =
        skip_while is_digit_or_underscore bytes (if leading_dot then start + 1 else start) in
      let (is_float, end) = exponent bytes (fraction bytes (leading_dot, digits)) in
      (if is_float then TokenKind.float else TokenKind.int, end)

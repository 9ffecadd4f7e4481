-- ===== src/Lex/Bytes.antt =====
-- crates/rua-common/src/lex.rs: the text as bytes. `bytes[i]` is `get_elem? bytes i`; the functions
-- of Rust's `u8`, `char` and `str` that the lexer calls are written out as they are documented.
use rua_lang.Base.{
  ℕ, zero, suc, ◌+◌, ◌≤◌, ◌<◌, ◌≡◌, refl, sym, ◌∙◌, Bool, true, false, not, ◌||◌, List, [], ◌∷◌,
  none, some, Call, ok, panic, ◌==◌, ltb, within, if◌then◌else◌, length, get_elem?, get_elem?-lt,
  Option-cases, inl, inr, arith,
}

abbrev pub is_ascii_digit : ℕ → Bool
is_ascii_digit b = within b'0' b'9' b

abbrev pub is_ascii_alphabetic : ℕ → Bool
is_ascii_alphabetic b = within b'a' b'z' b || within b'A' b'Z' b

abbrev pub is_ascii_alphanumeric : ℕ → Bool
is_ascii_alphanumeric b = is_ascii_alphabetic b || is_ascii_digit b

-- Rust's `u8::is_ascii_whitespace`, without the vertical tab
abbrev pub is_ascii_whitespace : ℕ → Bool
is_ascii_whitespace b = b == b' ' || b == 0x09 || b == 0x0a || b == 0x0c || b == 0x0d

unfoldable pub is_name_start : ℕ → Bool
is_name_start byte = byte == b'_' || is_ascii_alphabetic byte

unfoldable pub is_name_continue : ℕ → Bool
is_name_continue byte = byte == b'_' || is_ascii_alphanumeric byte

-- the bytes of the whitespace token
unfoldable pub is_space : ℕ → Bool
is_space b = b == b' ' || b == 0x09 || b == 0x0a || b == 0x0d || b == 0x0b || b == 0x0c

-- `bytes.get(i).is_some_and(p)`
abbrev pub sat_at : List ℕ → ℕ → (ℕ → Bool) → Bool
sat_at bytes i p = elim (get_elem? bytes i) [ none ↦ false | some b ↦ p b ]

-- `bytes.get(i) == Some(&c)`
abbrev pub is_at : List ℕ → ℕ → ℕ → Bool
is_at bytes i c = sat_at bytes i (λ b. b == c)

pub is_at-lt : (bytes : List ℕ) (i c : ℕ) → is_at bytes i c ≡ true → i < length bytes
is_at-lt bytes i c t = elim (Option-cases (get_elem? bytes i)) [
  | inl e ↦ ground arith
  | inr (b, e) ↦ get_elem?-lt bytes i e
]

-- a byte `0b10xxxxxx` of UTF-8
abbrev pub is_continuation : ℕ → Bool
is_continuation b = within 128 191 b

-- `str::is_char_boundary`
unfoldable pub is_char_boundary : List ℕ → ℕ → Bool
is_char_boundary bytes i = elim (get_elem? bytes i) [
  | none ↦ i == length bytes
  | some b ↦ not (is_continuation b)
]

-- `char::len_utf8` of the character that a byte begins
abbrev pub len_utf8 : ℕ → ℕ
len_utf8 b = if ltb b 192 then 1 else if ltb b 224 then 2 else if ltb b 240 then 3 else 4

-- `text[offset..]` panics off a character boundary; the width is 1 at the end of the text.
unfoldable pub char_width : List ℕ → ℕ → Call ℕ
char_width text offset =
    if is_char_boundary text offset
    then elim (get_elem? text offset) [ none ↦ ok 1 | some b ↦ ok (len_utf8 b) ]
    else panic

-- The bytes of a Rust `str`, of which the first `n` finish a character that began before them.
pub data Utf8After : ℕ → List ℕ → Type 0 where
  nil : {n : ℕ} → n ≡ 0 → Utf8After n []
  lead :
      (a : ℕ) {n due : ℕ} {r : List ℕ}
      → n ≡ 0
      → (is_continuation a ≡ false) × (a < 248) × (due + 1 ≡ len_utf8 a)
      → Utf8After due r
      → Utf8After n (a ∷ r)
  cont :
      (a : ℕ) {n due : ℕ} {r : List ℕ}
      → n ≡ suc due
      → is_continuation a ≡ true
      → Utf8After due r
      → Utf8After n (a ∷ r)

abbrev pub IsUtf8 : List ℕ → Type 0
IsUtf8 = Utf8After 0

pub boundary-suc :
    (a : ℕ) (bs : List ℕ) (i : ℕ) → is_char_boundary (a ∷ bs) (suc i) ≡ is_char_boundary bs i
unfolding is_char_boundary
boundary-suc a bs i = ground arith

boundary-after : {n : ℕ} {bs : List ℕ} → Utf8After n bs → is_char_boundary bs n ≡ true
boundary-after (nil e) = unfold is_char_boundary in ground arith
boundary-after (lead a e h u) = unfold is_char_boundary in ground arith
boundary-after (cont a {due = d} {r = r} e h u) = rw e (boundary-suc a r d ∙ boundary-after u)

pub boundary_zero : {bs : List ℕ} → IsUtf8 bs → is_char_boundary bs 0 ≡ true
boundary_zero = boundary-after

-- The character that begins at `i` ends where its width says.
boundary_next_at :
    {n : ℕ} {bs : List ℕ} (i j : ℕ) {b : ℕ}
    → Utf8After n bs
    → is_char_boundary bs i ≡ true
    → get_elem? bs i ≡ some b
    → j ≡ i + len_utf8 b
    → is_char_boundary bs j ≡ true
boundary_next_at i j (nil _) c e s = cc
boundary_next_at zero j (lead a {due = d} {r = r} _ h u) c e s =
    ground (arith, boundary-suc a r d, boundary-after u)
boundary_next_at zero j (cont a _ h u) c e s = unfold is_char_boundary in ground arith
boundary_next_at (suc i) zero u c e s = absurd (omega arith)
boundary_next_at (suc i) (suc j) (lead a {r = r} _ h u) c e s =
    boundary-suc a r j ∙ boundary_next_at i j u (sym (boundary-suc a r i) ∙ c) e (omega arith)
boundary_next_at (suc i) (suc j) (cont a {r = r} _ h u) c e s =
    boundary-suc a r j ∙ boundary_next_at i j u (sym (boundary-suc a r i) ∙ c) e (omega arith)

pub boundary_next :
    {bs : List ℕ} (i : ℕ) {b : ℕ}
    → IsUtf8 bs
    → is_char_boundary bs i ≡ true
    → get_elem? bs i ≡ some b
    → is_char_boundary bs (i + len_utf8 b) ≡ true
boundary_next i u c e = boundary_next_at i _ u c e refl

-- An ASCII byte is a whole character.
pub boundary_ascii :
    (bs : List ℕ) (i : ℕ) {b : ℕ} → get_elem? bs i ≡ some b → b < 128 → is_char_boundary bs i ≡ true
unfolding is_char_boundary
boundary_ascii bs i e h = ground arith

pub boundary_next_ascii :
    {bs : List ℕ} (i : ℕ) {b : ℕ}
    → IsUtf8 bs
    → get_elem? bs i ≡ some b
    → b < 128
    → is_char_boundary bs (i + 1) ≡ true
boundary_next_ascii i u e h = ground (arith, boundary_next i u (boundary_ascii _ i e h) e)

pub boundary_end : (bs : List ℕ) (i : ℕ) → i ≡ length bs → is_char_boundary bs i ≡ true
unfolding is_char_boundary
boundary_end [] i e = ground arith
boundary_end (x ∷ xs) zero e = absurd (omega arith)
boundary_end (x ∷ xs) (suc i) e = boundary-suc x xs i ∙ boundary_end xs i (omega arith)

-- The boundaries lie in the text.
pub boundary-le : (bs : List ℕ) (i : ℕ) → is_char_boundary bs i ≡ true → i ≤ length bs
unfolding is_char_boundary
boundary-le [] i c = ground arith
boundary-le (x ∷ xs) zero c = omega arith
boundary-le (x ∷ xs) (suc i) c = omega (arith, boundary-le xs i (sym (boundary-suc x xs i) ∙ c))

-- At a boundary `char_width` returns, and the next boundary is that far away.
pub char_width_lem :
    {bs : List ℕ} (i : ℕ) {b : ℕ}
    → IsUtf8 bs
    → is_char_boundary bs i ≡ true
    → get_elem? bs i ≡ some b
    → (char_width bs i ≡ ok (len_utf8 b))
      × (0 < len_utf8 b)
      × (is_char_boundary bs (i + len_utf8 b) ≡ true)
unfolding char_width
char_width_lem i u c e = (ground arith, ground arith, boundary_next i u c e)

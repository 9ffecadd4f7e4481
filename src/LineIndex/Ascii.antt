-- ===== src/LineIndex/Ascii.antt =====
-- crates/rua-ide/src/syntax/line_index.rs: what the ASCII flag of a line says of its bytes.
use rua_lang.Base.{
  ℕ, zero, suc, ◌<◌, ◌≡◌, refl, sym, ◌∙◌, ap, inl, inr, Bool, true, false, ◌&&◌, and_true, List, [],
  ◌∷◌, some, ◌==◌, ltb, ltb→lt, Bool-cases, length, get_elem?, take, arith,
}
use rua_lang.LineIndex.{ascii_flags, flag_at, chars, sum_utf16}
use rua_lang.Newlines.{newlines}

flags-break :
    (b : ℕ) (bytes : List ℕ) (ascii : Bool)
    → (b == b'\n') ≡ true
    → ascii_flags (b ∷ bytes) ascii ≡ (ascii && ltb b 128) ∷ ascii_flags bytes true
unfolding ascii_flags
flags-break b bytes ascii t = rw t refl

flags-other :
    (b : ℕ) (bytes : List ℕ) (ascii : Bool)
    → (b == b'\n') ≡ false
    → ascii_flags (b ∷ bytes) ascii ≡ ascii_flags bytes (ascii && ltb b 128)
unfolding ascii_flags
flags-other b bytes ascii f = rw f refl

-- A flag is set only if the line had ASCII bytes before, and has them here.
first_flag :
    (bytes : List ℕ) (ascii : Bool) → flag_at (ascii_flags bytes ascii) 0 ≡ true → ascii ≡ true
unfolding ascii_flags
first_flag [] ascii h = h
first_flag (b ∷ bytes) ascii h = elim (Bool-cases (b == b'\n')) [
  | inl t ↦
      ((and_true ascii (ltb b 128)).0
        (sym (ap (λ fs. flag_at fs 0) (flags-break b bytes ascii t)) ∙ h)).0
  | inr f ↦
      ((and_true ascii (ltb b 128)).0 (
        first_flag bytes (ascii && ltb b 128)
          (sym (ap (λ fs. flag_at fs 0) (flags-other b bytes ascii f)) ∙ h))).0
]

pub flag-IsAscii :
    (bytes : List ℕ) (ascii : Bool) (row j byte : ℕ)
    → flag_at (ascii_flags bytes ascii) row ≡ true
    → get_elem? bytes j ≡ some byte
    → newlines (take j bytes) ≡ row
    → byte < 128
unfolding newlines
flag-IsAscii [] ascii row j byte h e r = cc
flag-IsAscii (b ∷ bytes) ascii zero zero byte h e r = elim (Bool-cases (b == b'\n')) [
  | inl t ↦ ground arith
  | inr f ↦
      let h' = sym (ap (λ fs. flag_at fs 0) (flags-other b bytes ascii f)) ∙ h in
      let (_, small) = (and_true ascii (ltb b 128)).0 (first_flag bytes (ascii && ltb b 128) h') in
      ground (arith, ltb→lt b 128 small)
]
flag-IsAscii (b ∷ bytes) ascii (suc row) zero byte h e r = absurd (omega (arith, r))
flag-IsAscii (b ∷ bytes) ascii row (suc j) byte h e r = elim (Bool-cases (b == b'\n')) [
  | inl t ↦
      let h' = sym (ap (λ fs. flag_at fs row) (flags-break b bytes ascii t)) ∙ h in
      let row' : row ≡ suc (newlines (take j bytes)) = ground arith in
      flag-IsAscii bytes true (newlines (take j bytes)) j byte
        (sym (ap (flag_at ((ascii && ltb b 128) ∷ ascii_flags bytes true)) row') ∙ h') e refl
  | inr f ↦
      flag-IsAscii bytes (ascii && ltb b 128) row j byte
        (sym (ap (λ fs. flag_at fs row) (flags-other b bytes ascii f)) ∙ h) e (ground arith)
]

-- On ASCII bytes a column is a byte.
pub sum_utf16-ascii :
    (bytes : List ℕ)
    → ((j byte : ℕ) → get_elem? bytes j ≡ some byte → byte < 128)
    → sum_utf16 (chars bytes) ≡ length bytes
unfolding sum_utf16 chars
sum_utf16-ascii [] h = refl
sum_utf16-ascii (b ∷ bytes) h =
    ground (arith, h 0 b refl, sum_utf16-ascii bytes (λ j byte e. h (suc j) byte e))

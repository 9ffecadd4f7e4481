-- ===== src/LineIndex/Row.antt =====
-- crates/rua-ide/src/syntax/line_index.rs: where a line starts.
use std.Path.{ap}
use rua_lang.Base.{
  ok, ℕ, zero, suc, ◌+◌, ◌-◌, ◌≤◌, ◌<◌, ◌≡◌, refl, sym, ◌∙◌, inl, inr, true, false, List, [], ◌∷◌,
  some, ◌==◌, ltb, Bool-cases, Option-cases, length, get_elem?, get_elem?-of_lt, take, ltb→lt,
  ltb→le, arith,
}
use rua_lang.Lex.Bytes.{
  is_at, is_at-lt, is_char_boundary, IsUtf8, boundary_zero, boundary_next_ascii,
}
use rua_lang.LineIndex.{at_index}
use rua_lang.LineIndex.Line.{newlines-take-suc, add_one}
use rua_lang.Newlines.{starts_after, newlines}
use rua_lang.Newlines.Count.{newlines-take_mono, newlines-take_le, length-starts_after}

-- Start `i` follows a break that has `i` breaks before it.
pub starts_after-at :
    (base i s : ℕ) (bytes : List ℕ)
    → get_elem? (starts_after base bytes) i ≡ some s
    → (j : ℕ) × (base + j + 1 ≡ s) × (is_at bytes j b'\n' ≡ true) × (newlines (take j bytes) ≡ i)
unfolding starts_after newlines
starts_after-at base i s [] e = cc
starts_after-at base zero s (b ∷ bytes) e = elim (Bool-cases (b == b'\n')) [
  | inl t ↦ (0, ground arith, t, refl)
  | inr f ↦
      let (j, p, q, r) = starts_after-at (base + 1) 0 s bytes (ground arith) in
      (suc j, omega (arith, p), q, ground arith)
]
starts_after-at base (suc i) s (b ∷ bytes) e = elim (Bool-cases (b == b'\n')) [
  | inl t ↦
      let (j, p, q, r) = starts_after-at (base + 1) i s bytes (ground arith) in
      (suc j, omega (arith, p), q, ground arith)
  | inr f ↦
      let (j, p, q, r) = starts_after-at (base + 1) (suc i) s bytes (ground arith) in
      (suc j, omega (arith, p), q, ground arith)
]

-- Row `row` starts at `start`: the first offset behind `row` breaks.
pub record Starts (text : List ℕ) (row start : ℕ) : Type 0 where
  pub count : newlines (take start text) ≡ row
  pub least : (k : ℕ) → k < start → newlines (take k text) < row
  pub within : start ≤ length text
  pub boundary : IsUtf8 text → is_char_boundary text start ≡ true

abbrev pub starts : List ℕ → List ℕ
starts text = 0 ∷ starts_after 0 text

pub at-suc :
    (text : List ℕ) (row : ℕ)
    → get_elem? (starts text) (row + 1) ≡ get_elem? (starts text) (suc row)
at-suc text row = ap (get_elem? (starts text)) (add_one row)

-- a later start follows a break
starts-behind :
    (text : List ℕ) (row start : ℕ)
    → get_elem? (starts text) (row + 1) ≡ some start
    → (0 < start) × (is_at text (start - 1) b'\n' ≡ true)
starts-behind text row start e =
    let (j, p, q, r) = starts_after-at 0 row start text (sym (at-suc text row) ∙ e) in
    let s : start - 1 ≡ j = omega (arith, p) in
    (omega (arith, p), ap (λ k. is_at text k b'\n') s ∙ q)

pub byte-is_at : (text : List ℕ) (j c : ℕ) → is_at text j c ≡ true → get_elem? text j ≡ some c
byte-is_at text j c t = elim (Option-cases (get_elem? text j)) [
  | inl e ↦ ground arith
  | inr (b, e) ↦ ground arith
]

pub starts-Starts :
    (text : List ℕ) (row start : ℕ)
    → get_elem? (starts text) row ≡ some start
    → Starts text row start
unfolding newlines
starts-Starts text zero start e =
    let s : 0 ≡ start = ground arith in
    record {
      count = sym (ap (λ k. newlines (take k text)) s);
      least = λ k h. absurd (omega (arith, s));
      within = omega (arith, s);
      boundary = λ u. sym (ap (is_char_boundary text) s) ∙ boundary_zero u;
    }
starts-Starts text (suc row) start e =
    let (j, p, q, r) = starts_after-at 0 row start text e in
    let s : suc j ≡ start = omega (arith, p) in
    let grown : newlines (take (suc j) text) ≡ newlines (take j text) + 1 =
      newlines-take-suc j text ∙ rw q refl in
    record {
      count = sym (ap (λ k. newlines (take k text)) s) ∙ omega (arith, grown, r);
      least = λ k h. omega (arith, newlines-take_mono text k j (omega (arith, s, h)), r);
      within = omega (arith, s, is_at-lt text j b'\n' q);
      boundary = λ u.
          ap (is_char_boundary text) (omega (arith, s))
          ∙ boundary_next_ascii j u (byte-is_at text j b'\n' q) (omega arith);
    }

-- the row of an offset in the text starts at or before it
pub row-Starts :
    (text : List ℕ) (off : ℕ)
    → (start : ℕ) × (get_elem? (starts text) (newlines (take off text)) ≡ some start)
      × Starts text (newlines (take off text)) start
      × (start ≤ off)
row-Starts text off =
    let row = newlines (take off text) in
    let (start, e) =
      get_elem?-of_lt (starts text) row
        (omega (arith, newlines-take_le text off, length-starts_after 0 text)) in
    let s = starts-Starts text row start e in
    (
      start,
      e,
      s,
      elim (Bool-cases (ltb off start)) [
        | inl t ↦ absurd (omega (arith, s.least off (ltb→lt off start t)))
        | inr f ↦ ltb→le off start f
      ],
    )

-- Between the start of an offset's row and the offset no line breaks.
pub no_break :
    (text : List ℕ) (start off j : ℕ)
    → newlines (take start text) ≡ newlines (take off text)
    → start ≤ j
    → j < off
    → is_at text j b'\n' ≡ false
no_break text start off j e h k = elim (Bool-cases (is_at text j b'\n')) [
  | inl t ↦
      let grown : newlines (take (suc j) text) ≡ newlines (take j text) + 1 =
        newlines-take-suc j text ∙ rw t refl in
      absurd (
        omega (
          arith,
          grown,
          newlines-take_mono text start j h,
          newlines-take_mono text (suc j) off k,
          e,
        ))
  | inr f ↦ f
]

pub at_index-ok : (xs : List ℕ) (i : ℕ) {x : ℕ} → get_elem? xs i ≡ some x → at_index xs i ≡ ok x
at_index-ok xs i e = rw (at_index, e) refl

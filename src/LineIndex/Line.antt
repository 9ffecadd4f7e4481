-- ===== src/LineIndex/Line.antt =====
-- crates/rua-ide/src/syntax/line_index.rs: the row of an offset.
use rua_lang.Base.{
  ℕ, zero, suc, ◌+◌, ◌≤◌, ◌≡◌, refl, ◌∙◌, inl, inr, Bool, false, List, [], ◌∷◌, ok, ◌==◌, ltb, leb,
  if◌then◌else◌, Bool-cases, take, arith,
}
use std.Path.{fun_ext, ap}
use rua_lang.Lex.Bytes.{is_at}
use rua_lang.LineIndex.{new, line}
use rua_lang.Newlines.{starts_after, partition_point, newlines}
use rua_lang.Newlines.Count.{line_starts-le}

-- The starts lie behind the offset their bytes begin at.
starts_after-none :
    (base i s : ℕ) (bytes : List ℕ) → s ≤ base → is_at (starts_after base bytes) i s ≡ false
unfolding starts_after
starts_after-none base i s [] h = refl
starts_after-none base zero s (b ∷ bytes) h = elim (Bool-cases (b == b'\n')) [
  | inl t ↦ rw (t, starts_after) (ground arith)
  | inr f ↦ rw (f, starts_after) (starts_after-none (base + 1) 0 s bytes (omega arith))
]
starts_after-none base (suc i) s (b ∷ bytes) h = elim (Bool-cases (b == b'\n')) [
  | inl t ↦ rw (t, starts_after) (starts_after-none (base + 1) i s bytes (omega arith))
  | inr f ↦ rw (f, starts_after) (starts_after-none (base + 1) (suc i) s bytes (omega arith))
]

one_add : (n : ℕ) → 1 + n ≡ suc n
one_add n = omega arith

pub add_one : (n : ℕ) → n + 1 ≡ suc n
add_one n = omega arith

zero_add : (n : ℕ) → 0 + n ≡ n
zero_add n = omega arith

-- The start behind the breaks of the first `k` bytes follows byte `k` exactly if that is a break.
starts_after-break :
    (base k s : ℕ) (bytes : List ℕ)
    → s ≡ base + k + 1
    → is_at (starts_after base bytes) (newlines (take k bytes)) s ≡ is_at bytes k b'\n'
unfolding starts_after newlines
starts_after-break base k s [] e = refl
starts_after-break base zero s (b ∷ bytes) e = elim (Bool-cases (b == b'\n')) [
  | inl t ↦ rw (t, starts_after) (ground arith)
  | inr f ↦ rw (f, starts_after) (starts_after-none (base + 1) 0 s bytes (omega arith))
]
starts_after-break base (suc k) s (b ∷ bytes) e = elim (Bool-cases (b == b'\n')) [
  | inl t ↦
      rw (t, one_add (newlines (take k bytes)))
        (starts_after-break (base + 1) k s bytes (omega arith))
  | inr f ↦
      rw (f, zero_add (newlines (take k bytes)))
        (starts_after-break (base + 1) k s bytes (omega arith))
]

pub newlines-take-suc :
    (k : ℕ) (bytes : List ℕ)
    → newlines (take (suc k) bytes)
      ≡ newlines (take k bytes) + (if is_at bytes k b'\n' then 1 else 0)
unfolding newlines
newlines-take-suc zero [] = refl
newlines-take-suc (suc k) [] = refl
newlines-take-suc zero (b ∷ bytes) = omega arith
newlines-take-suc (suc k) (b ∷ bytes) = omega (arith, newlines-take-suc k bytes)

-- the starts before an offset are those up to the offset one less
ltb-suc : (o : ℕ) → ◌≡◌ {A = ℕ → Bool} (λ s. ltb s (suc o)) (λ s. leb s o)
ltb-suc o = fun_ext (λ s. ground arith)

pub line-new :
    (text : List ℕ) (offset : ℕ) → line (new text) offset ≡ ok (newlines (take offset text))
unfolding line new newlines partition_point
line-new text zero = refl
line-new text (suc o) =
    let before = newlines (take o text) in
    let found : partition_point (λ s. ltb s (suc o)) (0 ∷ starts_after 0 text) ≡ suc before =
      ap (λ p. partition_point p (0 ∷ starts_after 0 text)) (ltb-suc o)
      ∙ line_starts-le text o
      ∙ add_one before in
    let hit = starts_after-break 0 o (suc o) text (omega arith) in
    elim (Bool-cases (is_at text o b'\n')) [
      | inl t ↦ rw (found, hit ∙ t, newlines-take-suc o text, t) (ap ok (omega arith))
      | inr f ↦ rw (found, hit ∙ f, newlines-take-suc o text, f) (ground arith)
    ]

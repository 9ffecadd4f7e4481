-- ===== src/Newlines/Count.antt =====
-- The line starts up to an offset, counted.
use rua_lang.Base.{
  ℕ, zero, suc, ◌+◌, ◌≤◌, ◌<◌, ◌≡◌, refl, inl, inr, Bool, false, List, [], ◌∷◌, ◌==◌, leb,
  Bool-cases, length, take, arith,
}
use rua_lang.Newlines.{starts_after, partition_point, newlines}

-- No start lies before the bytes it comes from.
partition_point-zero :
    (p : ℕ → Bool) (offset : ℕ) (bytes : List ℕ)
    → ((s : ℕ) → offset < s → p s ≡ false)
    → partition_point p (starts_after offset bytes) ≡ 0
unfolding starts_after partition_point
partition_point-zero p offset [] h = refl
partition_point-zero p offset (byte ∷ bytes) h = elim (Bool-cases (byte == b'\n')) [
  | inl t ↦ rw (t, starts_after) (rw (h (offset + 1) (omega arith)))
  | inr f ↦
      rw (f, starts_after) (partition_point-zero p (offset + 1) bytes (λ s lt. h s (omega arith)))
]

starts_up_to :
    (offset k top : ℕ) (bytes : List ℕ)
    → top ≡ offset + k
    → partition_point (λ s. leb s top) (starts_after offset bytes) ≡ newlines (take k bytes)
unfolding starts_after partition_point newlines
starts_up_to offset zero top bytes e = partition_point-zero _ offset bytes (λ s lt. ground arith)
starts_up_to offset (suc k) top [] e = refl
starts_up_to offset (suc k) top (byte ∷ bytes) e =
    ground (arith, starts_up_to (offset + 1) k top bytes (omega arith))

-- The line starts of a text up to an offset, the first line's included.
pub line_starts-le :
    (bytes : List ℕ) (offset : ℕ)
    → partition_point (λ s. leb s offset) (0 ∷ starts_after 0 bytes)
      ≡ newlines (take offset bytes) + 1
unfolding partition_point
line_starts-le bytes offset = ground (arith, starts_up_to 0 offset offset bytes (omega arith))

pub newlines-take_mono :
    (bytes : List ℕ) (i j : ℕ) → i ≤ j → newlines (take i bytes) ≤ newlines (take j bytes)
unfolding newlines
newlines-take_mono bytes zero j h = omega arith
newlines-take_mono [] (suc i) (suc j) h = omega arith
newlines-take_mono (b ∷ bytes) (suc i) (suc j) h =
    omega (arith, newlines-take_mono bytes i j (omega arith))
newlines-take_mono bytes (suc i) zero h = absurd (omega arith)

pub newlines-take_le : (bytes : List ℕ) (i : ℕ) → newlines (take i bytes) ≤ newlines bytes
unfolding newlines
newlines-take_le bytes zero = omega arith
newlines-take_le [] (suc i) = omega arith
newlines-take_le (b ∷ bytes) (suc i) = omega (arith, newlines-take_le bytes i)

pub length-starts_after :
    (offset : ℕ) (bytes : List ℕ) → length (starts_after offset bytes) ≡ newlines bytes
unfolding starts_after newlines
length-starts_after offset [] = refl
length-starts_after offset (byte ∷ bytes) = ground (arith, length-starts_after (offset + 1) bytes)

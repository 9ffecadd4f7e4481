-- ===== src/Text/Decimal.antt =====
-- Decimal numerals: printing and reading.
use rua_lang.Base.{
  ℕ, zero, suc, ◌+◌, ◌-◌, ◌*◌, ◌/◌, ◌%◌, ◌≤◌, ◌<◌, ◌≡◌, refl, sym, ◌∙◌, ap, inl, inr, true, List,
  [], ◌∷◌, ◌++◌, some, All, ltb, leb, Bool-cases, ltb→lt, ltb→le, arith,
}
use rua_lang.Text.{is_digit, span_digits, decimal, parse_usize, usize_max, display_with, display}

decimal-append :
    (acc : ℕ) (xs : List ℕ) (d : ℕ) → decimal acc (xs ++ d ∷ []) ≡ decimal acc xs * 10 + (d - b'0')
unfolding decimal
decimal-append acc [] d = refl
decimal-append acc (x ∷ xs) d = decimal-append (acc * 10 + (x - b'0')) xs d

decimal-display_with : (fuel n : ℕ) → n < fuel → decimal 0 (display_with fuel n) ≡ n
unfolding display_with decimal
decimal-display_with zero n h = absurd (omega arith)
decimal-display_with (suc fuel) n h = elim (Bool-cases (ltb n 10)) [
  | inl t ↦ rw t (omega arith)
  | inr f ↦
      let big = ltb→le n 10 f in
      rw f (
        decimal-append 0 (display_with fuel (n / 10)) (b'0' + n % 10)
        ∙ omega (arith, decimal-display_with fuel (n / 10) (omega (arith, big))))
]

-- Reading what is printed gives the number back.
pub decimal-display : (n : ℕ) → decimal 0 (display n) ≡ n
unfolding display
decimal-display n = decimal-display_with (suc n) n (omega arith)

pub display_inj : (m n : ℕ) → display m ≡ display n → m ≡ n
display_inj m n e = sym (decimal-display m) ∙ ap (decimal 0) e ∙ decimal-display n

abbrev pub IsDigits : List ℕ → Type 0
IsDigits = All (λ c. is_digit c ≡ true)

IsDigits-append : (xs ys : List ℕ) → IsDigits xs → IsDigits ys → IsDigits (xs ++ ys)
IsDigits-append [] ys h k = k
IsDigits-append (x ∷ xs) ys (a, h) k = (a, IsDigits-append xs ys h k)

display_with-IsDigits : (fuel n : ℕ) → IsDigits (display_with fuel n)
unfolding display_with
display_with-IsDigits zero n = tt
display_with-IsDigits (suc fuel) n = elim (Bool-cases (ltb n 10)) [
  | inl t ↦ rw t (ground (arith, ltb→lt n 10 t), tt)
  | inr f ↦ rw f (
      IsDigits-append (display_with fuel (n / 10)) _ (display_with-IsDigits fuel (n / 10))
        (ground arith, tt))
]

pub display-IsDigits : (n : ℕ) → IsDigits (display n)
unfolding display
display-IsDigits n = display_with-IsDigits (suc n) n

append-cons : (xs : List ℕ) (y : ℕ) → (z : ℕ) × (zs : List ℕ) × (xs ++ y ∷ [] ≡ z ∷ zs)
append-cons [] y = (y, [], refl)
append-cons (x ∷ xs) y = (x, xs ++ y ∷ [], refl)

-- A number has a digit.
pub display-cons : (n : ℕ) → (d : ℕ) × (ds : List ℕ) × (display n ≡ d ∷ ds)
unfolding display display_with
display-cons n = elim (Bool-cases (ltb n 10)) [
  | inl t ↦ rw t (_, _, refl)
  | inr f ↦ rw f (append-cons (display_with n (n / 10)) (b'0' + n % 10))
]

pub parse_usize-display : (n : ℕ) → n ≤ usize_max → parse_usize (display n) ≡ some n
unfolding parse_usize
parse_usize-display n h =
    let (d, ds, e) = display-cons n in rw e (step d ds (sym (ap (decimal 0) e) ∙ decimal-display n))
  where
    step : (d : ℕ) (ds : List ℕ) → decimal 0 (d ∷ ds) ≡ n → parse_usize (d ∷ ds) ≡ some n
    step d ds v = let fits : leb n usize_max ≡ true = ground arith in rw (v, fits) refl

-- Digits in front of anything but a digit are spanned whole.
pub span_digits-append :
    (xs : List ℕ) (rest : List ℕ)
    → IsDigits xs
    → span_digits rest ≡ ([], rest)
    → span_digits (xs ++ rest) ≡ (xs, rest)
unfolding span_digits
span_digits-append [] rest h k = k
span_digits-append (x ∷ xs) rest (t, h) k = rw (t, span_digits-append xs rest h k) refl

-- ===== src/Base/Calls.antt =====
-- What a call of the source does: it returns, it panics, or, in the model alone, it is `stuck`
-- because a loop ran out of fuel.
use mathlib.Core.Path.{◌≡◌, subst, sym, ◌∙◌}

pub data Call {ℓ} (Value : Type ℓ) : Type ℓ where
  panic stuck : Call Value
  ok : (value : Value) → Call Value

-- `do` goes on with the value of a call that returned.
abbrev pub ◌>>=◌ {ℓ κ} :
    {Value : Type ℓ} {Next : Type κ} (call : Call Value) (rest : Value → Call Next) → Call Next
panic >>= rest = panic
stuck >>= rest = stuck
ok value >>= rest = rest value

infixl 5 ◌>>=◌
-- A call returns a value with a property.
abbrev pub Returns {ℓ κ} : {Value : Type ℓ} (call : Call Value) → (Value → Type κ) → Type (ℓ ⊔ κ)
Returns {Value} call Holds = (value : Value) × (call ≡ ok value) × Holds value

pub Returns-bind {ℓ κ μ ν} :
    {A : Type ℓ} {B : Type κ} {P : A → Type μ} {Q : B → Type ν} (r : Call A) (f : A → Call B)
    → Returns r P
    → ((a : A) → P a → Returns (f a) Q)
    → Returns (r >>= f) Q
Returns-bind {P = P} (ok a) f (b, e, p) k = let same : b ≡ a = cc in k a (subst P same p)
Returns-bind panic f (b, e, p) k = cc
Returns-bind stuck f (b, e, p) k = cc

-- A call has one value.
pub Returns-both {ℓ} :
    {A : Type ℓ} {P Q : A → Type 0} (r : Call A)
    → Returns r P
    → Returns r Q
    → Returns r (λ a. P a × Q a)
Returns-both {Q = Q} r (a, e, p) (b, e', q) =
    let same : ok b ≡ ok a = sym e' ∙ e in let same' : b ≡ a = cc in (a, e, (p, subst Q same' q))

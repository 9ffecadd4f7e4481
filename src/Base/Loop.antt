-- ===== src/Base/Loop.antt =====
-- A `while` or `loop` of the source as a step function: each round goes on with a new state, or
-- stops with the loop's result. The rounds are counted by fuel; `stuck` says that it ran out.
use Prim.Native.Nat.{ℕ, zero, suc, ◌<◌}
use mathlib.Core.Path.{◌≡◌, refl}
use native.Mathlib.Omega.{arith}
use rua_lang.Base.Calls.{Call, ok, stuck, ◌>>=◌, Returns, Returns-bind}

pub data Next {ℓ κ} (A : Type ℓ) (B : Type κ) : Type (ℓ ⊔ κ) where
  go : A → Next A B
  stop : B → Next A B

unfoldable pub loop {ℓ κ} : {A : Type ℓ} {B : Type κ} → ℕ → (A → Call (Next A B)) → A → Call B
loop zero step a = stuck
loop (suc fuel) step a = step a >>= λ n. elim n [ stop b ↦ ok b | go a' ↦ loop fuel step a' ]

module _ {ℓ κ} {A : Type ℓ} {B : Type κ} (fuel : ℕ) (step : A → Call (Next A B)) (a : A) where
  pub loop-stop : (b : B) → step a ≡ ok (stop b) → loop (suc fuel) step a ≡ ok b
  unfolding loop
  loop-stop b e = rw e refl

  pub loop-go : (a' : A) → step a ≡ ok (go a') → loop (suc fuel) step a ≡ loop fuel step a'
  unfolding loop
  loop-go a' e = rw e refl

-- One round keeps `P` and lowers the measure, or ends with `Q`.
abbrev pub Keeps {ℓ κ} :
    {A : Type ℓ} {B : Type κ} → (A → Type 0) → (B → Type 0) → (A → ℕ) → A → Next A B → Type 0
Keeps P Q measure a (go a') = P a' × (measure a' < measure a)
Keeps P Q measure a (stop b) = Q b

module _ {ℓ κ} {A : Type ℓ} {B : Type κ} (P : A → Type 0) (Q : B → Type 0) (measure : A → ℕ)
    (step : A → Call (Next A B)) where
  continue_or_stop :
      (fuel : ℕ) {a : A}
      → ((a' : A) → P a' → measure a' < measure a → Returns (loop fuel step a') Q)
      → (n : Next A B) → Keeps P Q measure a n
      → Returns (elim n [ stop b ↦ ok b | go a' ↦ loop fuel step a' ]) Q
  continue_or_stop fuel rest (go a') (p, lt) = rest a' p lt
  continue_or_stop fuel rest (stop b) q = (b, refl, q)

  -- A loop whose rounds keep `P` and lower the measure returns, given fuel above the measure.
  pub loop-Returns :
      ((a : A) → P a → Returns (step a) (Keeps P Q measure a))
      → (fuel : ℕ) (a : A) → measure a < fuel
      → P a
      → Returns (loop fuel step a) Q
  unfolding loop
  loop-Returns keep zero a m h = absurd (omega arith)
  loop-Returns keep (suc fuel) a m h =
      Returns-bind {P = Keeps P Q measure a} (step a) _ (keep a h)
        (continue_or_stop fuel {a = a} (λ a' p lt. loop-Returns keep fuel a' (omega arith) p))

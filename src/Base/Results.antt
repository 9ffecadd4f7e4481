-- ===== src/Base/Results.antt =====
-- Rust's `Result`: a value or an error, and the operator `?`.

pub data Result {ℓ κ} (Error : Type ℓ) (Value : Type κ) : Type (ℓ ⊔ κ) where
  error : Error → Result Error Value
  done : Value → Result Error Value

-- the operator `?`
abbrev pub on_done {ℓ κ μ} :
    {Error : Type ℓ} {Value : Type κ} {Next : Type μ}
    → Result Error Value
    → (Value → Result Error Next)
    → Result Error Next
on_done (error e) rest = error e
on_done (done value) rest = rest value

-- ===== src/Common/Results.antt =====
-- What a call of a Go function ends in: a value, an error value, or a panic.

pub data Outcome {ℓ κ} (E : Type ℓ) (A : Type κ) : Type (ℓ ⊔ κ) where
  ok : A → Outcome E A
  err : E → Outcome E A
  panic : Outcome E A

-- ===== src/Prelude/Outcome.antt =====
-- A call that returns or raises.
pub data Result {ℓ κ} (E : Type κ) (A : Type ℓ) : Type (ℓ ⊔ κ) where
  ok : A → Result E A
  raise : E → Result E A

-- ===== src/Prelude/Keys.antt =====
-- Keys that the code compares by `==`: an interface, and its instances.
use Prim.Native.String.{String}
use mathlib.Core.Path.{◌≡◌}
use mathlib.Core.Logic.{◌↔◌}
use mathlib.Core.Bool.{Bool, true, ◌&&◌}
use native.Mathlib.Omega.{arith}
use text.Mathlib.Text.{◌==◌ as str_eq}
use text.Mathlib.TextEquality.{eq_iff}

-- A test that holds of equal keys alone.
pub record Key {ℓ} (K : Type ℓ) : Type ℓ where
  pub eqb : K → K → Bool
  pub eqb_iff : (x y : K) → (eqb x y ≡ true) ↔ (x ≡ y)

instance abbrev pub text_key : Key String
text_key = record { eqb = str_eq; eqb_iff = eq_iff }

infix 50 ◌==◌
abbrev pub ◌==◌ {ℓ} : {K : Type ℓ} ⦃k : Key K⦄ → K → K → Bool
◌==◌ ⦃k⦄ x y = k.eqb x y

abbrev Triple : Type 0
Triple = String × String × String

abbrev triple_eqb : Triple → Triple → Bool
triple_eqb a b = str_eq a.0 b.0 && str_eq a.1 b.1 && str_eq a.2 b.2

pub triple_eqb_iff : (a b : Triple) → (triple_eqb a b ≡ true) ↔ (a ≡ b)
triple_eqb_iff a b = ground (arith, eq_iff a.0 b.0, eq_iff a.1 b.1, eq_iff a.2 b.2)

instance abbrev pub triple_key : Key (String × String × String)
triple_key = record { eqb = triple_eqb; eqb_iff = triple_eqb_iff }

abbrev Pair : Type 0
Pair = String × String

abbrev pair_eqb : Pair → Pair → Bool
pair_eqb a b = str_eq a.0 b.0 && str_eq a.1 b.1

pub pair_eqb_iff : (a b : Pair) → (pair_eqb a b ≡ true) ↔ (a ≡ b)
pair_eqb_iff a b = ground (arith, eq_iff a.0 b.0, eq_iff a.1 b.1)

instance abbrev pub pair_key : Key (String × String)
pair_key = record { eqb = pair_eqb; eqb_iff = pair_eqb_iff }

-- ===== src/Base/Floats.antt =====
-- Floats. A float64 or float32 stands for itself as its bit pattern, so 0.0 is the number 0; the
-- operations of the language on them are parameters of the definitions that compute with floats.
use Prim.Native.Nat.{ℕ}
use mathlib.Core.Bool.{Bool}

abbrev pub Float : Type 0
Float = ℕ

pub record FloatOps : Type 0 where
  pub add : Float → Float → Float
  pub sub : Float → Float → Float
  pub mul : Float → Float → Float
  pub div : Float → Float → Float
  pub max : Float → Float → Float
  pub lt : Float → Float → Bool
  pub le : Float → Float → Bool
  pub round : Float → Float
  pub of_nat : ℕ → Float  -- the conversion from an integer
  pub to_nat : Float → ℕ  -- the conversion to a uint64

-- `twoDecimals` and `TwoDecimals`: math.Round(value*100) / 100.
unfoldable pub two_decimals : FloatOps → Float → Float
two_decimals o value = o.div (o.round (o.mul value (o.of_nat 100))) (o.of_nat 100)

-- The operations on float32, with the conversions from and to float64.
pub record SingleOps : Type 0 where
  pub single : Float → Float
  pub double : Float → Float
  pub add : Float → Float → Float
  pub div : Float → Float → Float
  pub lt : Float → Float → Bool
  pub le : Float → Float → Bool
  pub of_nat : ℕ → Float

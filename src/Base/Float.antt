-- ===== src/Base/Float.antt =====
-- Python's `float`: a bit pattern, with its operations as a parameter.
use Prim.Native.Nat.{ℕ}
use mathlib.Core.Bool.{Bool}

abbrev pub Float : Type 0
Float = ℕ

-- The operators of `float`, `float` of an `int`, and `math.isfinite` and `math.isclose`.
pub record FloatOps : Type 0 where
  pub zero_point : Float
  pub one_point : Float
  pub less : Float → Float → Bool
  pub less_eq : Float → Float → Bool
  pub same : Float → Float → Bool
  pub plus : Float → Float → Float
  pub minus : Float → Float → Float
  pub times : Float → Float → Float
  pub over : Float → Float → Float
  pub negate : Float → Float
  pub of_int : ℕ → Float
  pub finite : Float → Bool
  pub is_close : Float → Float → Bool

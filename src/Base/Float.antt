-- ===== src/Base/Float.antt =====
-- What the code does with a float64. Its arithmetic is the machine's: here a parameter.
use mathlib.Core.Bool.{Bool}
use incus.Base.Int.{ℤ}

-- What the code does with a float64; `ratio a b` is float64(a) / float64(b). `before`,
-- `at_most` and `equal` are <, <= and ==.
pub record Float (W : Type 0) : Type 0 where
  pub ratio : ℤ → ℤ → W
  pub of_int : ℤ → W
  pub plus : W → W → W
  pub minus : W → W → W
  pub times : W → W → W
  pub over : W → W → W
  pub sqrt : W → W
  pub larger : W → W → W
  pub infinity : W
  pub minus_infinity : W
  pub before : W → W → Bool
  pub at_most : W → W → Bool
  pub equal : W → W → Bool
  pub is_nan : W → Bool
  -- int(math.Round(v))
  pub rounded : W → ℤ

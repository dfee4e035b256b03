-- ===== src/Double.antt =====
-- `double` as an IEEE 754 binary64 bit pattern, below 2^64, with the comparisons of the source.
use intent_execution_layer.Common.{ℕ, ◌%◌, Bool, not, ◌&&◌, ltb, leb, ◌==◌, if◌then◌else◌, ℤ}
use intent_execution_layer.Text.{Text}
use intent_execution_layer.Float.{Float}

abbrev pub Double : Type 0
Double = ℕ

abbrev sign_bit : ℕ
sign_bit = 0x8000_0000_0000_0000

abbrev infinity : ℕ
infinity = 0x7ff0_0000_0000_0000

magnitude : Double → ℕ
magnitude x = x % sign_bit

is_negative : Double → Bool
is_negative x = leb sign_bit x

is_nan : Double → Bool
unfolding magnitude
is_nan x = ltb infinity (magnitude x)

-- Signs and magnitudes; the two zeros are equal, and a NaN is not comparable.
unfoldable pub double_lt : Double → Double → Bool
unfolding is_nan is_negative magnitude
double_lt x y =
    not (is_nan x)
    && not (is_nan y)
    && (if is_negative x
        then (if is_negative y
            then ltb (magnitude y) (magnitude x)
            else not (magnitude x == 0 && magnitude y == 0))
        else not (is_negative y) && ltb (magnitude x) (magnitude y))

abbrev pub zero_d : Double
zero_d = 0

abbrev pub one_d : Double
one_d = 0x3ff0_0000_0000_0000

-- std::clamp(value, 0.0, 1.0)
unfoldable pub clamp_unit : Double → Double
clamp_unit value =
    if double_lt value zero_d then zero_d else if double_lt one_d value then one_d else value

-- std::abs clears the sign.
unfoldable pub double_abs : Double → Double
unfolding magnitude
double_abs x = magnitude x

-- The arithmetic of doubles, of which the sources use the rounded results, and their conversions.
pub record DoubleOps : Type 0 where
  pub add : Double → Double → Double
  pub sub : Double → Double → Double
  pub mul : Double → Double → Double
  pub div : Double → Double → Double
  -- std::sqrt
  pub sqrt : Double → Double
  -- static_cast<double> of a whole number
  pub of_int : ℤ → Double
  -- static_cast<float>
  pub to_float : Double → Float
  -- the text that a stream prints
  pub to_string : Double → Text

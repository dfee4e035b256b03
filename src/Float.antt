-- ===== src/Float.antt =====
-- `float` as an IEEE 754 binary32 bit pattern, below 2^32, with the comparisons of the source.
use intent_execution_layer.Common.{ℕ, ◌%◌, Bool, not, ◌&&◌, ltb, leb, ◌==◌, if◌then◌else◌, ℤ}

abbrev pub Float : Type 0
Float = ℕ

abbrev sign_bit : ℕ
sign_bit = 0x8000_0000

abbrev infinity : ℕ
infinity = 0x7f80_0000

pub magnitude : Float → ℕ
magnitude x = x % sign_bit

pub is_negative : Float → Bool
is_negative x = leb sign_bit x

pub is_nan : Float → Bool
unfolding magnitude
is_nan x = ltb infinity (magnitude x)

-- Signs and magnitudes; the two zeros are equal, and a NaN is not comparable.
unfoldable pub float_lt : Float → Float → Bool
unfolding is_nan is_negative magnitude
float_lt x y =
    not (is_nan x)
    && not (is_nan y)
    && (if is_negative x
        then (if is_negative y
            then ltb (magnitude y) (magnitude x)
            else not (magnitude x == 0 && magnitude y == 0))
        else not (is_negative y) && ltb (magnitude x) (magnitude y))

-- x == y
unfoldable pub float_eq : Float → Float → Bool
unfolding is_nan float_lt
float_eq x y = not (is_nan x) && not (is_nan y) && not (float_lt x y) && not (float_lt y x)

abbrev pub zero_f : Float
zero_f = 0

abbrev pub one_f : Float
one_f = 0x3f80_0000

-- x lies in [0,1], negative zero included, or is a NaN: what `x < 0 || x > 1` lets pass.
abbrev pub in_unit_range : Float → Bool
in_unit_range x = not (float_lt x zero_f) && not (float_lt one_f x)

unfoldable pub float_le : Float → Float → Bool
unfolding is_nan float_lt
float_le x y = not (is_nan x) && not (is_nan y) && not (float_lt y x)

-- The arithmetic of floats, of which the sources use the rounded results.
pub record FloatOps : Type 0 where
  pub add : Float → Float → Float
  pub sub : Float → Float → Float
  pub mul : Float → Float → Float
  pub div : Float → Float → Float
  pub exp : Float → Float
  -- static_cast<float> of a whole number
  pub of_int : ℤ → Float
  -- duration_cast<duration<float>> of a number of nanoseconds, in seconds
  pub seconds_of_ns : ℕ → Float

-- std::abs clears the sign.
unfoldable pub float_abs : Float → Float
unfolding magnitude
float_abs x = magnitude x

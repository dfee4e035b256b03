-- ===== src/Text/Number.antt =====
-- What the sources use of std::from_chars and std::to_string, in base ten, with ParseInt and
-- ParseUnsigned of core/execution/src/ActionSequence.cpp.
use intent_execution_layer.Common.{
  ℕ, zero, suc, ◌+◌, ◌-◌, ◌*◌, ◌/◌, ◌%◌, ◌<◌, ◌≤◌, ◌≡◌, refl, Bool, ◌&&◌, [], ◌∷◌, Option, none,
  some, arith, ltb, leb, ◌==◌, if◌then◌else◌, ℤ, pos, negsuc,
}
use intent_execution_layer.Text.{Text}

is_digit : ℕ → Bool
is_digit c = leb b'0' c && leb c b'9'

-- The number that the digits stand for, read on from `acc`; `none` at another byte.
digits_value : ℕ → Text → Option ℕ
unfolding is_digit
digits_value acc [] = some acc
digits_value acc (c ∷ s) =
    let rest = digits_value (acc * 10 + (c - b'0')) s in if is_digit c then rest else none

-- One digit at least.
magnitude_of : Text → Option ℕ
magnitude_of [] = none
magnitude_of (c ∷ s) = digits_value 0 (c ∷ s)

-- The value if it is at most the bound: from_chars reports result_out_of_range otherwise.
at_most : ℕ → Option ℕ → Option ℕ
at_most bound none = none
at_most bound (some n) = if leb n bound then some n else none

to_positive : Option ℕ → Option ℤ
to_positive none = none
to_positive (some n) = some (pos n)

to_negative : Option ℕ → Option ℤ
to_negative none = none
to_negative (some zero) = some (pos 0)
to_negative (some (suc n)) = some (negsuc n)

-- ParseInt: an `int` in decimal, with `-` as the only sign, and nothing behind it
unfoldable pub parse_int : Text → Option ℤ
unfolding digits_value magnitude_of at_most to_positive to_negative
parse_int [] = none
parse_int (c ∷ s) =
    if c == b'-'
    then to_negative (at_most 2_147_483_648 (magnitude_of s))
    else to_positive (at_most 2_147_483_647 (magnitude_of (c ∷ s)))

abbrev pub size_max : ℕ
size_max = 18_446_744_073_709_551_615

-- ParseUnsigned: a `std::size_t` of 64 bits in decimal
unfoldable pub parse_unsigned : Text → Option ℕ
unfolding digits_value magnitude_of at_most
parse_unsigned s = at_most size_max (magnitude_of s)

-- The digits of `n` before `acc`; the fuel bounds their number.
decimal_from : ℕ → ℕ → Text → Text
decimal_from zero n acc = acc
decimal_from (suc fuel) n acc =
    let rest = decimal_from fuel (n / 10) ((n % 10 + b'0') ∷ acc) in
    if ltb n 10 then (n % 10 + b'0') ∷ acc else rest

-- std::to_string of an unsigned number. A number has no more digits than its value plus one.
unfoldable pub to_decimal : ℕ → Text
unfolding decimal_from
to_decimal n = decimal_from (suc n) n []

digits_value-decimal_from :
    (fuel n : ℕ) (acc : Text)
    → n < fuel
    → digits_value 0 (decimal_from fuel n acc) ≡ digits_value n acc
unfolding digits_value decimal_from
digits_value-decimal_from zero n acc h = elim h [ ]
digits_value-decimal_from (suc fuel) n acc h =
    ground (arith, digits_value-decimal_from fuel (n / 10) ((n % 10 + b'0') ∷ acc))

magnitude_of-cons : (c : ℕ) (s : Text) → magnitude_of (c ∷ s) ≡ digits_value 0 (c ∷ s)
unfolding magnitude_of
magnitude_of-cons c s = refl

decimal_from-cons :
    (fuel n c : ℕ) (acc : Text)
    → magnitude_of (decimal_from fuel n (c ∷ acc)) ≡ digits_value 0 (decimal_from fuel n (c ∷ acc))
unfolding decimal_from
decimal_from-cons zero n c acc = magnitude_of-cons c acc
decimal_from-cons (suc fuel) n c acc = ground (
  arith,
  magnitude_of-cons ((n % 10) + b'0') (c ∷ acc),
  decimal_from-cons fuel (n / 10) ((n % 10) + b'0') (c ∷ acc),
)

magnitude_of-to_decimal : (n : ℕ) → magnitude_of (to_decimal n) ≡ digits_value 0 (to_decimal n)
unfolding to_decimal
magnitude_of-to_decimal n = ground (
  arith,
  magnitude_of-cons ((n % 10) + b'0') [],
  decimal_from-cons n (n / 10) ((n % 10) + b'0') [],
)

digits_value-to_decimal : (n : ℕ) → digits_value 0 (to_decimal n) ≡ some n
unfolding to_decimal digits_value
digits_value-to_decimal n = digits_value-decimal_from (suc n) n [] (omega arith)

-- Reading back a printed number gives the number, if a `std::size_t` holds it.
pub parse_unsigned-to_decimal : (n : ℕ) → n ≤ size_max → parse_unsigned (to_decimal n) ≡ some n
unfolding parse_unsigned
parse_unsigned-to_decimal n h =
    rw (magnitude_of-to_decimal n, digits_value-to_decimal n) (ground arith)

-- A parsed `std::size_t` is in range.
pub parse_unsigned-le : (s : Text) (n : ℕ) → parse_unsigned s ≡ some n → n ≤ size_max
unfolding parse_unsigned
parse_unsigned-le s n h = ground arith

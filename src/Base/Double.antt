-- ===== src/Base/Double.antt =====
-- `double` values: the 64 bits of binary64, and what C does with the number in them.
use oteltracing_c.Base.{ℕ, ◌+◌, ◌*◌, ◌-◌, ◌/◌, ◌%◌, ◌^◌, Bool, true, false, ◌&&◌, not}
use oteltracing_c.Base.Tests.{ltb, leb, ◌==◌, if◌then◌else◌}

-- A number is `units` times 2^-1074, the least that a `double` can be; an infinity counts as the
-- number behind the largest.
pub data Double : Type 0 where
  nan : Double
  number : (negative : Bool) → (units : ℕ) → Double

-- The number in 64 bits: a sign, 11 bits of the exponent and 52 of the fraction.
unfoldable pub decode : (bits : ℕ) → Double
decode bits =
    let exponent = bits / 2 ^ 52 % 2 ^ 11 in
    let fraction = bits % 2 ^ 52 in
    if exponent == 2047 && not (fraction == 0)
    then nan
    else number (leb (2 ^ 63) bits)
        (if exponent == 0 then fraction else (2 ^ 52 + fraction) * 2 ^ (exponent - 1))

-- `x >= 1.0`
unfoldable pub at_least_one : Double → Bool
at_least_one nan = false
at_least_one (number true units) = false
at_least_one (number false units) = leb (2 ^ 1074) units

-- `x <= 0.0`
unfoldable pub at_most_zero : Double → Bool
at_most_zero nan = false
at_most_zero (number true units) = true
at_most_zero (number false units) = units == 0

-- `x * 18446744073709551616.0`, which is exact for a number below 1
unfoldable pub times_two_64 : Double → Double
times_two_64 nan = nan
times_two_64 (number negative units) = number negative (units * 2 ^ 64)

-- `(uint64_t) x` of a number that is not negative: its whole part. C leaves the rest undefined.
unfoldable pub to_uint64 : (undefined : ℕ) → Double → ℕ
to_uint64 undefined nan = undefined
to_uint64 undefined (number true units) = undefined
to_uint64 undefined (number false units) =
    let n = units / 2 ^ 1074 in if ltb n (2 ^ 64) then n else undefined

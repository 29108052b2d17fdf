-- ===== src/Random/Mult.antt =====
-- The limbs of `otel_random_next` compute the product modulo 2 ^ 128.
use oteltracing_c.Base.{ℕ, ◌+◌, ◌*◌, ◌/◌, ◌%◌, ◌^◌, ◌<◌, ◌≡◌, arith}
use oteltracing_c.Random.{RandomState, multiplier, next_hi, random_next}

-- the 128-bit state as one number
abbrev pub value : RandomState → ℕ
value s = s.lo + 2 ^ 64 * s.hi

-- The high word of the 128-bit product of the low word and the multiplier.
high_word :
    (lo : ℕ)
    → lo < 2 ^ 64
    → (lo / 2 ^ 32) * (multiplier / 2 ^ 32)
        + ((lo / 2 ^ 32) * (multiplier % 2 ^ 32) + (lo % 2 ^ 32) * (multiplier % 2 ^ 32) / 2 ^ 32)
          / 2 ^ 32
        + (((lo / 2 ^ 32) * (multiplier % 2 ^ 32) + (lo % 2 ^ 32) * (multiplier % 2 ^ 32) / 2 ^ 32)
              % 2 ^ 32
            + (lo % 2 ^ 32) * (multiplier / 2 ^ 32))
          / 2 ^ 32
      ≡ lo * multiplier / 2 ^ 64
high_word lo h = omega arith

next_hi_lem :
    (s : RandomState)
    → s.lo < 2 ^ 64
    → next_hi s ≡ (s.hi * multiplier + s.lo * multiplier / 2 ^ 64) % 2 ^ 64
unfolding next_hi
next_hi_lem s h = omega (arith, high_word s.lo h)

-- For a state of two 64-bit words, the state after random_next, read as one 128-bit number, is the
-- old one times the multiplier modulo 2^128, and the number returned is its high word.
pub random_next-value :
    (s : RandomState)
    → s.lo < 2 ^ 64
    → s.hi < 2 ^ 64
    → (value (random_next s).0 ≡ value s * multiplier % 2 ^ 128)
      × ((random_next s).1 ≡ value s * multiplier % 2 ^ 128 / 2 ^ 64)
unfolding random_next
random_next-value s l h = omega (arith, next_hi_lem s l)

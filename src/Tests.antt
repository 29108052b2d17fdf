-- ===== src/Tests.antt =====
-- Runs of the generator and of the big-endian words.
use oteltracing_c.Random.Mult.{value, random_next-value}
use oteltracing_c.Random.{RandomState, random_next, multiplier}
use oteltracing_c.Base.{◌≡◌, ◌*◌, ◌%◌, ◌/◌, ◌^◌, arith, ◌-◌}

abbrev state : RandomState
state = record { hi = 3; lo = 2 ^ 64 - 1 }

random_next-value_example :
    (value (random_next state).0 ≡ value state * multiplier % 2 ^ 128)
    × ((random_next state).1 ≡ value state * multiplier % 2 ^ 128 / 2 ^ 64)
random_next-value_example = random_next-value state (omega arith) (omega arith)

-- ===== src/Random.antt =====
-- `otel_random_next` of otel_random.h: a 128-bit multiplication done in 32-bit limbs.
pub mod Mult
use oteltracing_c.Base.{ℕ, ◌+◌, ◌*◌, ◌/◌, ◌%◌, ◌^◌}

-- `struct otel_random_state`
pub record RandomState : Type 0 where
  pub lo : ℕ
  pub hi : ℕ

abbrev pub multiplier : ℕ
multiplier = 0xda942042e4dd58b5

-- `uint64_t` arithmetic
abbrev pub add64 : ℕ → ℕ → ℕ
add64 a b = (a + b) % 2 ^ 64

abbrev pub mul64 : ℕ → ℕ → ℕ
mul64 a b = a * b % 2 ^ 64

-- The word that the C function leaves in `state->hi`.
unfoldable pub next_hi : RandomState → ℕ
next_hi state =
    let a0 = state.lo % 2 ^ 32 in
    let a1 = state.lo / 2 ^ 32 in
    let b0 = multiplier % 2 ^ 32 in
    let b1 = multiplier / 2 ^ 32 in
    let w0 = mul64 a0 b0 in
    let t = add64 (mul64 a1 b0) (w0 / 2 ^ 32) in
    let w1 = add64 (t % 2 ^ 32) (mul64 a0 b1) in
    let w2 = t / 2 ^ 32 in
    add64 (add64 (add64 (mul64 state.hi multiplier) (mul64 a1 b1)) w2) (w1 / 2 ^ 32)

-- `otel_random_next`: the new state, and the number returned
unfoldable pub random_next : RandomState → RandomState × ℕ
unfolding next_hi
random_next state = (record { lo = mul64 state.lo multiplier; hi = next_hi state }, next_hi state)

-- ===== src/Base/Int.antt =====
-- `int64_t` and `int` values: signed integers over the native numbers.
use Prim.Native.Nat.{ℕ, ◌-◌, ◌^◌}
use oteltracing_c.Base.Tests.{ltb, if◌then◌else◌}

-- `negsuc n` is -(n + 1).
pub data ℤ : Type 0 where
  pos : ℕ → ℤ
  negsuc : ℕ → ℤ

-- `(int64_t) u` of a `uint64_t`: two's complement.
unfoldable pub to_int64 : ℕ → ℤ
to_int64 u = if ltb u (2 ^ 63) then pos u else negsuc (2 ^ 64 - u - 1)

-- The `int` with these 32 bits.
unfoldable pub to_int : ℕ → ℤ
to_int u = if ltb u (2 ^ 31) then pos u else negsuc (2 ^ 32 - u - 1)

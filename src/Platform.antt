-- ===== src/Platform.antt =====
-- `otel_store_be32` and `otel_load_be32` of otel_platform.h.
use oteltracing_c.Base.{ℕ, ◌+◌, ◌*◌, ◌/◌, ◌%◌, ◌^◌, ◌<◌, ◌≡◌, arith}

-- four bytes, the most significant first
pub record Bytes4 : Type 0 where
  pub b0 : ℕ
  pub b1 : ℕ
  pub b2 : ℕ
  pub b3 : ℕ

unfoldable pub store_be32 : ℕ → Bytes4
store_be32 value = record {
  b0 = value / 2 ^ 24 % 256;
  b1 = value / 2 ^ 16 % 256;
  b2 = value / 2 ^ 8 % 256;
  b3 = value % 256;
}

-- The bytes lie in disjoint bits, so `|` is `+`.
unfoldable pub load_be32 : Bytes4 → ℕ
load_be32 bytes = bytes.b0 * 2 ^ 24 + bytes.b1 * 2 ^ 16 + bytes.b2 * 2 ^ 8 + bytes.b3

-- For a 32-bit value load_be32 of what store_be32 wrote is the value, and each of the four numbers
-- written is a byte.
pub load_be32-store_be32 :
    (value : ℕ)
    → value < 2 ^ 32
    → (load_be32 (store_be32 value) ≡ value)
      × ((store_be32 value).b0 < 256)
      × ((store_be32 value).b1 < 256)
      × ((store_be32 value).b2 < 256)
      × ((store_be32 value).b3 < 256)
unfolding load_be32 store_be32
load_be32-store_be32 value h = omega arith

-- For any four bytes store_be32 of what load_be32 reads from them writes the same four bytes.
pub store_be32-load_be32 :
    (b : Bytes4) → b.b0 < 256 → b.b1 < 256 → b.b2 < 256 → b.b3 < 256 → store_be32 (load_be32 b) ≡ b
unfolding load_be32 store_be32
store_be32-load_be32 b h0 h1 h2 h3 =
    let s = store_be32 (load_be32 b) in
    let p0 : s.b0 ≡ b.b0 = omega arith in
    let p1 : s.b1 ≡ b.b1 = omega arith in
    let p2 : s.b2 ≡ b.b2 = omega arith in
    let p3 : s.b3 ≡ b.b3 = omega arith in λ i. record { b0 = p0 i; b1 = p1 i; b2 = p2 i; b3 = p3 i }

-- ===== src/Sqlite/Hex.antt =====
-- `otel_sqlite_hex` of otel_sqlite.c.
use oteltracing_c.Base.{
  ℕ, ◌+◌, ◌-◌, ◌*◌, ◌/◌, ◌%◌, ◌<◌, ◌≡◌, refl, ap₂, false, List, [], ◌∷◌, arith,
}
use oteltracing_c.Base.Tests.{◌==◌, ltb, if◌then◌else◌}
use oteltracing_c.Base.Lists.{length, All, c_string}

-- `hexd[n]`
abbrev pub hexd : ℕ → ℕ
hexd n = if ltb n 10 then 48 + n else 87 + n

-- `otel_sqlite_hex`, the characters before the closing NUL
unfoldable pub hex : List ℕ → List ℕ
hex [] = []
hex (b ∷ bs) = hexd (b / 16) ∷ hexd (b % 16) ∷ hex bs

-- the value of a hexadecimal digit, and the bytes that a text of such digits stands for
abbrev pub digit : ℕ → ℕ
digit c = if ltb c 58 then c - 48 else c - 87

unfoldable pub unhex : List ℕ → List ℕ
unhex [] = []
unhex (c ∷ []) = []
unhex (c ∷ d ∷ cs) = (digit c * 16 + digit d) ∷ unhex cs

digit-hexd : (n : ℕ) → n < 16 → digit (hexd n) ≡ n
digit-hexd n h = ground arith

digit_pair : (b : ℕ) → b < 256 → digit (hexd (b / 16)) * 16 + digit (hexd (b % 16)) ≡ b
digit_pair b h = omega (arith, digit-hexd (b / 16) (omega arith), digit-hexd (b % 16) (omega arith))

hexd-ne : (n : ℕ) → (hexd n == 0) ≡ false
hexd-ne n = ground arith

-- For any bytes, hex gives a text with two digits for each byte and no zero byte in it, from which
-- the bytes are read back.
pub unhex-hex :
    (bs : List ℕ)
    → All (λ b. b < 256) bs
    → (unhex (hex bs) ≡ bs) × (length (hex bs) ≡ 2 * length bs) × (c_string (hex bs) ≡ hex bs)
unfolding hex unhex c_string
unhex-hex [] h = (refl, refl, refl)
unhex-hex (b ∷ bs) h =
    let (r, n, s) = unhex-hex bs h.1 in
    (
      ap₂ ◌∷◌ (digit_pair b h.0) r,
      omega (arith, n),
      rw (hexd-ne (b / 16), hexd-ne (b % 16), s) refl,
    )

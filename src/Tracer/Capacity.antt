-- ===== src/Tracer/Capacity.antt =====
-- `otel_set_ring_capacity` of oteltracing.c: the least power of two that is enough.
use oteltracing_c.Base.{
  ℕ, zero, suc, ◌+◌, ◌*◌, ◌%◌, ◌^◌, ◌≤◌, ◌<◌, ◌≡◌, refl, Option, none, some, arith, true, false,
  inl, inr,
}
use native.Mathlib.Nat.{pow-suc, pow-le-pow_right}
use oteltracing_c.Base.Tests.{ltb, lt→ltb, Bool-cases, if◌then◌else◌, Bool-cases}

-- `while (cap < spans) cap <<= 1;` on a 32-bit `cap`; `none` when the fuel is used up.
unfoldable pub double_until : ℕ → ℕ → ℕ → Option ℕ
double_until zero cap spans = none
double_until (suc f) cap spans =
    let rest = double_until f (cap * 2 % 2 ^ 32) spans in if ltb cap spans then rest else some cap

-- `otel_set_ring_capacity`, the new capacity
unfoldable pub set_ring_capacity : ℕ → ℕ → Option ℕ
set_ring_capacity fuel spans = double_until fuel 1 (if ltb spans 2 then 2 else spans)

-- A power of two from 2 to 2 ^ 31, no less than `spans` and below its double, or 2.
pub record IsCapacity (spans cap : ℕ) : Type 0 where
  pub exponent : ℕ
  pub power : cap ≡ 2 ^ exponent
  pub bounds : (1 ≤ exponent) × (exponent ≤ 31)
  pub enough : spans ≤ cap
  pub least : (cap < 2 * spans) × (2 ≤ cap)

below_31 : (k : ℕ) → 2 ^ k < 2 ^ 31 → k < 31
below_31 k h = elim (Bool-cases (ltb k 31)) [
  | inl small ↦ ground arith
  | inr large ↦
      let e : 2 ^ 31 ≤ 2 ^ k = pow-le-pow_right (omega arith) {i = 31} (ground arith) in
      absurd (omega arith)
]

above_0 : (k : ℕ) → 2 ≤ 2 ^ k → 1 ≤ k
above_0 zero h = absurd (omega arith)
above_0 (suc k) h = omega arith

double_until-IsCapacity :
    (f k spans : ℕ)
    → 2 ≤ spans
    → spans ≤ 2 ^ 31
    → k ≤ 31
    → 31 < f + k
    → 2 ^ k < 2 * spans
    → (cap : ℕ) × (double_until f (2 ^ k) spans ≡ some cap) × IsCapacity spans cap
unfolding double_until
double_until-IsCapacity zero k spans low high e h b = absurd (omega arith)
double_until-IsCapacity (suc f) k spans low high e h b = elim (Bool-cases (ltb (2 ^ k) spans)) [
  | inl more ↦
      let below : 2 ^ k < spans = ground arith in
      let small : k < 31 = below_31 k (omega arith) in
      let twice : 2 ^ suc k ≡ 2 ^ k * 2 = pow-suc 2 k in
      let next : 2 ^ k * 2 % 2 ^ 32 ≡ 2 ^ suc k = omega (arith, twice) in
      rw (more, next)
        (double_until-IsCapacity f (suc k) spans low high small (omega arith)
          (omega (arith, twice)))
  | inr done ↦
      let reached : spans ≤ 2 ^ k = ground arith in
      let power : 2 ≤ 2 ^ k = omega (arith, reached) in
      rw done (
        2 ^ k,
        refl,
        record {
          exponent = k;
          power = refl;
          bounds = (above_0 k power, e);
          enough = reached;
          least = (b, power);
        },
      )
]

-- For at most 2^31 spans and fuel of 32 or more, set_ring_capacity ends, and the capacity is a
-- power of two from 2 to 2^31 that is no less than the spans, or than 2 if fewer are asked for,
-- and less than the double of that.
pub set_ring_capacity-IsCapacity :
    (fuel spans : ℕ)
    → spans ≤ 2 ^ 31
    → 31 < fuel
    → (cap : ℕ) × (set_ring_capacity fuel spans ≡ some cap)
      × IsCapacity (if ltb spans 2 then 2 else spans) cap
unfolding set_ring_capacity
set_ring_capacity-IsCapacity fuel spans high h = elim (Bool-cases (ltb spans 2)) [
  | inl few ↦ rw few (
      double_until-IsCapacity fuel 0 2 (omega arith) (omega arith) (omega arith) (omega arith)
        (omega arith))
  | inr many ↦
      let low : 2 ≤ spans = ground arith in
      rw many
        (double_until-IsCapacity fuel 0 spans low high (omega arith) (omega arith) (omega arith))
]

-- From 2 ^ 31 + 1 spans on the doubled capacity wraps to 0 and the loop never ends.
double_until-stuck :
    (f cap spans : ℕ) → 2 ^ 31 < spans → (cap ≡ 0) → double_until f cap spans ≡ none
unfolding double_until
double_until-stuck zero cap spans h e = refl
double_until-stuck (suc f) cap spans h e =
    ground (arith, double_until-stuck f (cap * 2 % 2 ^ 32) spans h (omega arith))

-- one round of the loop as long as a power of two is not enough
double_until-diverges :
    (f k spans : ℕ) → 2 ^ 31 < spans → k ≤ 31 → double_until f (2 ^ k) spans ≡ none
unfolding double_until
double_until-diverges zero k spans h e = refl
double_until-diverges (suc f) k spans h e =
    let bound : 2 ^ k ≤ 2 ^ 31 = pow-le-pow_right (omega arith) e in
    let more : ltb (2 ^ k) spans ≡ true = lt→ltb _ _ (omega arith) in
    elim (Bool-cases (ltb k 31)) [
      | inl small ↦
          let fits : 2 ^ suc k ≤ 2 ^ 31 = pow-le-pow_right (omega arith) {j = 31} (ground arith) in
          let next : 2 ^ k * 2 % 2 ^ 32 ≡ 2 ^ suc k = omega (arith, pow-suc 2 k) in
          rw (more, next) (double_until-diverges f (suc k) spans h (ground arith))
      | inr last ↦
          let at : k ≡ 31 = ground arith in
          rw more (double_until-stuck f (2 ^ k * 2 % 2 ^ 32) spans h (rw at refl))
    ]

-- For more than 2^31 spans the loop of set_ring_capacity does not end: no fuel gives a result.
pub set_ring_capacity-diverges :
    (fuel spans : ℕ) → 2 ^ 31 < spans → set_ring_capacity fuel spans ≡ none
unfolding set_ring_capacity
set_ring_capacity-diverges fuel spans h =
    let many : ltb spans 2 ≡ false = ground arith in
    rw many (double_until-diverges fuel 0 spans h (omega arith))

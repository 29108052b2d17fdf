-- ===== src/Tracer/Sampler.antt =====
-- `otel_set_sampler` of oteltracing.c and what it does to root spans.
use oteltracing_c.Base.{
  inl, inr, ℕ, ◌+◌, ◌*◌, ◌/◌, ◌-◌, ◌<◌, ◌^◌, ◌≡◌, refl, ap, ◌∙◌, Bool, true, false, not, ◌&&◌, ◌||◌,
  Option, some, List, arith,
}
use oteltracing_c.Base.Double.{number, decode, at_least_one, at_most_zero, times_two_64, to_uint64}
use oteltracing_c.Base.Tests.{if_ind, ltb, leb, ◌==◌, if◌then◌else◌, Bool-cases}
use oteltracing_c.Random.{RandomState, random_next, next_hi}
use oteltracing_c.Span.{Span, recording}
use oteltracing_c.Span.Start.{Sampling, span_start}
use oteltracing_c.Span.Start.Fresh.{span_start-recording}

-- `otel_set_sampler` of the `double` with these bits; `undefined` is what the conversion gives where
-- C leaves it undefined.
unfoldable pub set_sampler : (undefined bits : ℕ) → Sampling → Sampling
set_sampler undefined bits c =
    let ratio = decode bits in
    if at_least_one ratio
    then record c { sample_always = true; sample_threshold = 2 ^ 64 - 1 }
    else if at_most_zero ratio
    then record c { sample_always = false; sample_threshold = 0 }
    else record c {
      sample_always = false;
      sample_threshold = to_uint64 undefined (times_two_64 ratio);
    }

-- the test that a start makes
abbrev sampled : Sampling → ℕ → Bool
sampled c r = c.sample_always || ltb r c.sample_threshold

next_hi_lem : (g : RandomState) → next_hi g < 2 ^ 64
unfolding next_hi
next_hi_lem g = omega arith

random_next-bound : (g : RandomState) → (random_next g).1 < 2 ^ 64
unfolding random_next
random_next-bound g = next_hi_lem g

-- What the sampler admits of a ratio of so many units.
set_sampler-sampled :
    (undefined bits : ℕ) (negative : Bool) (units : ℕ)
    → decode bits ≡ number negative units
    → (c : Sampling) (r : ℕ) → r < 2 ^ 64
    → sampled (set_sampler undefined bits c) r
      ≡ (not negative && leb ((r + 1) * 2 ^ 1074) (units * 2 ^ 64))
unfolding set_sampler at_least_one at_most_zero times_two_64 to_uint64
set_sampler-sampled undefined bits true units e c r h = rw e (ground arith)
set_sampler-sampled undefined bits false units e c r h = elim (Bool-cases (leb (2 ^ 1074) units)) [
  | inl one ↦ rw (e, one) (ground arith)
  | inr less ↦ elim (Bool-cases (units == 0)) [
    | inl zero ↦ rw (e, less, zero) (ground arith)
    | inr positive ↦
        let fits : ltb (units * 2 ^ 64 / 2 ^ 1074) (2 ^ 64) ≡ true = ground arith in
        rw (e, less, positive, fits) (ground arith)
  ]
]

set_sampler-enabled :
    (undefined bits : ℕ) (c : Sampling) → (set_sampler undefined bits c).enabled ≡ c.enabled
unfolding set_sampler
set_sampler-enabled undefined bits c =
    if_ind (λ (x : Sampling). x.enabled ≡ c.enabled) (at_least_one (decode bits)) (λ one. refl)
      (λ less.
        if_ind (λ (x : Sampling). x.enabled ≡ c.enabled) (at_most_zero (decode bits)) (λ zero. refl)
          (λ positive. refl))

-- Let the bits of the ratio be those of a double that is no NaN, and let r be the number that the
-- generator of a registered thread draws next. Then after set_sampler with this ratio, whatever a
-- conversion that C leaves undefined gives, a root span on that thread is recording exactly when
-- tracing is enabled and r + 1 is at most 2^64 times the ratio; the ratio is its units times
-- 2^-1074, or minus that where it is negative.
pub set_sampler-recording :
    (undefined bits : ℕ) (negative : Bool) (units : ℕ)
    → decode bits ≡ number negative units
    → (c : Sampling) (g : RandomState) (s : Span) (name : Option (List ℕ)) (kind now : ℕ)
    → recording (span_start (set_sampler undefined bits c) (some g) s name kind now).0
      ≡ (c.enabled && (not negative && leb (((random_next g).1 + 1) * 2 ^ 1074) (units * 2 ^ 64)))
set_sampler-recording undefined bits negative units e c g s name kind now =
    let c' = set_sampler undefined bits c in
    let r = (random_next g).1 in
    span_start-recording c' g s name kind now
    ∙ ap (λ b. b && sampled c' r) (set_sampler-enabled undefined bits c)
    ∙ ap (λ b. c.enabled && b)
        (set_sampler-sampled undefined bits negative units e c r (random_next-bound g))

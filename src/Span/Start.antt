-- ===== src/Span/Start.antt =====
-- Starting a span: `otel_span_init` and the three `otel_span_start_*_` of oteltracing.c, with their
-- wrappers in oteltracing.h.
pub mod Fresh
use oteltracing_c.Base.{
  ℕ, zero, suc, ◌/◌, ◌%◌, Bool, not, ◌&&◌, ◌||◌, Option, none, some, List, [], ◌∷◌, ◌++◌,
}
use oteltracing_c.Base.Tests.{leb, ltb, ◌==◌, if◌then◌else◌}
use oteltracing_c.Span.{Span, nil, recording}
use oteltracing_c.Span.Arena.{put}
use oteltracing_c.Random.{RandomState, random_next}

-- `otel_span_init` up to the copy of the name; the bytes of the arena stay as they are.
abbrev pub reset : Span → ℕ → ℕ → Span
reset s kind now = record s {
  kind = kind;
  status = 0;
  status_message = nil;
  num_attrs = 0;
  num_events = 0;
  dropped_attrs = 0;
  dropped_events = 0;
  end_unix_ns = 0;
  start_unix_ns = now;
  flags = 1;
  arena_used = 0;
  attr_head = nil;
  attr_tail = nil;
  event_head = nil;
  event_tail = nil;
}

-- `otel_span_init`; `now` is what the clock returns.
unfoldable pub span_init : Span → Option (List ℕ) → ℕ → ℕ → Span
span_init s name kind now = let (s', off) = put (reset s kind now) name in record s' { name = off }

-- The bytes of a `uint64_t` in memory, on a little-endian machine.
unfoldable pub le_bytes : ℕ → ℕ → List ℕ
le_bytes zero r = []
le_bytes (suc n) r = (r % 256) ∷ le_bytes n (r / 256)

-- What the start of a span reads of the tracer: the sampler, and `otel_enabled_`.
pub record Sampling : Type 0 where
  pub enabled : Bool
  pub sample_always : Bool
  pub sample_threshold : ℕ

-- The generator of the calling thread, `none` where it is not registered.
abbrev pub Thread : Type 0
Thread = Option RandomState

abbrev pub off : Span → Span
off s = record s { flags = 0 }

-- The identifiers of a new trace: three numbers of the generator.
abbrev pub new_trace : Span → RandomState → Span × RandomState
new_trace s g =
    let (g1, r1) = random_next g in
    let (g2, r2) = random_next g1 in
    let (g3, r3) = random_next g2 in
    (record s { trace_id = le_bytes 8 r1 ++ le_bytes 8 r2; span_id = r3; parent_id = 0 }, g3)

-- `otel_span_start_root_`: the generator is drawn once more when a ratio is configured.
unfoldable pub start_root : Sampling → Thread → Span → Option (List ℕ) → ℕ → ℕ → Span × Thread
start_root c none s name kind now = (off s, none)
start_root c (some g) s name kind now =
    let (g', r) = random_next g in
    let h = if c.sample_always then g else g' in
    let (s', g3) = new_trace s h in
    if not c.sample_always && leb c.sample_threshold r
    then (off s, some g')
    else (span_init s' name kind now, some g3)

-- `otel_span_start`
unfoldable pub span_start : Sampling → Thread → Span → Option (List ℕ) → ℕ → ℕ → Span × Thread
span_start c t s name kind now =
    let r = start_root c t s name kind now in if c.enabled then r else (off s, t)

-- the end of `otel_span_start_child_` and `otel_span_start_remote_`
abbrev pub start_in :
    Thread → Span → Option (List ℕ) → ℕ → ℕ → (trace_id : List ℕ) (parent_id : ℕ) → Span × Thread
start_in none s name kind now trace_id parent_id = (off s, none)
start_in (some g) s name kind now trace_id parent_id =
    let (g', r) = random_next g in
    (
      span_init (record s { trace_id = trace_id; span_id = r; parent_id = parent_id }) name kind
          now,
      some g',
    )

-- `otel_span_start_child`; the parent is `none` for NULL.
unfoldable pub span_start_child :
    Thread → Span → Option (List ℕ) → ℕ → ℕ → Option Span → Span × Thread
span_start_child t s name kind now none = (off s, t)
span_start_child t s name kind now (some parent) =
    let r = start_in t s name kind now parent.trace_id parent.span_id in
    if recording parent then r else (off s, t)

-- `otel_span_start_remote`
unfoldable pub span_start_remote :
    Sampling
    → Thread
    → Span
    → Option (List ℕ)
    → ℕ
    → ℕ
    → (trace_id : List ℕ) (parent_id : ℕ) → Bool
    → Span × Thread
span_start_remote c t s name kind now trace_id parent_id sampled =
    let r = start_in t s name kind now trace_id parent_id in
    if not c.enabled || not sampled then (off s, t) else r

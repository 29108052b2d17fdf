-- ===== src/Span/Start/Fresh.antt =====
-- A started span is empty, records, and belongs to its trace.
use oteltracing_c.Base.{
  ℕ, ◌≡◌, ◌<◌, ◌^◌, refl, true, false, not, Option, some, List, [], inl, inr, arith, ◌+◌, ◌&&◌, ap,
  ◌||◌, ◌%◌, ◌∙◌, sym,
}
use oteltracing_c.Base.Tests.{Bool-cases, ltb, leb, ◌==◌, if◌then◌else◌}
use oteltracing_c.Base.Lists.{strlen, c_string}
use oteltracing_c.Span.{Span, nil, span_arena, recording, text}
use oteltracing_c.Span.Arena.Alloc.{put-SameBut, rounded, IsAligned}
use oteltracing_c.Span.Chain.{empty}
use oteltracing_c.Span.View.{SpanView, IsSpan, absent}
use oteltracing_c.Span.View.Grow.{stored, refused, put_cases, IsSpan-with_cell}
use oteltracing_c.Span.Attrs.Texts.{with_name, stored_text}
use oteltracing_c.Random.{RandomState, random_next}
use oteltracing_c.Span.Start.{
  reset, span_init, Sampling, new_trace, off, span_start, start_root, span_start_child,
}

-- An empty span under a name.
abbrev pub fresh_view : List ℕ → SpanView
fresh_view name = record { name = name; message = []; attrs = []; events = [] }

reset-IsSpan :
    (own : ℕ → ℕ) (s : Span) (kind now : ℕ)
    → IsSpan own (record (reset s kind now) { name = nil }) (fresh_view [])
reset-IsSpan own s kind now = record {
  aligned = record { within = omega arith; aligned = refl };
  name = absent refl refl;
  message = absent refl refl;
  attrs = empty refl refl refl;
  events = empty refl refl refl;
  num_attrs = refl;
  num_events = refl;
  budget = omega arith;
  weight = omega arith;
}

-- the name that fits into an empty arena
abbrev pub first_name : List ℕ → List ℕ
first_name bs = if ltb span_arena (rounded (strlen bs + 1)) then [] else c_string bs

-- For a name shorter than 2^62 bytes, span_init of any span, whatever its arena held, leaves a
-- span that holds no attributes and no events, no status message, and the name, or "" when the
-- name is too long for an empty arena.
pub span_init-IsSpan :
    (own : ℕ → ℕ) (s : Span) (bs : List ℕ) (kind now : ℕ)
    → strlen bs < 2 ^ 62
    → IsSpan own (span_init s (some bs) kind now) (fresh_view (first_name bs))
unfolding span_init
span_init-IsSpan own s bs kind now small =
    let v = reset-IsSpan own s kind now in
    let aligned : IsAligned (reset s kind now) = record { within = omega arith; aligned = refl } in
    elim (put_cases bs aligned small) [
      | stored fits e ↦
          let w = IsSpan-with_cell v (strlen bs + 1) (text (c_string bs)) fits in
          let whole : ltb span_arena (rounded (strlen bs + 1)) ≡ false = ground arith in
          rw (e, whole) (with_name w 0 (c_string bs) (omega arith) (stored_text v bs))
      | refused over e ↦
          let gone : ltb span_arena (rounded (strlen bs + 1)) ≡ true = ground arith in
          rw (e, gone) v
    ]

-- what `otel_span_init` keeps of the span, and what it sets
pub span_init_fields :
    (s : Span) (name : Option (List ℕ)) (kind now : ℕ)
    → let s' = span_init s name kind now in
      (s'.trace_id ≡ s.trace_id)
      × (s'.span_id ≡ s.span_id)
      × (s'.parent_id ≡ s.parent_id)
      × (recording s' ≡ true)
unfolding span_init recording
span_init_fields s name kind now =
    let e = put-SameBut (reset s kind now) name in
    (
      ap (λ (x : Span). x.trace_id) e,
      ap (λ (x : Span). x.span_id) e,
      ap (λ (x : Span). x.parent_id) e,
      ap (λ (x : Span). not (x.flags % 2 == 0)) e,
    )

off-recording : (s : Span) → recording (off s) ≡ false
unfolding recording
off-recording s = refl

-- On a registered thread a span that was started as a root is recording exactly when tracing is
-- enabled and either every trace is sampled or the number that the generator of the thread draws
-- is below the threshold.
pub span_start-recording :
    (c : Sampling) (g : RandomState) (s : Span) (name : Option (List ℕ)) (kind now : ℕ)
    → recording (span_start c (some g) s name kind now).0
      ≡ (c.enabled && (c.sample_always || ltb (random_next g).1 c.sample_threshold))
unfolding span_start start_root
span_start-recording c g s name kind now =
    let (_, _, _, live) =
      span_init_fields (new_trace s (if c.sample_always then g else (random_next g).0)).0 name kind
        now in
    elim (Bool-cases c.enabled) [
      | inr e ↦ rw e (off-recording s)
      | inl e ↦ elim (Bool-cases c.sample_always) [
        | inl a ↦ rw (e, a) (rw a at live)
        | inr a ↦ elim (Bool-cases (leb c.sample_threshold (random_next g).1)) [
          | inl h ↦
              let below : ltb (random_next g).1 c.sample_threshold ≡ false = ground arith in
              rw (e, a, h) (off-recording s ∙ sym below)
          | inr h ↦
              let below : ltb (random_next g).1 c.sample_threshold ≡ true = ground arith in
              rw (e, a, h) (rw a at live ∙ sym below)
        ]
      ]
    ]

-- On a registered thread a child span is recording exactly when its parent is; and if the parent
-- is, the child has the trace identifier of the parent and the span identifier of the parent as
-- its parent identifier.
pub span_start_child-recording :
    (g : RandomState) (s : Span) (name : Option (List ℕ)) (kind now : ℕ) (parent : Span)
    → let s' = (span_start_child (some g) s name kind now (some parent)).0 in
      (recording s' ≡ recording parent)
      × (recording parent ≡ true
          → (s'.trace_id ≡ parent.trace_id) × (s'.parent_id ≡ parent.span_id))
unfolding span_start_child
span_start_child-recording g s name kind now parent =
    let started = record s {
      trace_id = parent.trace_id;
      span_id = (random_next g).1;
      parent_id = parent.span_id;
    } in
    let (trace, _, above, live) = span_init_fields started name kind now in
    elim (Bool-cases (recording parent)) [
      | inl e ↦ rw e (live, λ _. (trace, above))
      | inr e ↦ (rw e (off-recording s), λ h. ground arith)
    ]

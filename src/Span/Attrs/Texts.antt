-- ===== src/Span/Attrs/Texts.antt =====
-- `otel_span_set_name` and `otel_span_set_status`.
use oteltracing_c.Base.Tests.{if◌then◌else◌, ltb, ◌==◌, lt→ltb}
use oteltracing_c.Base.{ℕ, ◌≡◌, some, List, arith, true, ◌+◌, ◌<◌, ◌≤◌, ◌^◌, false}
use oteltracing_c.Base.Lists.{strlen, c_string, c_string_idem}
use oteltracing_c.Span.{Span, text, span_arena, recording, nil}
use oteltracing_c.Span.Arena.Alloc.{rounded}
use oteltracing_c.Span.View.{SpanView, IsSpan, IsStr, present, size}
use oteltracing_c.Span.View.Grow.{with_cell, stored, refused, put_cases, IsSpan-with_cell}
use oteltracing_c.Span.Attrs.{set_name}

-- What the arena takes of a C string: all, or nothing.
abbrev pub shown : Span → List ℕ → List ℕ → List ℕ
shown s bs other =
    if ltb span_arena (s.arena_used + rounded (strlen bs + 1)) then other else c_string bs

module _ {own : ℕ → ℕ} {s : Span} {m : SpanView} (v : IsSpan own s m) where
  pub with_name :
      (off : ℕ) (bs : List ℕ)
      → size (record m { name = bs }) ≤ s.arena_used
      → IsStr s.arena s.arena_used off bs
      → IsSpan own (record s { name = off }) (record m { name = bs })
  with_name off bs fits n = record {
    aligned = record { within = v.aligned.within; aligned = v.aligned.aligned };
    name = n;
    message = v.message;
    attrs = v.attrs;
    events = v.events;
    num_attrs = v.num_attrs;
    num_events = v.num_events;
    budget = v.budget;
    weight = fits;
  }

  pub stored_text :
      (bs : List ℕ)
      → IsStr
          (with_cell s (strlen bs + 1) (text (c_string bs))).arena
          (with_cell s (strlen bs + 1) (text (c_string bs))).arena_used
          s.arena_used
          (c_string bs)
  stored_text bs = present (record {
    raw = c_string bs;
    cell = ground arith;
    shown = c_string_idem bs;
    region = omega arith;
  })

module _ {own : ℕ → ℕ} {s : Span} {m : SpanView} (v : IsSpan own s m)
    (live : recording s ≡ true) where
  -- If a recording span holds m and the new name is shorter than 2^62 bytes, then after set_name
  -- the span holds m with the new name, or with its old one when the new name does not fit into
  -- the arena.
  pub set_name-IsSpan :
      (bs : List ℕ)
      → strlen bs < 2 ^ 62
      → IsSpan own (set_name s (some bs)) (record m { name = shown s bs m.name })
  unfolding set_name
  set_name-IsSpan bs small = elim (put_cases bs v.aligned small) [
    | stored fits e ↦
        let w = IsSpan-with_cell v (strlen bs + 1) (text (c_string bs)) fits in
        let used : (s.arena_used == nil) ≡ false = ground (arith, v.aligned.within) in
        let kept : ltb span_arena (s.arena_used + rounded (strlen bs + 1)) ≡ false = ground arith in
        rw (e, live, used, kept)
          (with_name w s.arena_used (c_string bs) (omega (arith, v.weight)) (stored_text v bs))
    | refused over e ↦ rw (e, live, lt→ltb _ _ over) v
  ]

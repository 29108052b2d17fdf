-- ===== src/Span/Events/Append.antt =====
-- `otel_span_event` appends an event, or drops and counts it.
use oteltracing_c.Base.{
  ℕ, ◌+◌, ◌≤◌, ◌<◌, ◌≡◌, refl, Option, none, some, List, [], true, false, arith, ◌^◌,
}
use oteltracing_c.Base.Tests.{ltb, lt→ltb, if◌then◌else◌, ◌==◌}
use oteltracing_c.Base.Lists.{length, strlen, c_string}
use oteltracing_c.Span.{Span, text, event, nil, span_arena, change, recording, Arena}
use oteltracing_c.Span.Arena.{put, store}
use oteltracing_c.Span.Arena.Alloc.{rounded, alloc_fits, alloc_full}
use oteltracing_c.Span.Attrs.Texts.{shown, stored_text}
use oteltracing_c.Span.View.{absent, SpanView, IsSpan, IsStr, size}
use oteltracing_c.Span.View.Grow.{Fits, with_cell, stored, refused, put_cases, IsSpan-with_cell}
use oteltracing_c.Span.View.Events.{
  linked_event, with_event, LinkedEvent, IsSpan-with_event, add_event_view, bare_event,
  event_tail_in,
}
use oteltracing_c.Span.Attrs.{saturate}
use oteltracing_c.Span.Attrs.Dropped.{IsSpan-counters}
use oteltracing_c.Span.Events.{span_event, span_event_slow, link_event, new_event}

abbrev relink : Arena → ℕ → ℕ → Arena
relink mem tail r = if tail == nil then mem else change mem tail (linked_event r)

-- `t` is `s` after its name was stored, at `noff`.
module _ {own : ℕ → ℕ} (s : Span) {t : Span} {m : SpanView} (v : IsSpan own t m)
    (name : Option (List ℕ)) {noff : ℕ} (now : ℕ) {bs : List ℕ} (named : put s name ≡ (t, noff))
    (is : IsStr t.arena t.arena_used noff bs) (fits : size m + length bs ≤ t.arena_used) where
  abbrev event_mem : Arena
  event_mem = relink (with_cell t 24 (event (new_event noff now))).arena t.event_tail t.arena_used

  span_event_slow_made :
      Fits t 24
      → span_event_slow s name now
        ≡ (with_event t event_mem (t.arena_used + 24) t.arena_used, some t.arena_used)
  unfolding span_event_slow link_event store
  span_event_slow_made room =
      rw (named, alloc_fits 24 v.aligned (omega arith) room) (ground (arith, v.aligned.within))

  event_mem-LinkedEvent :
      Fits t 24 → LinkedEvent t m event_mem (t.arena_used + 24) t.arena_used (new_event noff now) bs
  event_mem-LinkedEvent room = record {
    below = λ o h. ground arith;
    cell = ground (arith, event_tail_in v.events);
    next = refl;
    bare = (refl, refl, refl, refl);
    fresh = omega arith;
    region = omega arith;
    within = omega arith;
    aligned = omega (arith, v.aligned.aligned);
    name = is;
    weight = omega (arith, fits);
  }

  pub span_event_slow-Fits :
      Fits t 24
      → IsSpan own
          (span_event_slow s name now).0
          (add_event_view m (bare_event t.arena_used bs now))
        × ((span_event_slow s name now).1 ≡ some t.arena_used)
  span_event_slow-Fits room =
      rw (span_event_slow_made room) (IsSpan-with_event v (event_mem-LinkedEvent room), refl)

  pub span_event_slow-full :
      span_arena < t.arena_used + 24
      → IsSpan own (span_event_slow s name now).0 m
        × ((span_event_slow s name now).1 ≡ none)
        × ((span_event_slow s name now).0.dropped_events ≡ saturate t.dropped_events)
  unfolding span_event_slow
  span_event_slow-full over =
      rw (named, alloc_full 24 v.aligned (omega arith) (omega arith))
        (IsSpan-counters t.dropped_attrs (saturate t.dropped_events) v, refl, refl)

-- where `otel_span_event_` puts the record, if it fits
abbrev pub event_at : Span → List ℕ → ℕ
event_at s bs =
    let end = s.arena_used + rounded (strlen bs + 1) in
    if ltb span_arena end then s.arena_used else end

module _ {own : ℕ → ℕ} {s : Span} {m : SpanView} (v : IsSpan own s m) (bs : List ℕ) (now : ℕ)
    (live : recording s ≡ true) (small : strlen bs < 2 ^ 62) where
  span_event-slow : span_event s (some bs) now ≡ span_event_slow s (some bs) now
  unfolding span_event
  span_event-slow = rw live

  -- If a recording span holds m, the name is shorter than 2^62 bytes and there is room for the
  -- record behind it, then span_event appends one event to what the span holds, with the time
  -- given, no attributes, and the name, or "" when the name does not fit, and returns the offset
  -- of its record.
  pub span_event-append :
      event_at s bs + 24 ≤ span_arena
      → IsSpan own
          (span_event s (some bs) now).0
          (add_event_view m (bare_event (event_at s bs) (shown s bs []) now))
        × ((span_event s (some bs) now).1 ≡ some (event_at s bs))
  span_event-append room = elim (put_cases bs v.aligned small) [
    | stored fits e ↦
        let kept : ltb span_arena (s.arena_used + rounded (strlen bs + 1)) ≡ false = ground arith in
        let w = IsSpan-with_cell v (strlen bs + 1) (text (c_string bs)) fits in
        rw (span_event-slow, kept)
          (span_event_slow-Fits s w (some bs) now e (stored_text v bs) (omega (arith, v.weight))
            (rw kept at room))
    | refused over e ↦
        let gone = lt→ltb _ _ over in
        rw (span_event-slow, gone)
          (span_event_slow-Fits s v (some bs) now e (absent refl refl) (omega (arith, v.weight))
            (rw gone at room))
  ]

  -- If a recording span holds m, the name is shorter than 2^62 bytes and there is no room for the
  -- record of the event, then span_event returns no handle, leaves a span that still holds m, and
  -- counts one more dropped event (up to 255).
  pub span_event-drop :
      span_arena < event_at s bs + 24
      → IsSpan own (span_event s (some bs) now).0 m
        × ((span_event s (some bs) now).1 ≡ none)
        × ((span_event s (some bs) now).0.dropped_events ≡ saturate s.dropped_events)
  span_event-drop over = elim (put_cases bs v.aligned small) [
    | stored fits e ↦
        let kept : ltb span_arena (s.arena_used + rounded (strlen bs + 1)) ≡ false = ground arith in
        let w = IsSpan-with_cell v (strlen bs + 1) (text (c_string bs)) fits in
        rw span_event-slow (
          span_event_slow-full s w (some bs) now e (stored_text v bs) (omega (arith, v.weight))
            (rw kept at over))
    | refused gone e ↦ rw span_event-slow (
        span_event_slow-full s v (some bs) now e (absent refl refl) (omega (arith, v.weight))
          (rw (lt→ltb _ _ gone) at over))
  ]

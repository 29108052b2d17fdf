-- ===== src/Otlp/Spans.antt =====
-- `otlp_add_span` adds one span to the batch, inside its pools.
use oteltracing_c.Base.Tests.{if◌then◌else◌, ◌==◌, ltb}
use oteltracing_c.Base.{
  ℕ, ◌+◌, ◌≤◌, ◌<◌, ◌≡◌, refl, ap, ap₂, ◌∙◌, sym, List, [], ◌∷◌, ◌++◌, map, arith, none, some, ◌||◌,
}
use oteltracing_c.Base.Lists.{
  length, slice, slice-append, slice-length, length-append, length-map, All, All-map, All-append,
  All-slice, map-All,
}
use oteltracing_c.Span.{Span, Event}
use mathlib.Core.List.{append_assoc, map-append}
use oteltracing_c.Span.View.Events.{length-le-event_records}
use oteltracing_c.Span.View.{EventView, SpanView, IsSpan, records}
use oteltracing_c.Span.Read.{walk_attrs, walk_events, walk_fuel}
use oteltracing_c.Span.Read.Walk.{
  length-AllShow, walk_attrs-AllShow, AllShow, AllShowEvents, walk_events-AllShow,
}
use oteltracing_c.Otlp.{
  status_unset, status_ok, status_error, Slot, Rings, KeyValue, OtlpEvent, OtlpSpan, Pools, Otlp,
  strv, add_attr, batch_spans, batch_attrs, batch_events, otlp_kind,
}
use oteltracing_c.Otlp.Batch.{
  read_attr, read_event, read_span, pending, add_attrs, add_events, put_span, sum_event_attrs,
  is_full,
}
use oteltracing_c.Otlp.Encode.{read_attrs_shown, read_text-IsStr, span_msg, event_msg, attr_msg}
use oteltracing_c.Otlp.Events.{EventIn, event_attrs, Added, add_events-Added, read_event-append}

-- The slices of a span lie in the pools.
abbrev pub SpanIn : Pools → OtlpSpan → Type 0
SpanIn p sp =
    (sp.attributes + sp.n_attributes ≤ length p.attr) × (sp.events + sp.n_events ≤ length p.event)

-- The batch is inside its arrays, and so are the slices of all that is in it.
pub record IsBatch (o : Otlp) : Type 0 where
  pub spans_fit : length o.spans ≤ batch_spans
  pub attrs_fit : length o.pools.attr ≤ batch_attrs
  pub events_fit : length o.pools.event ≤ batch_events
  pub spans_in : All (SpanIn o.pools) o.spans
  pub events_in : All (EventIn (length o.pools.attr)) o.pools.event
  pub idle : length o.spans ≡ 0 → (length o.pools.attr ≡ 0) × (length o.pools.event ≡ 0)

-- Pools that grow leave the spans in the batch readable.
read_span-append :
    (rings : Rings) (p p' : Pools) (ys : List KeyValue) (evs : List OtlpEvent) (sp : OtlpSpan)
    → p'.attr ≡ p.attr ++ ys
    → p'.event ≡ p.event ++ evs
    → All (EventIn (length p.attr)) p.event
    → SpanIn p sp
    → read_span rings p' sp ≡ read_span rings p sp
read_span-append rings p p' ys evs sp ea ee inside h =
    let attributes =
      ap (λ pool. map (read_attr rings) (slice pool sp.attributes sp.n_attributes)) ea
      ∙ ap (map (read_attr rings)) (slice-append p.attr ys sp.attributes sp.n_attributes h.0) in
    let events =
      ap (λ es. map (read_event rings p'.attr) (slice es sp.events sp.n_events)) ee
      ∙ ap (map (read_event rings p'.attr)) (slice-append p.event evs sp.events sp.n_events h.1)
      ∙ ap (λ pool. map (read_event rings pool) (slice p.event sp.events sp.n_events)) ea
      ∙ read_event-append rings p.attr ys (slice p.event sp.events sp.n_events)
          (All-slice (EventIn (length p.attr)) p.event sp.events sp.n_events inside) in
    λ i. record (read_span rings p sp) { attributes = attributes i; events = events i }

length-AllShowEvents :
    (s : Span) (own : ℕ → ℕ) (hi : ℕ) (es : List Event) (vs : List EventView)
    → AllShowEvents s.arena own hi es vs
    → (length es ≡ length vs) × (sum_event_attrs es ≡ event_attrs vs)
unfolding sum_event_attrs
length-AllShowEvents s own hi [] [] h = (refl, refl)
length-AllShowEvents s own hi [] (v ∷ vs) h = absurd h
length-AllShowEvents s own hi (e ∷ es) [] h = absurd h
length-AllShowEvents s own hi (e ∷ es) (v ∷ vs) h =
    let rest = length-AllShowEvents s own hi es vs h.1 in
    (omega (arith, rest.0), omega (arith, rest.1, h.0.count))

module _ (rings : Rings) (o : Otlp) (slot : Slot) {own : ℕ → ℕ} {m : SpanView}
    (v : IsSpan own (rings slot) m) (batch : IsBatch o) where
  few : records m < 256
  few = omega (arith, v.budget, v.aligned.within)

  abbrev first : Pools
  first = add_attrs slot (walk_attrs walk_fuel (rings slot).arena (rings slot).attr_head) o.pools

  abbrev visited : List Event
  visited = walk_events walk_fuel (rings slot).arena (rings slot).event_head

  abbrev pools' : Pools
  pools' = add_events slot (rings slot) visited first

  -- what the first loop adds to the pool
  abbrev span_attrs : List KeyValue
  span_attrs = map (add_attr slot) (walk_attrs walk_fuel (rings slot).arena (rings slot).attr_head)

  shown :
      AllShow
        (rings slot).arena
        (rings slot).arena_used
        (walk_attrs walk_fuel (rings slot).arena (rings slot).attr_head)
        m.attrs
  shown = walk_attrs-AllShow walk_fuel v.aligned.within (omega (arith, few)) v.attrs

  shown_events : AllShowEvents (rings slot).arena own (rings slot).arena_used visited m.events
  shown_events =
      walk_events-AllShow walk_fuel v.aligned.within
        (omega (arith, few, length-le-event_records m.events)) v.events

  added : Added rings first pools' m.events
  added =
      add_events-Added rings slot own v.aligned.within visited m.events first (omega (arith, few))
        shown_events

  attr-pools : pools'.attr ≡ o.pools.attr ++ (span_attrs ++ added.ys)
  attr-pools = added.attr ∙ append_assoc o.pools.attr span_attrs added.ys

  length-span_attrs : length span_attrs ≡ length m.attrs
  length-span_attrs =
      length-map _ _ ∙ length-AllShow (rings slot).arena (rings slot).arena_used _ m.attrs shown

  -- the pools after the span, in numbers
  pools_grow :
      (length pools'.attr ≡ length o.pools.attr + length m.attrs + event_attrs m.events)
      × (length pools'.event ≡ length o.pools.event + length m.events)
  pools_grow = (
    omega (
      arith,
      ap length attr-pools,
      length-append o.pools.attr (span_attrs ++ added.ys),
      length-append span_attrs added.ys,
      length-span_attrs,
      added.attrs,
    ),
    omega (arith, ap length added.event, length-append o.pools.event added.evs, added.events),
  )

  abbrev new_span : OtlpSpan
  new_span =
      let s = rings slot in
      record {
        trace_id = slot;
        span_id = slot;
        parent_span_id = if s.parent_id == 0 then none else some slot;
        name = strv slot s.name;
        kind = otlp_kind s.kind;
        start_time_unix_nano = s.start_unix_ns;
        end_time_unix_nano = s.end_unix_ns;
        code =
            if s.status == 2
            then status_error
            else if s.status == 1
            then status_ok
            else status_unset;
        message = strv slot s.status_message;
        dropped_attributes_count = s.dropped_attrs;
        dropped_events_count = s.dropped_events;
        attributes = length o.pools.attr;
        n_attributes = length (walk_attrs walk_fuel s.arena s.attr_head);
        events = length o.pools.event;
        n_events = length visited;
      }

  put_span_lem :
      put_span rings o slot ≡ record o { pools = pools'; spans = o.spans ++ (new_span ∷ []) }
  unfolding put_span
  put_span_lem = refl

  read_attributes :
      map (read_attr rings) (
        slice pools'.attr
          (length o.pools.attr)
          (length (walk_attrs walk_fuel (rings slot).arena (rings slot).attr_head)))
      ≡ map attr_msg m.attrs
  read_attributes =
      let n =
        length-map (add_attr slot)
          (walk_attrs walk_fuel (rings slot).arena (rings slot).attr_head) in
      rw (← n) (
        ap (λ pool. map (read_attr rings) (slice pool (length o.pools.attr) (length span_attrs)))
          (added.attr)
        ∙ ap (map (read_attr rings)) (
            slice-append (o.pools.attr ++ span_attrs) added.ys (length o.pools.attr)
              (length span_attrs) (omega (arith, length-append o.pools.attr span_attrs))
            ∙ slice-length o.pools.attr span_attrs)
        ∙ read_attrs_shown rings slot v.aligned.within _ m.attrs shown)

  read_events :
      map
        (read_event rings pools'.attr)
        (slice pools'.event (length o.pools.event) (length visited))
      ≡ map event_msg m.events
  read_events =
      let n : length visited ≡ length added.evs =
        (length-AllShowEvents (rings slot) own (rings slot).arena_used visited m.events
          shown_events).0
        ∙ sym added.events in
      rw n (
        ap
          (λ es.
            map (read_event rings pools'.attr) (slice es (length o.pools.event) (length added.evs)))
          added.event
        ∙ ap (map (read_event rings pools'.attr)) (slice-length o.pools.event added.evs)
        ∙ added.reads)

  read_new_span : read_span rings pools' new_span ≡ span_msg (rings slot) m
  unfolding span_msg
  read_new_span =
      let s = rings slot in
      let within = v.aligned.within in
      let parent : (read_span rings pools' new_span).parent_span_id
          ≡ (if s.parent_id == 0 then none else some s.parent_id) =
        ground arith in
      let name = read_text-IsStr rings slot within v.name in
      let message = read_text-IsStr rings slot within v.message in
      λ i. record (span_msg s m) {
        parent_span_id = parent i;
        name = name i;
        message = message i;
        attributes = read_attributes i;
        events = read_events i;
      }

  -- With its pointers followed, the batch is what it was, and the span behind it.
  pub put_span-pending :
      pending rings (put_span rings o slot) ≡ pending rings o ++ (span_msg (rings slot) m ∷ [])
  put_span-pending = rw put_span_lem (
      map-append (read_span rings pools') o.spans (new_span ∷ [])
      ∙ ap₂ ◌++◌
          (map-All _ _ o.spans (
            All-map (SpanIn o.pools) _ o.spans
              (λ sp h.
                read_span-append rings o.pools pools' (span_attrs ++ added.ys) added.evs sp
                  attr-pools added.event batch.events_in h)
              batch.spans_in))
          (ap (λ x. x ∷ []) read_new_span))

  new_in : SpanIn pools' new_span
  new_in = (
    omega (
      arith,
      pools_grow,
      length-AllShow (rings slot).arena (rings slot).arena_used _ m.attrs shown,
    ),
    omega (
      arith,
      pools_grow,
      (length-AllShowEvents (rings slot) own (rings slot).arena_used visited m.events
          shown_events).0,
    ),
  )

  -- the test of `otlp_add_span`, in terms of what the span holds
  pub is_full_lem : is_full o (rings slot) ≡ (
      (length o.spans == batch_spans)
      || ltb batch_attrs (length o.pools.attr + length m.attrs + event_attrs m.events)
      || ltb batch_events (length o.pools.event + length m.events))
  unfolding is_full
  is_full_lem = rw (
    v.num_attrs,
    v.num_events,
    (length-AllShowEvents (rings slot) own (rings slot).arena_used visited m.events shown_events).1,
  )

  -- The span fits where there is room for its attributes and events.
  pub put_span-IsBatch :
      length o.spans < batch_spans
      → length o.pools.attr + length m.attrs + event_attrs m.events ≤ batch_attrs
      → length o.pools.event + length m.events ≤ batch_events
      → IsBatch (put_span rings o slot)
  put_span-IsBatch spans attrs events = rw put_span_lem (record {
    spans_fit = omega (arith, length-append o.spans (new_span ∷ []));
    attrs_fit = omega (arith, pools_grow);
    events_fit = omega (arith, pools_grow);
    idle = λ e. absurd (omega (arith, e, length-append o.spans (new_span ∷ [])));
    spans_in =
        All-append (SpanIn pools') o.spans (new_span ∷ [])
          (All-map (SpanIn o.pools) (SpanIn pools') o.spans
            (λ sp h. (omega (arith, pools_grow), omega (arith, pools_grow))) batch.spans_in)
          ((new_in.0, new_in.1), tt);
    events_in = rw added.event (
        All-append (EventIn (length pools'.attr)) o.pools.event added.evs
          (All-map (EventIn (length o.pools.attr)) (EventIn (length pools'.attr)) o.pools.event
            (λ ev h. omega (arith, pools_grow)) batch.events_in)
          added.inside);
  })

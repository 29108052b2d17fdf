-- ===== src/Span/Tests.antt =====
-- Spans written out in full, on which the operations run.
pub mod Runs
pub mod Starts
use oteltracing_c.Base.Int.{pos}
use oteltracing_c.Span.Attrs.Append.{attr_texts-IsSpan, attr_nums-IsSpan}
use oteltracing_c.Span.Attrs.Texts.{set_name-IsSpan}
use oteltracing_c.Span.Chain.{empty, ends, here}
use oteltracing_c.Span.Events.Append.{span_event-drop, span_event-append}
use oteltracing_c.Span.Start.Fresh.{span_init-IsSpan}
use oteltracing_c.Span.View.EventAttrs.{add_event_attr_view}
use oteltracing_c.Span.View.Events.{add_event_view, bare_event}
use oteltracing_c.Span.Attrs.{
  set_name, set_status, span_attr_str, span_attr_i64, span_attr_strn, span_attr_u64, span_attr_bool,
}
use oteltracing_c.Span.Attrs.Dropped.{IsDrop, setters-IsDrop}
use oteltracing_c.Span.Events.{
  span_event, event_attr_str, event_attr_i64, new_event, event_attr_strn, event_attr_u64,
  event_attr_bool,
}
use oteltracing_c.Span.Read.{walk_events}
use oteltracing_c.Span.Start.{span_init}
use oteltracing_c.Span.View.Linked.{give, add_attr_view}
use oteltracing_c.Base.Lists.{c_string}
use oteltracing_c.Span.{Span, nil, recording, write, text, event}
use oteltracing_c.Span.Read.Walk.{AllShowEvents, walk_events-AllShow}
use oteltracing_c.Span.View.{
  EventView, IsSpan, SpanView, IsEvent, absent, str, present, i64, u64, bool,
}
use oteltracing_c.Base.{ℕ, ◌≡◌, List, [], ◌∷◌, false, true, arith, some, none, refl}

-- every attribute record belongs to the span
abbrev pub own : ℕ → ℕ
own o = nil

-- A started span with an empty arena.
abbrev pub fresh : Span
fresh = record {
  trace_id = 1 ∷ 2 ∷ 3 ∷ 4 ∷ 5 ∷ 6 ∷ 7 ∷ 8 ∷ 9 ∷ 10 ∷ 11 ∷ 12 ∷ 13 ∷ 14 ∷ 15 ∷ 16 ∷ [];
  span_id = 7;
  parent_id = 0;
  start_unix_ns = 100;
  end_unix_ns = 0;
  name = nil;
  status_message = nil;
  attr_head = nil;
  attr_tail = nil;
  event_head = nil;
  event_tail = nil;
  arena_used = 0;
  num_attrs = 0;
  num_events = 0;
  kind = 1;
  flags = 1;
  status = 0;
  dropped_attrs = 0;
  dropped_events = 0;
  arena = λ o. none;
}

abbrev pub nothing : SpanView
nothing = record { name = []; message = []; attrs = []; events = [] }

pub fresh-IsSpan : IsSpan own fresh nothing
fresh-IsSpan = record {
  aligned = record { within = omega arith; aligned = refl };
  name = absent refl refl;
  message = absent refl refl;
  attrs = empty refl refl refl;
  events = empty refl refl refl;
  num_attrs = refl;
  num_events = refl;
  budget = omega arith;
  weight = omega arith;
}

-- The span with its arena used up.
abbrev pub full_span : Span
full_span = record fresh { arena_used = 4024 }

pub full_span-IsSpan : IsSpan own full_span nothing
full_span-IsSpan = record {
  aligned = record { within = omega arith; aligned = refl };
  name = absent refl refl;
  message = absent refl refl;
  attrs = empty refl refl refl;
  events = empty refl refl refl;
  num_attrs = refl;
  num_events = refl;
  budget = omega arith;
  weight = omega arith;
}

-- The span with one event, "A", whose record is at 8.
abbrev pub event_span : Span
event_span = record fresh {
  event_head = 8;
  event_tail = 8;
  arena_used = 32;
  num_events = 1;
  arena = write (write (λ o. none) 0 (text (65 ∷ []))) 8 (event (new_event 0 5));
}

abbrev pub event_a : EventView
event_a = record { at = 8; name = 65 ∷ []; time = 5; dropped = 0; attrs = [] }

abbrev pub one_event : SpanView
one_event = record nothing { events = event_a ∷ [] }

event_a-IsEvent : IsEvent event_span.arena own 32 8 event_a nil
unfolding c_string
event_a-IsEvent = record {
  e = new_event 0 5;
  cell = refl;
  next = refl;
  handle = refl;
  region = omega arith;
  name = present (record { raw = 65 ∷ []; cell = refl; shown = refl; region = omega arith });
  time = refl;
  dropped = refl;
  count = refl;
  attrs = empty refl refl refl;
}

pub event_span-IsSpan : IsSpan own event_span one_event
event_span-IsSpan = record {
  aligned = record { within = omega arith; aligned = refl };
  name = absent refl refl;
  message = absent refl refl;
  attrs = empty refl refl refl;
  events = ends [] event_a refl here event_a-IsEvent;
  num_attrs = refl;
  num_events = refl;
  budget = omega arith;
  weight = omega arith;
}

-- ===== src/Span/Events.antt =====
-- The event operations of oteltracing.h and `otel_span_event_` of oteltracing.c.
pub mod Append
pub mod Attrs
use oteltracing_c.Base.{ℕ, ◌+◌, ◌%◌, ◌^◌, Bool, Option, none, some, List}
use oteltracing_c.Base.Tests.{◌==◌, if◌then◌else◌}
use oteltracing_c.Base.Int.{ℤ}
use oteltracing_c.Span.{
  Span, Cell, Event, signed, unsigned, int, text, attr, event, nil, sizeof_event, at_event, change,
  recording,
}
use oteltracing_c.Span.Arena.{alloc, store, put}
use oteltracing_c.Span.Attrs.{alloc_attr, set_next, saturate, fill_num, fill_str, fill_strn}
use oteltracing_c.Span.Read.{event_of}
use oteltracing_c.Span.AttrType

abbrev pub new_event : ℕ → ℕ → Event
new_event noff now = record {
  next = nil;
  name = noff;
  attr_head = nil;
  attr_tail = nil;
  num_attrs = 0;
  dropped_attrs = 0;
  time_unix_ns = now;
}

-- A store through a pointer to an event record.
abbrev pub set_event : Span → ℕ → (Event → Event) → Span
set_event s o f = record s { arena = change s.arena o (at_event f) }

-- The end of `otel_span_event_`: append the record at `roff`.
unfoldable pub link_event : Span → ℕ → Span
link_event s roff =
    let s' =
      if s.event_tail == nil
      then record s { event_head = roff }
      else set_event s s.event_tail (λ e. record e { next = roff }) in
    record s' { event_tail = roff; num_events = (s.num_events + 1) % 2 ^ 16 }

-- `otel_span_event_`; `now` is what the clock returns.
unfoldable pub span_event_slow : Span → Option (List ℕ) → ℕ → Span × Option ℕ
span_event_slow s name now =
    let (s1, noff) = put s name in
    let (s2, roff) = alloc s1 sizeof_event in
    if roff == nil
    then (record s2 { dropped_events = saturate s2.dropped_events }, none)
    else (link_event (store s2 roff (event (new_event noff now))) roff, some roff)

-- `otel_span_event`
unfoldable pub span_event : Span → Option (List ℕ) → ℕ → Span × Option ℕ
span_event s name now = let r = span_event_slow s name now in if recording s then r else (s, none)

-- The end of `otel_event_attr_`, where `*o` is the event `e`: append the record at `roff`.
abbrev pub link_to_event : Span → ℕ → ℕ → Option Event → Span
link_to_event s o roff none = s
link_to_event s o roff (some e) =
    let s' =
      if e.attr_tail == nil
      then set_event s o (λ e. record e { attr_head = roff })
      else set_next s e.attr_tail roff in
    set_event s' o (λ e. record e { attr_tail = roff; num_attrs = (e.num_attrs + 1) % 256 })

unfoldable pub link_event_attr : Span → ℕ → ℕ → Span
link_event_attr s o roff = link_to_event s o roff (event_of (s.arena o))

-- `otel_event_attr_` after its two allocations
abbrev pub attach_event_attr : ℕ → Span × Option ℕ → Span × Option ℕ
attach_event_attr o (s, none) =
    (set_event s o (λ e. record e { dropped_attrs = saturate e.dropped_attrs }), none)
attach_event_attr o (s, some roff) = (link_event_attr s o roff, some roff)

-- `otel_event_attr_`; the handle is `none` for NULL.
unfoldable pub event_attr : Span → Option ℕ → Option (List ℕ) → Span × Option ℕ
event_attr s none key = (s, none)
event_attr s (some o) key = attach_event_attr o (alloc_attr s key)

unfoldable pub event_attr_str : Span → Option ℕ → Option (List ℕ) → Option (List ℕ) → Span
event_attr_str s e key value = fill_str (event_attr s e key) value

unfoldable pub event_attr_strn : Span → Option ℕ → Option (List ℕ) → Option (List ℕ) → ℕ → Span
event_attr_strn s e key value len = fill_strn (event_attr s e key) value len

unfoldable pub event_attr_i64 : Span → Option ℕ → Option (List ℕ) → ℤ → Span
event_attr_i64 s e key value = fill_num (event_attr s e key) AttrType.i64 (signed value)

unfoldable pub event_attr_u64 : Span → Option ℕ → Option (List ℕ) → ℕ → Span
event_attr_u64 s e key value = fill_num (event_attr s e key) AttrType.u64 (unsigned value)

unfoldable pub event_attr_bool : Span → Option ℕ → Option (List ℕ) → Bool → Span
event_attr_bool s e key value =
    fill_num (event_attr s e key) AttrType.bool (int (if value then 1 else 0))

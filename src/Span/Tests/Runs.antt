-- ===== src/Span/Tests/Runs.antt =====
-- One run of each operation on a started span.
use oteltracing_c.Base.Int.{pos}
use oteltracing_c.Span.Attrs.Append.{attr_texts-IsSpan, attr_nums-IsSpan}
use oteltracing_c.Span.Attrs.Texts.{set_name-IsSpan}
use oteltracing_c.Span.Events.Append.{span_event-drop, span_event-append}
use oteltracing_c.Span.Start.Fresh.{span_init-IsSpan}
use oteltracing_c.Span.View.EventAttrs.{add_event_attr_view}
use oteltracing_c.Span.View.Events.{add_event_view, bare_event}
use oteltracing_c.Span.Attrs.{
  set_name, span_attr_str, span_attr_i64, span_attr_strn, span_attr_u64, span_attr_bool,
}
use oteltracing_c.Span.Attrs.Dropped.{IsDrop, setters-IsDrop}
use oteltracing_c.Span.Events.{
  span_event, event_attr_str, event_attr_i64, event_attr_strn, event_attr_u64, event_attr_bool,
}
use oteltracing_c.Span.Start.{span_init}
use oteltracing_c.Span.View.Linked.{give, add_attr_view}
use oteltracing_c.Base.Lists.{c_string}
use oteltracing_c.Span.{nil, recording}
use oteltracing_c.Span.View.{IsSpan, str, i64, u64, bool}
use oteltracing_c.Base.{ℕ, ◌≡◌, List, [], ◌∷◌, true, arith, some, none, refl, inl}
use oteltracing_c.Span.Tests.{
  own, fresh, nothing, fresh-IsSpan, full_span, full_span-IsSpan, event_span, one_event,
  event_span-IsSpan,
}
use oteltracing_c.Span.Events.Attrs.{event_attr_nums-append, event_attr_texts-append}

-- "k" and "hi"
abbrev key : List ℕ
key = 107 ∷ []

abbrev hi : List ℕ
hi = 104 ∷ 105 ∷ []

live : recording fresh ≡ true
unfolding recording
live = refl

live_event : recording event_span ≡ true
unfolding recording
live_event = refl

live_full : recording full_span ≡ true
unfolding recording
live_full = refl

attr_nums-IsSpan_example :
    IsSpan
      (give own 8 nil)
      (span_attr_i64 fresh (some key) (pos 3))
      (add_attr_view nothing (record { key = key; value = i64 (pos 3) }))
    × IsSpan
        (give own 8 nil)
        (span_attr_u64 fresh (some key) 4)
        (add_attr_view nothing (record { key = key; value = u64 4 }))
    × IsSpan
        (give own 8 nil)
        (span_attr_bool fresh (some key) true)
        (add_attr_view nothing (record { key = key; value = bool 1 }))
unfolding c_string
attr_nums-IsSpan_example = attr_nums-IsSpan fresh-IsSpan key live (omega arith) (pos 3) 4 true

attr_texts-IsSpan_example :
    IsSpan
      (give own 8 nil)
      (span_attr_str fresh (some key) (some hi))
      (add_attr_view nothing (record { key = key; value = str hi }))
    × IsSpan
        (give own 8 nil)
        (span_attr_strn fresh (some key) (some hi) 1)
        (add_attr_view nothing (record { key = key; value = str (104 ∷ []) }))
unfolding c_string
attr_texts-IsSpan_example =
    attr_texts-IsSpan fresh-IsSpan key live (omega arith) hi 1 (omega arith) (omega arith)
      (omega arith)

setters-IsDrop_example :
    IsDrop own full_span nothing (span_attr_str full_span (some key) (some hi))
    × IsDrop own full_span nothing (span_attr_strn full_span (some key) (some hi) 1)
    × IsDrop own full_span nothing (span_attr_i64 full_span (some key) (pos 3))
    × IsDrop own full_span nothing (span_attr_u64 full_span (some key) 4)
    × IsDrop own full_span nothing (span_attr_bool full_span (some key) true)
unfolding c_string
setters-IsDrop_example =
    setters-IsDrop full_span-IsSpan (some key) live_full (omega arith, omega arith) (some hi) 1 4
      (pos 3) true

span_event-append_example :
    IsSpan own (span_event event_span (some hi) 9).0 (add_event_view one_event (bare_event 40 hi 9))
    × ((span_event event_span (some hi) 9).1 ≡ some 40)
unfolding c_string
span_event-append_example =
    span_event-append event_span-IsSpan hi 9 live_event (omega arith) (omega arith)

span_event-drop_example :
    IsSpan own (span_event full_span (some hi) 9).0 nothing
    × ((span_event full_span (some hi) 9).1 ≡ none)
    × ((span_event full_span (some hi) 9).0.dropped_events ≡ 1)
unfolding c_string
span_event-drop_example =
    span_event-drop full_span-IsSpan hi 9 live_full (omega arith) (omega arith)

event_attr_nums-append_example :
    IsSpan
      (give own 40 8)
      (event_attr_i64 event_span (some 8) (some key) (pos 3))
      (add_event_attr_view one_event 8 (record { key = key; value = i64 (pos 3) }))
    × IsSpan
        (give own 40 8)
        (event_attr_u64 event_span (some 8) (some key) 4)
        (add_event_attr_view one_event 8 (record { key = key; value = u64 4 }))
    × IsSpan
        (give own 40 8)
        (event_attr_bool event_span (some 8) (some key) true)
        (add_event_attr_view one_event 8 (record { key = key; value = bool 1 }))
unfolding c_string
event_attr_nums-append_example =
    event_attr_nums-append event_span-IsSpan key 8 (inl refl) (omega arith) (pos 3) 4 true

event_attr_texts-append_example :
    IsSpan
      (give own 40 8)
      (event_attr_str event_span (some 8) (some key) (some hi))
      (add_event_attr_view one_event 8 (record { key = key; value = str hi }))
    × IsSpan
        (give own 40 8)
        (event_attr_strn event_span (some 8) (some key) (some hi) 1)
        (add_event_attr_view one_event 8 (record { key = key; value = str (104 ∷ []) }))
unfolding c_string
event_attr_texts-append_example =
    event_attr_texts-append event_span-IsSpan key 8 (inl refl) (omega arith) hi 1 (omega arith)
      (omega arith) (omega arith)

set_name-IsSpan_example :
    IsSpan own (set_name event_span (some hi)) (record one_event { name = hi })
unfolding c_string
set_name-IsSpan_example = set_name-IsSpan event_span-IsSpan live_event hi (omega arith)

span_init-IsSpan_example :
    IsSpan own (span_init full_span (some hi) 2 77) (record nothing { name = hi })
unfolding c_string
span_init-IsSpan_example = span_init-IsSpan own full_span hi 2 77 (omega arith)

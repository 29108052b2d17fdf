-- ===== src/Otlp/Batch.antt =====
-- `otlp_add_span`, `otlp_flush`, and what the transport is given.
use oteltracing_c.Base.{ℕ, ◌+◌, Bool, ◌||◌, none, some, List, [], ◌∷◌, ◌++◌, map}
use oteltracing_c.Base.Tests.{ltb, ◌==◌, if◌then◌else◌}
use oteltracing_c.Base.Lists.{length, slice}
use oteltracing_c.Span.{Span, Event}
use oteltracing_c.Span.Read.{text_of, walk_attrs, walk_events, walk_fuel}
use oteltracing_c.Otlp.{
  status_unset, status_ok, status_error, batch_spans, batch_attrs, batch_events, Slot, Rings,
  CharPtr, literal, arena, AnyValue, string_value, int_value, double_value, bool_value, KeyValue,
  OtlpEvent, OtlpSpan, ValueMsg, string_msg, int_msg, double_msg, bool_msg, KeyValueMsg, EventMsg,
  SpanMsg, Pools, Otlp, otlp_kind, strv, add_attr, Attr,
}

-- What packing reads through a pointer.
abbrev pub read_text : Rings → CharPtr → List ℕ
read_text rings (literal bs) = bs
read_text rings (arena slot off) = text_of ((rings slot).arena off)

abbrev pub read_value : Rings → AnyValue → ValueMsg
read_value rings (string_value p) = string_msg (read_text rings p)
read_value rings (int_value n) = int_msg n
read_value rings (double_value d) = double_msg d
read_value rings (bool_value b) = bool_msg b

abbrev pub read_attr : Rings → KeyValue → KeyValueMsg
read_attr rings kv = record { key = read_text rings kv.key; value = read_value rings kv.value }

abbrev pub read_event : Rings → List KeyValue → OtlpEvent → EventMsg
read_event rings pool ev = record {
  time = ev.time_unix_nano;
  name = read_text rings ev.name;
  attributes = map (read_attr rings) (slice pool ev.attributes ev.n_attributes);
  dropped = ev.dropped_attributes_count;
}

abbrev pub read_span : Rings → Pools → OtlpSpan → SpanMsg
read_span rings pools sp = record {
  trace_id = (rings sp.trace_id).trace_id;
  span_id = (rings sp.span_id).span_id;
  parent_span_id = elim sp.parent_span_id [ none ↦ none | some q ↦ some (rings q).parent_id ];
  name = read_text rings sp.name;
  kind = sp.kind;
  start_time = sp.start_time_unix_nano;
  end_time = sp.end_time_unix_nano;
  code = sp.code;
  message = read_text rings sp.message;
  dropped_attributes = sp.dropped_attributes_count;
  dropped_events = sp.dropped_events_count;
  attributes = map (read_attr rings) (slice pools.attr sp.attributes sp.n_attributes);
  events = map (read_event rings pools.attr) (slice pools.event sp.events sp.n_events);
}

-- the request that the batch stands for
abbrev pub pending : Rings → Otlp → List SpanMsg
pending rings o = map (read_span rings o.pools) o.spans

abbrev pub no_pools : Pools
no_pools = record { attr = []; event = [] }

-- `otlp_flush`: nothing for an empty batch; else one request, if there is a transport, and the
-- cursors go back to 0.
unfoldable pub otlp_flush : Rings → Otlp → Otlp
otlp_flush rings o = if length o.spans == 0 then o else record o {
  spans = [];
  pools = no_pools;
  sent = if o.transport then o.sent ++ (pending rings o ∷ []) else o.sent;
}

-- The attributes of one event or span go behind those in the pool.
abbrev pub add_attrs : Slot → List Attr → Pools → Pools
add_attrs slot xs p = record p { attr = p.attr ++ map (add_attr slot) xs }

-- one round of the loop over the events
abbrev pub add_event : Slot → Span → Event → Pools → Pools
add_event slot s se p =
    let xs = walk_attrs walk_fuel s.arena se.attr_head in
    record (add_attrs slot xs p) {
      event =
          p.event
          ++ (record {
            time_unix_nano = se.time_unix_ns;
            name = strv slot se.name;
            attributes = length p.attr;
            n_attributes = length xs;
            dropped_attributes_count = se.dropped_attrs;
          }
              ∷ []);
    }

unfoldable pub add_events : Slot → Span → List Event → Pools → Pools
add_events slot s [] p = p
add_events slot s (se ∷ es) p = add_events slot s es (add_event slot s se p)

-- `event_attrs`: the loop over the events that sums their counts of attributes
unfoldable pub sum_event_attrs : List Event → ℕ
sum_event_attrs [] = 0
sum_event_attrs (se ∷ es) = se.num_attrs + sum_event_attrs es

-- the test that makes `otlp_add_span` flush first
unfoldable pub is_full : Otlp → Span → Bool
is_full o s =
    (length o.spans == batch_spans)
    || ltb batch_attrs (
        length o.pools.attr
        + s.num_attrs
        + sum_event_attrs (walk_events walk_fuel s.arena s.event_head))
    || ltb batch_events (length o.pools.event + s.num_events)

-- the rest of `otlp_add_span`
unfoldable pub put_span : Rings → Otlp → Slot → Otlp
put_span rings o slot =
    let s = rings slot in
    let xs = walk_attrs walk_fuel s.arena s.attr_head in
    let es = walk_events walk_fuel s.arena s.event_head in
    let p = add_attrs slot xs o.pools in
    record o {
      pools = add_events slot s es p;
      spans =
          o.spans
          ++ (record {
            trace_id = slot;
            span_id = slot;
            parent_span_id = if s.parent_id == 0 then none else some slot;
            name = strv slot s.name;
            kind = otlp_kind s.kind;
            start_time_unix_nano = s.start_unix_ns;
            end_time_unix_nano = s.end_unix_ns;
            code =
                if s.status == 2
                then status_error
                else if s.status == 1
                then status_ok
                else status_unset;
            message = strv slot s.status_message;
            dropped_attributes_count = s.dropped_attrs;
            dropped_events_count = s.dropped_events;
            attributes = length o.pools.attr;
            n_attributes = length xs;
            events = length p.event;
            n_events = length es;
          }
              ∷ []);
    }

-- `otlp_add_span` of the span in a slot
unfoldable pub otlp_add_span : Rings → Otlp → Slot → Otlp
otlp_add_span rings o slot =
    put_span rings (if is_full o (rings slot) then otlp_flush rings o else o) slot

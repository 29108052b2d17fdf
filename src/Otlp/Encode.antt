-- ===== src/Otlp/Encode.antt =====
-- The entries that the batch gets for a span read as what the span holds.
use oteltracing_c.Base.{
  ℕ, ◌≤◌, ◌≡◌, refl, ap, ap₂, ◌∙◌, none, some, List, [], ◌∷◌, map, arith, false,
}
use oteltracing_c.Base.Tests.{◌==◌, if◌then◌else◌}
use oteltracing_c.Base.Int.{to_int64}
use oteltracing_c.Span.{Span, Attr, nil, span_arena}
use oteltracing_c.Span.View.{
  Value, AttrView, EventView, SpanView, IsText, IsStr, absent, present, HasValue, str, i64, u64,
  bool,
}
use oteltracing_c.Span.Read.{text_of}
use oteltracing_c.Span.Read.Walk.{Shows, AllShow}
use oteltracing_c.Otlp.{
  status_unset, status_ok, status_error, Slot, Rings, ValueMsg, string_msg, int_msg, bool_msg,
  KeyValueMsg, EventMsg, SpanMsg, strv, add_attr, otlp_kind,
}
use oteltracing_c.Otlp.Batch.{read_text, read_value, read_attr}

-- What OTLP says of the values, attributes, events and spans that a span holds.
unfoldable pub value_msg : Value → ValueMsg
value_msg (str bs) = string_msg bs
value_msg (i64 n) = int_msg n
value_msg (u64 n) = int_msg (to_int64 n)
value_msg (bool b) = bool_msg b

unfoldable pub attr_msg : AttrView → KeyValueMsg
attr_msg v = record { key = v.key; value = value_msg v.value }

unfoldable pub event_msg : EventView → EventMsg
event_msg v = record {
  time = v.time;
  name = v.name;
  attributes = map attr_msg v.attrs;
  dropped = v.dropped;
}

unfoldable pub span_msg : Span → SpanView → SpanMsg
span_msg s m = record {
  trace_id = s.trace_id;
  span_id = s.span_id;
  parent_span_id = if s.parent_id == 0 then none else some s.parent_id;
  name = m.name;
  kind = otlp_kind s.kind;
  start_time = s.start_unix_ns;
  end_time = s.end_unix_ns;
  code = if s.status == 2 then status_error else if s.status == 1 then status_ok else status_unset;
  message = m.message;
  dropped_attributes = s.dropped_attrs;
  dropped_events = s.dropped_events;
  attributes = map attr_msg m.attrs;
  events = map event_msg m.events;
}

module _ (rings : Rings) (slot : Slot) {hi : ℕ} (within : hi ≤ span_arena) where
  read_text-IsText :
      {off : ℕ} {bs : List ℕ}
      → IsText (rings slot).arena hi off bs
      → read_text rings (strv slot off) ≡ bs
  read_text-IsText {off} x =
      let ne : (off == nil) ≡ false = ground (arith, x.region) in
      rw ne (ap text_of x.cell ∙ x.shown)

  pub read_text-IsStr :
      {off : ℕ} {bs : List ℕ}
      → IsStr (rings slot).arena hi off bs
      → read_text rings (strv slot off) ≡ bs
  read_text-IsStr (absent e k) = rw (e, k)
  read_text-IsStr (present x) = read_text-IsText x

  read_value_shown :
      (a : Attr) (v : Value)
      → HasValue (rings slot).arena hi a v
      → read_value rings (add_attr slot a).value ≡ value_msg v
  unfolding add_attr value_msg
  read_value_shown a (str bs) h = rw h.0 (ap string_msg (read_text-IsStr h.1))
  read_value_shown a (i64 n) h = rw (h.0, h.1)
  read_value_shown a (u64 n) h = rw (h.0, h.1)
  read_value_shown a (bool b) h = rw (h.0, h.1)

  read_attr_shown :
      (a : Attr) (v : AttrView)
      → Shows (rings slot).arena hi a v
      → read_attr rings (add_attr slot a) ≡ attr_msg v
  unfolding attr_msg add_attr
  read_attr_shown a v x =
      λ i. record { key = read_text-IsText x.key i; value = read_value_shown a v.value x.value i }

  pub read_attrs_shown :
      (xs : List Attr) (vs : List AttrView)
      → AllShow (rings slot).arena hi xs vs
      → map (read_attr rings) (map (add_attr slot) xs) ≡ map attr_msg vs
  read_attrs_shown [] [] h = refl
  read_attrs_shown [] (v ∷ vs) h = absurd h
  read_attrs_shown (a ∷ xs) [] h = absurd h
  read_attrs_shown (a ∷ xs) (v ∷ vs) h =
      ap₂ ◌∷◌ (read_attr_shown a v h.0) (read_attrs_shown xs vs h.1)

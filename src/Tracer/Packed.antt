-- ===== src/Tracer/Packed.antt =====
-- The buffer of `otel_init` has room for every request. The packing is that of protobuf-c, which is
-- a parameter here: the sizes that it gives to messages.
use oteltracing_c.Base.Lists.{c_string, take, strlen-le-length, length-take-le, length, All}
use oteltracing_c.Base.Text.{codes}
use oteltracing_c.Tracer.Init.{
  started, buf_size, Machine, hostname_text, service_text, string_attr, Setup, grpc_hdr,
}
use oteltracing_c.Otlp.{
  batch_spans, ValueMsg, string_msg, int_msg, double_msg, bool_msg, KeyValueMsg, EventMsg, SpanMsg,
}
use oteltracing_c.Base.Int.{to_int64, ℤ}
use oteltracing_c.Base.{
  ℕ, ◌+◌, ◌*◌, ◌≤◌, ◌≡◌, refl, ap, true, Option, none, some, List, [], ◌∷◌, map, arith,
}
use oteltracing_c.Base.Tests.{if◌then◌else◌}
use oteltracing_c.Span.View.{
  Value, str, i64, u64, bool, AttrView, EventView, total_of, value_size, attr_size, attrs_size,
  event_size,
}
use oteltracing_c.Otlp.Encode.{value_msg, attr_msg, event_msg, span_msg}
use oteltracing_c.Tracer.Drain.Deliver.{Finished, messages}

-- the length of each packed message
pub record Wire : Type 0 where
  pub value_len : ValueMsg → ℕ
  pub attr_len : KeyValueMsg → ℕ
  pub event_len : EventMsg → ℕ
  pub span_len : SpanMsg → ℕ
  pub request_len : Setup → List SpanMsg → ℕ

-- A text or message in a field: one byte for its tag, at most five for its length, and itself.
abbrev pub field : ℕ → ℕ
field n = 6 + n

abbrev pub fields {ℓ} : {A : Type ℓ} → (A → ℕ) → List A → ℕ
fields f [] = 0
fields f (x ∷ xs) = field (f x) + fields f xs

-- The wire format of protobuf, as bounds: a number in a field takes at most 11 bytes, a `fixed64` or
-- `double` 9, a `uint32` 6, a `bool` 2, identifiers of a span 8 and their field, and each message at
-- most the sum of its fields.
pub record IsWire (w : Wire) : Type 0 where
  pub string : (bs : List ℕ) → w.value_len (string_msg bs) ≤ field (length bs)
  pub int : (n : ℤ) → w.value_len (int_msg n) ≤ 11
  pub double : (n : ℕ) → w.value_len (double_msg n) ≤ 9
  pub bool : (n : ℕ) → w.value_len (bool_msg n) ≤ 2
  pub attr : (k : KeyValueMsg) → w.attr_len k ≤ field (length k.key) + field (w.value_len k.value)
  pub event :
      (e : EventMsg)
      → w.event_len e ≤ 9 + field (length e.name) + fields w.attr_len e.attributes + 6
  pub span :
      (s : SpanMsg)
      → w.span_len s
        ≤ field (length s.trace_id)
          + field 8
          + field 8
          + field (length s.name)
          + 11
          + 9
          + 9
          + fields w.attr_len s.attributes
          + 6
          + fields w.event_len s.events
          + 6
          + field (field (length s.message) + 11)
  pub request :
      (t : Setup) (ss : List SpanMsg)
      → w.request_len t ss
        ≤ field (
            field (fields w.attr_len t.resource)
            + field (
                field (field (length t.scope_name) + field (length t.scope_version))
                + fields w.span_len ss))

abbrev pub room : Option ℕ → ℕ
room none = 0
room (some n) = n

-- The header and the packed request lie in the buffer.
abbrev pub Fits : Wire → Setup → List SpanMsg → Type 0
Fits w t ss = grpc_hdr + w.request_len t ss ≤ room t.buf

length-service_text : (o : Option (List ℕ)) → length (service_text o) ≤ 127
unfolding service_text
length-service_text none = omega arith
length-service_text (some bs) = length-take-le 127 (c_string bs)

length-hostname_text : (o : Option (List ℕ)) → length (hostname_text o) ≤ 127
unfolding hostname_text
length-hostname_text none = omega arith
length-hostname_text (some raw) =
    omega (arith, strlen-le-length (take 127 raw), length-take-le 127 raw)

module _ (w : Wire) (law : IsWire w) where
  value_len_le : (v : Value) → w.value_len (value_msg v) ≤ 11 + value_size v
  unfolding value_msg
  value_len_le (str bs) = omega (arith, law.string bs)
  value_len_le (i64 n) = omega (arith, law.int n)
  value_len_le (u64 n) = omega (arith, law.int (to_int64 n))
  value_len_le (bool n) = omega (arith, law.bool n)

  attr_len_le : (k : AttrView) → field (w.attr_len (attr_msg k)) ≤ 2 * attr_size k
  unfolding attr_msg
  attr_len_le k = omega (arith, law.attr (attr_msg k), value_len_le k.value)

  attrs_len_le : (ks : List AttrView) → fields w.attr_len (map attr_msg ks) ≤ 2 * attrs_size ks
  attrs_len_le [] = omega arith
  attrs_len_le (k ∷ ks) = omega (arith, attr_len_le k, attrs_len_le ks)

  event_len_le : (e : EventView) → field (w.event_len (event_msg e)) ≤ 2 * event_size e
  unfolding event_msg
  event_len_le e = omega (arith, law.event (event_msg e), attrs_len_le e.attrs)

  events_len_le :
      (es : List EventView) → fields w.event_len (map event_msg es) ≤ 2 * total_of event_size es
  events_len_le [] = omega arith
  events_len_le (e ∷ es) = omega (arith, event_len_le e, events_len_le es)

  -- A packed span is at most twice as long as what it takes of its arena, and its fixed fields.
  pub span_len_le :
      (f : Finished) → length f.s.trace_id ≡ 16 → field (w.span_len (span_msg f.s f.m)) ≤ 8180
  unfolding span_msg
  span_len_le f id = omega (
    arith,
    law.span (span_msg f.s f.m),
    attrs_len_le f.m.attrs,
    events_len_le f.m.events,
    f.holds.weight,
    f.holds.aligned.within,
    id,
  )

  spans_len_le :
      (fs : List Finished)
      → All (λ f. length f.s.trace_id ≡ 16) fs
      → fields w.span_len (messages fs) ≤ 8180 * length fs
  spans_len_le [] h = omega arith
  spans_len_le (f ∷ fs) h = omega (arith, span_len_le f h.0, spans_len_le fs h.1)

  -- The two attributes of the resource.
  string_attr_len_le :
      (key value : List ℕ)
      → field (w.attr_len (string_attr key value)) ≤ 24 + length key + length value
  string_attr_len_le key value = omega (arith, law.attr (string_attr key value), law.string value)

  -- A request of at most 256 spans lies in the buffer that was allocated.
  pub request-Fits :
      (m : Machine) (service : Option (List ℕ)) (fs : List Finished)
      → m.has_memory buf_size ≡ true
      → length fs ≤ batch_spans
      → All (λ f. length f.s.trace_id ≡ 16) fs
      → Fits w (started m service) (messages fs)
  request-Fits m service fs memory few ids =
      let t = started m service in
      let a : length (codes "service.name") ≡ 12 = refl in
      let b : length (codes "host.name") ≡ 9 = refl in
      let c : length (codes "0.1.0") ≡ 5 = refl in
      let whole : room t.buf ≡ buf_size =
        ap (λ x. room (if x then some buf_size else none)) memory in
      let n : grpc_hdr + w.request_len t (messages fs) ≤ buf_size = omega (
        arith,
        law.request t (messages fs),
        spans_len_le fs ids,
        string_attr_len_le (codes "service.name") t.service,
        string_attr_len_le (codes "host.name") t.hostname,
        length-service_text service,
        length-hostname_text m.hostname,
        a,
        b,
        c,
      ) in
      omega (arith, n, whole)

-- ===== src/Otlp.antt =====
-- The reused protobuf-c batch of oteltracing.c: `struct otel_otlp`, `otlp_add_attr`,
-- `otlp_add_span`, `otlp_flush`. The batch borrows strings and ids from the ring slots.
pub mod Batch
pub mod Encode
pub mod Events
pub mod Spans
pub mod Deliver
mod Tests
use oteltracing_c.Base.{
  ℕ, ◌+◌, ◌<◌, Bool, true, false, not, ◌||◌, Option, none, some, List, [], ◌∷◌, ◌++◌, map,
}
use oteltracing_c.Base.Tests.{ltb, ◌==◌, if◌then◌else◌}
use oteltracing_c.Base.Lists.{length, slice}
use oteltracing_c.Base.Int.{ℤ, pos, to_int64}
use oteltracing_c.Span.{Span, Attr, Event, Num, unset, signed, unsigned, double, int, nil}
use oteltracing_c.Span.AttrType
use oteltracing_c.Span.Read.{text_of, walk_attrs, walk_events, walk_fuel}

-- OTEL_BATCH_SPANS, OTEL_BATCH_ATTRS, OTEL_BATCH_EVENTS
abbrev pub batch_spans : ℕ
batch_spans = 256

abbrev pub batch_attrs : ℕ
batch_attrs = 2048

abbrev pub batch_events : ℕ
batch_events = 1024

-- A slot of a ring, by the thread context and the index in its ring; and what all slots hold.
abbrev pub Slot : Type 0
Slot = ℕ × ℕ

abbrev pub Rings : Type 0
Rings = Slot → Span

-- A `char *` of the batch: a literal, or into the arena of the span in a slot.
pub data CharPtr : Type 0 where
  literal : List ℕ → CharPtr
  arena : Slot → ℕ → CharPtr

-- The enumerations of the protobuf schema.
pub data SpanKind : Type 0 where
  kind_internal : SpanKind
  kind_server : SpanKind
  kind_client : SpanKind
  kind_producer : SpanKind
  kind_consumer : SpanKind

pub data StatusCode : Type 0 where
  status_unset : StatusCode
  status_ok : StatusCode
  status_error : StatusCode

-- `otlp_any_t`, `otlp_kv_t`, `otlp_event_t`, `otlp_span_t`. The pointers to attributes and events
-- are indices into the pools.
pub data AnyValue : Type 0 where
  string_value : CharPtr → AnyValue
  int_value : ℤ → AnyValue
  double_value : ℕ → AnyValue
  bool_value : ℕ → AnyValue

pub record KeyValue : Type 0 where
  pub key : CharPtr
  pub value : AnyValue

pub record OtlpEvent : Type 0 where
  pub time_unix_nano : ℕ
  pub name : CharPtr
  pub attributes : ℕ
  pub n_attributes : ℕ
  pub dropped_attributes_count : ℕ

pub record OtlpSpan : Type 0 where
  pub trace_id : Slot
  pub span_id : Slot
  pub parent_span_id : Option Slot
  pub name : CharPtr
  pub kind : SpanKind
  pub start_time_unix_nano : ℕ
  pub end_time_unix_nano : ℕ
  pub code : StatusCode
  pub message : CharPtr
  pub dropped_attributes_count : ℕ
  pub dropped_events_count : ℕ
  pub attributes : ℕ
  pub n_attributes : ℕ
  pub events : ℕ
  pub n_events : ℕ

-- What a packed request says of a span: the batch with its pointers followed.
pub data ValueMsg : Type 0 where
  string_msg : List ℕ → ValueMsg
  int_msg : ℤ → ValueMsg
  double_msg : ℕ → ValueMsg
  bool_msg : ℕ → ValueMsg

pub record KeyValueMsg : Type 0 where
  pub key : List ℕ
  pub value : ValueMsg

pub record EventMsg : Type 0 where
  pub time : ℕ
  pub name : List ℕ
  pub attributes : List KeyValueMsg
  pub dropped : ℕ

pub record SpanMsg : Type 0 where
  pub trace_id : List ℕ
  pub span_id : ℕ
  pub parent_span_id : Option ℕ
  pub name : List ℕ
  pub kind : SpanKind
  pub start_time : ℕ
  pub end_time : ℕ
  pub code : StatusCode
  pub message : List ℕ
  pub dropped_attributes : ℕ
  pub dropped_events : ℕ
  pub attributes : List KeyValueMsg
  pub events : List EventMsg

-- The used parts of the pools of `struct otel_otlp`: `num_attrs` and `num_events` are their lengths.
pub record Pools : Type 0 where
  pub attr : List KeyValue
  pub event : List OtlpEvent

-- The batch; `n_spans` is the length of `spans`. `sent` is what the transport was given so far.
pub record Otlp : Type 0 where
  pub spans : List OtlpSpan
  pub pools : Pools
  pub transport : Bool
  pub sent : List (List SpanMsg)

-- `otlp_kind`
unfoldable pub otlp_kind : ℕ → SpanKind
otlp_kind kind =
    if kind == 1
    then kind_server
    else if kind == 2
    then kind_client
    else if kind == 3
    then kind_producer
    else if kind == 4
    then kind_consumer
    else kind_internal

-- `otel_span_strv` of the span in a slot
abbrev pub strv : Slot → ℕ → CharPtr
strv slot off = if off == nil then literal [] else arena slot off

-- The members of the union; the code reads the one that the type tells of.
abbrev pub num_i : Num → ℤ
num_i (signed n) = n
num_i unset = pos 0
num_i (unsigned n) = pos 0
num_i (double n) = pos 0
num_i (int n) = pos 0

abbrev pub num_u : Num → ℕ
num_u (unsigned n) = n
num_u unset = 0
num_u (signed n) = 0
num_u (double n) = 0
num_u (int n) = 0

abbrev pub num_d : Num → ℕ
num_d (double n) = n
num_d unset = 0
num_d (signed n) = 0
num_d (unsigned n) = 0
num_d (int n) = 0

abbrev pub num_b : Num → ℕ
num_b (int n) = n
num_b unset = 0
num_b (signed n) = 0
num_b (unsigned n) = 0
num_b (double n) = 0

-- `otlp_add_attr`: the entry that it adds to the pool
unfoldable pub add_attr : Slot → Attr → KeyValue
add_attr slot a = record {
  key = strv slot a.key;
  value =
      if a.type == AttrType.str
      then string_value (strv slot a.val)
      else if a.type == AttrType.i64
      then int_value (num_i a.v)
      else if a.type == AttrType.u64
      then int_value (to_int64 (num_u a.v))
      else if a.type == AttrType.f64
      then double_value (num_d a.v)
      else if a.type == AttrType.bool
      then bool_value (num_b a.v)
      else string_value (literal []);
}

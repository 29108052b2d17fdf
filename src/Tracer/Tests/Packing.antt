-- ===== src/Tracer/Tests/Packing.antt =====
-- A packing with sizes as large as the wire format allows, and a start without memory.
use oteltracing_c.Base.{ℕ, ◌+◌, ◌≡◌, refl, true, false, none, List, [], ◌∷◌, arith}
use oteltracing_c.Base.Lists.{length}
use oteltracing_c.Otlp.{
  ValueMsg, string_msg, int_msg, double_msg, bool_msg, KeyValueMsg, EventMsg, SpanMsg,
}
use oteltracing_c.Tracer.{set_transport}
use oteltracing_c.Tracer.Drain.{drain}
use oteltracing_c.Tracer.Drain.Fits.{AllFit, drain-AllFit}
use oteltracing_c.Tracer.Init.{Machine, Setup, started, init}
use oteltracing_c.Tracer.Init.Failure.{init-no_memory}
use oteltracing_c.Tracer.Packed.{Wire, IsWire, field, fields}
use oteltracing_c.Tracer.Tests.{one_span, one_span-Holds, finished, rings, out, out-IsBatch}

abbrev value_bytes : ValueMsg → ℕ
value_bytes (string_msg bs) = field (length bs)
value_bytes (int_msg n) = 11
value_bytes (double_msg n) = 9
value_bytes (bool_msg b) = 2

abbrev attr_bytes : KeyValueMsg → ℕ
attr_bytes k = field (length k.key) + field (value_bytes k.value)

abbrev event_bytes : EventMsg → ℕ
event_bytes e = 9 + field (length e.name) + fields attr_bytes e.attributes + 6

abbrev span_bytes : SpanMsg → ℕ
span_bytes s =
    field (length s.trace_id)
    + field 8
    + field 8
    + field (length s.name)
    + 11
    + 9
    + 9
    + fields attr_bytes s.attributes
    + 6
    + fields event_bytes s.events
    + 6
    + field (field (length s.message) + 11)

abbrev request_bytes : Setup → List SpanMsg → ℕ
request_bytes t ss = field (
    field (fields attr_bytes t.resource)
    + field (
        field (field (length t.scope_name) + field (length t.scope_version))
        + fields span_bytes ss))

abbrev largest : Wire
largest = record {
  value_len = value_bytes;
  attr_len = attr_bytes;
  event_len = event_bytes;
  span_len = span_bytes;
  request_len = request_bytes;
}

largest-IsWire : IsWire largest
largest-IsWire = record {
  string = λ bs. omega arith;
  int = λ n. omega arith;
  double = λ n. omega arith;
  bool = λ n. omega arith;
  attr = λ k. omega arith;
  event = λ e. omega arith;
  span = λ s. omega arith;
  request = λ t ss. omega arith;
}

abbrev machine : Machine
machine = record { hostname = none; tv_sec = 7; tv_nsec = 5; has_memory = λ n. true }

drain-AllFit_example :
    AllFit largest (started machine none) rings (drain true rings out (one_span ∷ [])).0.otlp
drain-AllFit_example =
    drain-AllFit largest largest-IsWire machine none refl rings out (one_span ∷ [])
      ((finished ∷ []) ∷ []) (one_span-Holds, λ i. refl, tt) ((refl, tt), tt) out-IsBatch refl
      (record { sent = tt; waiting = []; content = refl; ids = tt })

abbrev poor : Machine
poor = record machine { has_memory = λ n. false }

abbrev blank : Setup
blank = record (started machine none) {
  switches = record {
    initialized = false;
    transport_present = false;
    sink_present = false;
    runtime_on = false;
    enabled = false;
  };
  buf = none;
}

init-no_memory_example :
    let (t1, ok) = init poor blank none in
    (ok ≡ false)
    × (init machine t1 none ≡ (t1, true))
    × (t1.buf ≡ none)
    × ((set_transport t1.switches true).enabled ≡ true)
init-no_memory_example = init-no_memory poor machine blank none none refl refl

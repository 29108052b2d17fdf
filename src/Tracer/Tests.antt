-- ===== src/Tracer/Tests.antt =====
-- A ring of four slots with one span in it: registration, a refused span, a drain, a few steps.
pub mod Packing
use oteltracing_c.Base.{
  ◌*◌, ◌+◌, ◌^◌, ◌&&◌, ℕ, ◌≡◌, List, [], ◌∷◌, refl, true, false, none, some, arith, ◌++◌, ◌≤◌,
}
use oteltracing_c.Base.Tests.{leb, if◌then◌else◌, ltb}
use oteltracing_c.Base.Int.{pos}
use oteltracing_c.Span.Start.{span_start}
use oteltracing_c.Random.{RandomState, random_next}
use oteltracing_c.Base.Double.{decode, number}
use oteltracing_c.Tracer.Sampler.{set_sampler, set_sampler-recording}
use oteltracing_c.Tracer.Ring.Steps.{Steps-in_order}
use oteltracing_c.Base.Lists.{length}
use oteltracing_c.Otlp.Batch.{no_pools}
use oteltracing_c.Tracer.Ring.Register.{new_ring-Holds, new_ring-IsRing}
use oteltracing_c.Otlp.{Rings}
use oteltracing_c.Otlp.Spans.{IsBatch}
use oteltracing_c.Span.{Span, recording}
use oteltracing_c.Tracer.{
  IsLive, Switches, sink, calls, transport, shut_down, start_up, calls-IsLive,
}
use oteltracing_c.Tracer.Capacity.{
  IsCapacity, set_ring_capacity, set_ring_capacity-diverges, set_ring_capacity-IsCapacity,
}
use oteltracing_c.Tracer.Drain.{Out, drain}
use oteltracing_c.Tracer.Drain.Deliver.{Finished, Drained, AllEmpty, drain-Drained}
use oteltracing_c.Tracer.Ring.{Home, Ring, enqueue, used, new_ring, publish, set_slot}
use oteltracing_c.Tracer.Ring.Queue.{Holds, enqueue-Holds}
use oteltracing_c.Tracer.Ring.Threads.{
  Shared, start, Steps, ready, then_step, stop, check, looping, written, copy, store_head, load,
  emit,
}
use oteltracing_c.Span.Tests.{event_span, one_event, event_span-IsSpan, own, fresh}

abbrev idle : Switches
idle = record {
  initialized = true;
  transport_present = false;
  sink_present = true;
  runtime_on = true;
  enabled = true;
}

calls-IsLive_example : IsLive (calls idle (sink false ∷ transport true ∷ shut_down ∷ start_up ∷ []))
calls-IsLive_example =
    calls-IsLive idle (sink false ∷ transport true ∷ shut_down ∷ start_up ∷ [])
      (record { live = refl })

abbrev generator : RandomState
generator = record { lo = 5; hi = 3 }

-- The ratio 0.5.
half : decode 0x3fe0000000000000 ≡ number false (2 ^ 1073)
unfolding decode
half = refl

set_sampler-recording_example :
    let c =
      set_sampler 0 0x3fe0000000000000
        (record { enabled = true; sample_always = true; sample_threshold = 0 }) in
    recording (span_start c (some generator) fresh none 1 50).0
    ≡ (true && (true && leb (((random_next generator).1 + 1) * 2 ^ 1074) (2 ^ 1073 * 2 ^ 64)))
set_sampler-recording_example =
    set_sampler-recording 0 0x3fe0000000000000 false (2 ^ 1073) half
      (record { enabled = true; sample_always = true; sample_threshold = 0 }) generator fresh none 1
      50

set_ring_capacity-IsCapacity_example :
    (cap : ℕ) × (set_ring_capacity 40 1000 ≡ some cap) × IsCapacity 1000 cap
set_ring_capacity-IsCapacity_example =
    set_ring_capacity-IsCapacity 40 1000 (omega arith) (omega arith)

set_ring_capacity-diverges_example : set_ring_capacity 100 3000000000 ≡ none
set_ring_capacity-diverges_example = set_ring_capacity-diverges 100 3000000000 (omega arith)

abbrev outsider : Home
outsider = record { ctx = none; dropped_spans = 0 }

pub four-IsCapacity : IsCapacity 3 4
four-IsCapacity = record {
  exponent = 2;
  power = refl;
  bounds = (omega arith, omega arith);
  enough = omega arith;
  least = (omega arith, omega arith);
}

abbrev no_span : Ring
no_span = new_ring 4

no_span-Holds : Holds no_span []
no_span-Holds = new_ring-Holds 3 4 four-IsCapacity

-- the ring with the span in its first slot
abbrev pub one_span : Ring
one_span = publish (set_slot no_span event_span)

pub one_span-Holds : Holds one_span (event_span ∷ [])
one_span-Holds = record {
  from = 0;
  count = 1;
  ring = record {
    tail = refl;
    head = refl;
    fits = omega arith;
    some_slot = (omega arith, omega arith);
    power = no_span-Holds.ring.power;
  };
  content = refl;
}

abbrev pub finished : Finished
finished = record { s = event_span; m = one_event; own = own; holds = event_span-IsSpan }

abbrev pub rings : Rings
rings slot = one_span.slots slot.1

abbrev pub out : Out
out = record {
  otlp = record { spans = []; pools = no_pools; transport = true; sent = [] };
  sink = some (record { has_begin = true; has_span = true; has_end = true; calls = [] });
}

pub out-IsBatch : IsBatch out.otlp
out-IsBatch = record {
  spans_fit = omega arith;
  attrs_fit = omega arith;
  events_fit = omega arith;
  spans_in = tt;
  events_in = tt;
  idle = λ e. (refl, refl);
}

drain-Drained_example :
    let (out', threads', n) = drain true rings out (one_span ∷ []) in
    Drained rings out out' (finished ∷ []) × AllEmpty threads' × (n ≡ pos 1)
drain-Drained_example =
    drain-Drained rings out (one_span ∷ []) ((finished ∷ []) ∷ []) (one_span-Holds, λ i. refl, tt)
      out-IsBatch refl (omega arith)

-- A span is checked, copied and published, then loaded, emitted and its slot given back.
abbrev after_copy : Shared
after_copy = record (start no_span) { ring = set_slot no_span fresh; producer = written fresh }

abbrev after_store : Shared
after_store = record (start (publish (set_slot no_span fresh))) { accepted = fresh ∷ [] }

abbrev after_emit : Shared
after_emit = record after_store { consumer = looping 1 1; emitted = fresh ∷ [] }

first_run : Steps (start no_span) after_store
unfolding used
first_run =
    then_step
      (then_step
        (then_step {u = start no_span} {v = record (start no_span) { producer = ready fresh }} stop
          (check fresh refl refl))
        (copy fresh refl))
      (store_head fresh refl)

full_run : Steps (start no_span) after_emit
full_run =
    then_step {u = record after_store { consumer = looping 0 1 }} (then_step first_run (load refl))
      (emit 0 1 refl refl)

Steps-in_order_example :
    (waiting : List Span) × (after_emit.accepted ≡ after_emit.emitted ++ waiting)
    × (length waiting ≤ after_emit.ring.capacity)
Steps-in_order_example = Steps-in_order 0 (new_ring-IsRing 3 4 four-IsCapacity) full_run

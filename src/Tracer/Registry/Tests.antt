-- ===== src/Tracer/Registry/Tests.antt =====
-- Two threads register, end spans and leave, on an empty registry.
use oteltracing_c.Base.Int.{ℤ}
use oteltracing_c.Tracer.Registry.Isolation.{thread_calls-Alone, home_of, Alone}
use oteltracing_c.Tracer.Ring.{span_end, thread_register, used, Ring, enqueue}
use oteltracing_c.Tracer.Drain.{emit_span, emit_all, drain_ctx, drain_threads, drain}
use oteltracing_c.Tracer.Registry.{
  last_drain, register_of, Process, register, end_span, unregister, tracer_drain, shutdown,
}
use oteltracing_c.Base.{ℕ, ◌≡◌, refl, true, none, some, List, [], ◌∷◌}
use oteltracing_c.Base.Lists.{length}
use oteltracing_c.Span.{recording}
use oteltracing_c.Span.Tests.{event_span}
use oteltracing_c.Tracer.Tests.{four-IsCapacity, finished, out, out-IsBatch}
use oteltracing_c.Tracer.Registry.Owned.{IsOwned}
use oteltracing_c.Tracer.Registry.Balance.{Holding}
use oteltracing_c.Tracer.Registry.Delivery.{Delivered, all_taken, run-Delivered}
use oteltracing_c.Tracer.Registry.Run.{Call, enter, leave, finish, flush, run, step}
use oteltracing_c.Tracer.Registry.Safe.{IsProcess, AnyRing, run-IsProcess, register-IsProcess}
use oteltracing_c.Tracer.Registry.Shutdown.{
  Freed, shutdown-Freed, shutdown-IsProcess, shutdown-straggler,
}

abbrev idle : Process
idle = record {
  heap = λ c. none;
  next = 1;
  threads = [];
  tls = λ t. none;
  switches = record {
    initialized = true;
    transport_present = true;
    sink_present = true;
    runtime_on = true;
    enabled = true;
  };
  out = out;
  dropped_spans = 0;
  ring_capacity = 4;
}

idle_IsOwned : (Good : ℕ → Ring → Type 0) → IsOwned Good idle
idle_IsOwned Good = record {
  distinct = tt;
  live = λ c h. absurd (cc h);
  gone = λ c h. refl;
  fresh = λ c h. absurd (cc h);
  held = λ t c e. absurd (cc e);
  alone = λ t u c e k. absurd (cc e);
  owner = λ c h. absurd (cc h);
}

idle_Holding : Holding (λ c. []) idle
idle_Holding = record {
  owned = idle_IsOwned _;
  enabled = refl;
  transport = refl;
  batch = out-IsBatch;
  nothing_pending = refl;
  capacity = (3, four-IsCapacity);
}

-- The thread 9 never registers.
abbrev session : List Call
session =
    enter 7
    ∷ finish 7 finished 90
    ∷ enter 8
    ∷ finish 8 finished 91
    ∷ finish 9 finished 92
    ∷ leave 7
    ∷ flush
    ∷ finish 8 finished 93
    ∷ []

taken_of_session : length (all_taken idle session) ≡ 3
unfolding step register end_span unregister tracer_drain enqueue used recording last_drain drain
    drain_threads drain_ctx emit_all emit_span
taken_of_session = refl

run-IsProcess_example : (p' : Process) × (run idle session ≡ some p') × IsProcess p'
run-IsProcess_example = run-IsProcess idle session (idle_IsOwned AnyRing)

run-Delivered_example :
    (p1 p2 : Process) × (n : ℤ) × (run idle session ≡ some p1)
    × (tracer_drain p1 ≡ some (p2, n))
    × Delivered (λ c. []) idle session p2
run-Delivered_example = run-Delivered (λ c. []) idle session idle_Holding

event_span-recording : recording event_span ≡ true
unfolding recording
event_span-recording = refl

-- the thread 7 is registered
abbrev busy : Process
busy = register_of idle 7 none

busy-IsProcess : IsProcess busy
unfolding register
busy-IsProcess = register-IsProcess idle (idle_IsOwned AnyRing) 7

shutdown-Freed_example : (p' : Process) × (shutdown busy ≡ some p') × Freed busy p'
shutdown-Freed_example = shutdown-Freed busy busy-IsProcess refl

shutdown-IsProcess_example : (p' : Process) × (shutdown idle ≡ some p') × IsProcess p'
shutdown-IsProcess_example = shutdown-IsProcess idle (idle_IsOwned AnyRing) refl (λ t. refl)

shutdown-straggler_example :
    (p' : Process) × (shutdown busy ≡ some p')
    × (register p' 7 ≡ p')
    × (unregister p' 7 ≡ none)
    × (end_span p' 7 event_span 95 ≡ none)
shutdown-straggler_example =
    shutdown-straggler busy 7 1 event_span 95 busy-IsProcess refl refl event_span-recording

thread_calls-Alone_example :
    Alone busy (register busy 8) 8 (thread_register 4 (home_of busy 8))
    × ((p' : Process) × (end_span busy 8 event_span 95 ≡ some p')
        × Alone busy p' 8 (span_end (home_of busy 8) event_span 95).0)
thread_calls-Alone_example = thread_calls-Alone busy busy-IsProcess 8 event_span 95

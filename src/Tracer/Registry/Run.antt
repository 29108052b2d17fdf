-- ===== src/Tracer/Registry/Run.antt =====
-- The calls of a program on the registry, in the order in which they take effect.
use oteltracing_c.Base.Int.{ℤ}
use oteltracing_c.Base.{ℕ, Option, none, some, List, [], ◌∷◌}
use oteltracing_c.Tracer.Drain.Deliver.{Finished}
use oteltracing_c.Tracer.Registry.{Process, register, unregister, end_span, tracer_drain}

-- A call: a thread registers or unregisters, a thread ends a span at a time, or a drain.
pub data Call : Type 0 where
  enter : ℕ → Call
  leave : ℕ → Call
  finish : ℕ → Finished → ℕ → Call
  flush : Call

abbrev pub without_count : Option (Process × ℤ) → Option Process
without_count none = none
without_count (some (p, n)) = some p

unfoldable pub step : Process → Call → Option Process
step p (enter t) = some (register p t)
step p (leave t) = unregister p t
step p (finish t f now) = end_span p t f.s now
step p flush = without_count (tracer_drain p)

abbrev pub and_then : Option Process → (Process → Option Process) → Option Process
and_then none k = none
and_then (some p) k = k p

abbrev pub run : Process → List Call → Option Process
run p [] = some p
run p (o ∷ os) = and_then (step p o) (λ p'. run p' os)

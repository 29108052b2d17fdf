-- ===== src/Tracer/Drain.antt =====
-- `otel_emit_span`, `otel_drain_ctx`, `otel_drain` of oteltracing.c.
pub mod Deliver
pub mod Fits
use oteltracing_c.Base.{
  ℕ, suc, ◌+◌, ◌%◌, ◌^◌, Bool, true, false, Option, none, some, List, [], ◌∷◌, ◌++◌, map,
}
use oteltracing_c.Base.Int.{ℤ, pos, to_int}
use oteltracing_c.Base.Lists.{length}
use oteltracing_c.Base.Tests.{if◌then◌else◌}
use oteltracing_c.Span.{Span}
use oteltracing_c.Otlp.{Slot, Rings, Otlp}
use oteltracing_c.Otlp.Batch.{otlp_add_span, otlp_flush}
use oteltracing_c.Tracer.Ring.{Ring, drained, emptied}

-- The calls of the functions of `struct otel_span_sink`.
pub data SinkCall : Type 0 where
  begin : SinkCall
  span : Span → SinkCall
  end : SinkCall

-- A sink: which of its functions are set, and the calls that it got so far.
pub record Sink : Type 0 where
  pub has_begin : Bool
  pub has_span : Bool
  pub has_end : Bool
  pub calls : List SinkCall

abbrev pub call_if : Bool → Sink → List SinkCall → Sink
call_if given k cs = record k { calls = if given then k.calls ++ cs else k.calls }

-- Where spans go: the batch, with its transport, and the sink.
pub record Out : Type 0 where
  pub otlp : Otlp
  pub sink : Option Sink

abbrev pub at_sink : Option Sink → (Sink → Sink) → Option Sink
at_sink none f = none
at_sink (some k) f = some (f k)

-- `otel_emit_span` of the span in a slot; `transport_present` says that `transport` is set.
unfoldable pub emit_span : Rings → Out → Slot → Out
emit_span rings out slot = record {
  otlp = if out.otlp.transport then otlp_add_span rings out.otlp slot else out.otlp;
  sink = at_sink out.sink (λ k. call_if k.has_span k (span (rings slot) ∷ []));
}

unfoldable pub emit_all : Rings → Out → List Slot → Out
emit_all rings out [] = out
emit_all rings out (slot ∷ slots) = emit_all rings (emit_span rings out slot) slots

-- the slots of the ring `c` that a drain visits
abbrev pub visited : ℕ → Ring → List Slot
visited c r = map (λ i. (c, i)) (drained (suc r.capacity) r r.tail)

-- `otel_drain_ctx`: the ring after it, and the 32 bits of its `int n`, which wraps as on a machine
-- where C leaves the overflow undefined
unfoldable pub drain_ctx : Rings → Out → ℕ → Ring → Out × Ring × ℕ
drain_ctx rings out c r = (
  emit_all rings out (visited c r),
  emptied r,
  length (drained (suc r.capacity) r r.tail) % 2 ^ 32,
)

-- the loop of `otel_drain` over the contexts, the first of which has the number `c`, with the 32
-- bits that it adds to `n`
unfoldable pub drain_threads : Rings → Out → ℕ → List Ring → Out × List Ring × ℕ
drain_threads rings out c [] = (out, [], 0)
drain_threads rings out c (r ∷ rs) =
    let (out1, r1, n) = drain_ctx rings out c r in
    let (out2, rs2, k) = drain_threads rings out1 (suc c) rs in (out2, r1 ∷ rs2, (n + k) % 2 ^ 32)

-- `otel_drain`, with the contexts in the order of the registry
unfoldable pub drain : (enabled : Bool) → Rings → Out → List Ring → Out × List Ring × ℤ
drain false rings out threads = (out, threads, pos 0)
drain true rings out threads =
    let out1 = record out { sink = at_sink out.sink (λ k. call_if k.has_begin k (begin ∷ [])) } in
    let (out2, rs, n) = drain_threads rings out1 0 threads in
    (
      record {
        otlp = otlp_flush rings out2.otlp;
        sink = at_sink out2.sink (λ k. call_if k.has_end k (end ∷ []));
      },
      rs,
      to_int n,
    )

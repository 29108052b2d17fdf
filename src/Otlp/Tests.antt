-- ===== src/Otlp/Tests.antt =====
-- Two spans in the batch, then a flush.
use oteltracing_c.Otlp.Batch.{no_pools, otlp_add_span}
use oteltracing_c.Otlp.Encode.{span_msg}
use oteltracing_c.Otlp.{Otlp, Rings}
use oteltracing_c.Otlp.Deliver.{SpanAdded, otlp_add_span-SpanAdded}
use oteltracing_c.Otlp.Spans.{IsBatch}
use oteltracing_c.Base.{[], refl, true, arith}
use oteltracing_c.Span.Tests.{event_span, one_event, event_span-IsSpan}

-- every slot holds the span with one event
abbrev rings : Rings
rings slot = event_span

abbrev no_batch : Otlp
no_batch = record { spans = []; pools = no_pools; transport = true; sent = [] }

no_batch-IsBatch : IsBatch no_batch
no_batch-IsBatch = record {
  spans_fit = omega arith;
  attrs_fit = omega arith;
  events_fit = omega arith;
  spans_in = tt;
  events_in = tt;
  idle = λ e. (refl, refl);
}

abbrev one_span : Otlp
one_span = otlp_add_span rings no_batch (0, 0)

one_span-SpanAdded : SpanAdded rings no_batch one_span (span_msg event_span one_event)
one_span-SpanAdded =
    otlp_add_span-SpanAdded rings (0, 0) event_span-IsSpan no_batch no_batch-IsBatch refl

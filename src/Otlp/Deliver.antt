-- ===== src/Otlp/Deliver.antt =====
-- Spans reach the transport in order, each once, and the batch never leaves its arrays.
use oteltracing_c.Base.{
  ℕ, ◌+◌, ◌≤◌, ◌<◌, ◌≡◌, refl, ap, ◌∙◌, sym, Bool, true, inl, inr, List, [], ◌∷◌, ◌++◌, arith,
}
use oteltracing_c.Base.Tests.{◌==◌, Bool-cases}
use oteltracing_c.Base.Lists.{length}
use mathlib.Core.List.{append-nil, append_assoc}
use oteltracing_c.Span.View.{SpanView, EventView, IsSpan, event_records}
use oteltracing_c.Span.View.Events.{length-le-event_records}
use oteltracing_c.Otlp.{Slot, Rings, Otlp, SpanMsg, batch_spans, batch_attrs, batch_events}
use oteltracing_c.Otlp.Batch.{pending, otlp_flush, put_span, otlp_add_span, is_full, no_pools}
use oteltracing_c.Otlp.Encode.{span_msg}
use oteltracing_c.Otlp.Events.{event_attrs}
use oteltracing_c.Otlp.Spans.{IsBatch, put_span-pending, put_span-IsBatch, is_full_lem}

-- the spans of all requests, in order
abbrev pub all_sent : List (List SpanMsg) → List SpanMsg
all_sent [] = []
all_sent (r ∷ rs) = r ++ all_sent rs

all_sent-snoc :
    (rs : List (List SpanMsg)) (r : List SpanMsg) → all_sent (rs ++ (r ∷ [])) ≡ all_sent rs ++ r
all_sent-snoc [] r = append-nil r
all_sent-snoc (x ∷ rs) r =
    ap (λ l. x ++ l) (all_sent-snoc rs r) ∙ sym (append_assoc x (all_sent rs) r)

-- What the transport was given, and what it will be given at the next flush.
abbrev pub delivered : Rings → Otlp → List SpanMsg
delivered rings o = all_sent o.sent ++ pending rings o

empty_IsBatch :
    (on : Bool) (sent : List (List SpanMsg))
    → IsBatch (record { spans = []; pools = no_pools; transport = on; sent = sent })
empty_IsBatch on sent = record {
  spans_fit = omega arith;
  attrs_fit = omega arith;
  events_fit = omega arith;
  spans_in = tt;
  events_in = tt;
  idle = λ e. (refl, refl);
}

-- After a flush nothing is in the batch, and all that was in it is with the transport.
pub record Flushed (rings : Rings) (o o' : Otlp) : Type 0 where
  pub content : delivered rings o' ≡ delivered rings o
  pub spans : length o'.spans ≡ 0
  pub transport : o'.transport ≡ o.transport
  pub batch : IsBatch o'

-- With a transport set and a well-formed batch, otlp_flush leaves an empty, well-formed batch, the
-- transport is still set, and what it was given together with what is pending is the same list of
-- span messages as before.
pub otlp_flush-Flushed :
    (rings : Rings) (o : Otlp)
    → o.transport ≡ true
    → IsBatch o
    → Flushed rings o (otlp_flush rings o)
unfolding otlp_flush
otlp_flush-Flushed rings o on b = elim (Bool-cases (length o.spans == 0)) [
  | inl none ↦
      rw none (record { content = refl; spans = ground arith; transport = refl; batch = b })
  | inr some ↦
      rw (some, on)
        (record {
          content =
              append-nil (all_sent (o.sent ++ (pending rings o ∷ [])))
              ∙ all_sent-snoc o.sent (pending rings o);
          spans = refl;
          transport = refl;
          batch = empty_IsBatch true (o.sent ++ (pending rings o ∷ []));
        })
]

event_attrs_le : (vs : List EventView) → event_attrs vs ≤ event_records vs
event_attrs_le [] = omega arith
event_attrs_le (v ∷ vs) = omega (arith, event_attrs_le vs)

-- After `otlp_add_span` the span is behind all others.
pub record SpanAdded (rings : Rings) (o o' : Otlp) (msg : SpanMsg) : Type 0 where
  pub content : delivered rings o' ≡ delivered rings o ++ (msg ∷ [])
  pub transport : o'.transport ≡ o.transport
  pub batch : IsBatch o'

module _ (rings : Rings) (slot : Slot) {own : ℕ → ℕ} {m : SpanView}
    (v : IsSpan own (rings slot) m) where
  put_span-SpanAdded :
      (o : Otlp)
      → IsBatch o
      → length o.spans < batch_spans
      → length o.pools.attr + length m.attrs + event_attrs m.events ≤ batch_attrs
      → length o.pools.event + length m.events ≤ batch_events
      → SpanAdded rings o (put_span rings o slot) (span_msg (rings slot) m)
  unfolding put_span
  put_span-SpanAdded o b spans attrs events = record {
    content =
        ap (λ l. all_sent o.sent ++ l) (put_span-pending rings o slot v b)
        ∙ sym (append_assoc (all_sent o.sent) (pending rings o) (span_msg (rings slot) m ∷ []));
    transport = refl;
    batch = put_span-IsBatch rings o slot v b spans attrs events;
  }

  -- One span alone fits into the pools.
  small : (length m.attrs + event_attrs m.events < 168) × (length m.events < 168)
  small = (
    omega (arith, v.budget, v.aligned.within, event_attrs_le m.events),
    omega (arith, v.budget, v.aligned.within, length-le-event_records m.events),
  )

  -- If the slot holds the content m, the batch is well formed and a transport is set, then after
  -- otlp_add_span of that slot what the transport was given together with what is pending is what
  -- it was before followed by exactly one message, the encoding of the span (its header fields and
  -- m, with all attributes and events in order); the transport is still set, and the batch is well
  -- formed: it stays inside its 256 spans, 2048 attributes and 1024 events, whether or not it was
  -- flushed first.
  pub otlp_add_span-SpanAdded :
      (o : Otlp)
      → IsBatch o
      → o.transport ≡ true
      → SpanAdded rings o (otlp_add_span rings o slot) (span_msg (rings slot) m)
  unfolding otlp_add_span
  otlp_add_span-SpanAdded o b on = elim (Bool-cases (is_full o (rings slot))) [
    | inl full ↦
        let f = otlp_flush-Flushed rings o on b in
        let nothing = f.batch.idle f.spans in
        let r =
          put_span-SpanAdded (otlp_flush rings o) f.batch (omega (arith, f.spans))
            (omega (arith, nothing, small)) (omega (arith, nothing, small)) in
        rw full (record {
          content = r.content ∙ ap (λ l. l ++ (span_msg (rings slot) m ∷ [])) f.content;
          transport = r.transport ∙ f.transport;
          batch = r.batch;
        })
    | inr room ↦
        let fits = sym (is_full_lem rings o slot v b) ∙ room in
        rw room (put_span-SpanAdded o b (ground (arith, b.spans_fit)) (ground arith) (ground arith))
  ]

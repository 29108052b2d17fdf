-- ===== src/Tracer/Drain/Fits.antt =====
-- Every request that a drain packs lies in the buffer of `otel_init`.
use oteltracing_c.Base.Tests.{if_ind, ◌==◌, if◌then◌else◌, Bool-cases}
use oteltracing_c.Otlp.Batch.{read_span, otlp_flush, otlp_add_span, put_span, is_full, pending}
use oteltracing_c.Span.View.{IsSpan}
use oteltracing_c.Base.{
  ℕ, suc, ◌≤◌, ◌≡◌, refl, sym, ap, ap₂, subst, ◌∙◌, inl, inr, true, Option, List, [], ◌∷◌, ◌++◌,
  map, arith,
}
use mathlib.Core.List.{map-append}
use oteltracing_c.Base.Lists.{length, length-map, All, All-append}
use oteltracing_c.Otlp.{Slot, Rings, Otlp, batch_spans}
use oteltracing_c.Otlp.Deliver.{otlp_flush-Flushed}
use oteltracing_c.Otlp.Encode.{span_msg}
use oteltracing_c.Otlp.Spans.{IsBatch, put_span-pending}
use oteltracing_c.Tracer.Drain.{
  Out, emit_span, emit_all, visited, drain_ctx, drain_threads, drain, at_sink, call_if, begin,
}
use oteltracing_c.Tracer.Drain.Deliver.{
  Finished, spans_of, messages, AllHold, visited-spans_of, emit_span-Emitted, emit_all-Emitted,
  drain_threads-Emitted,
}
use oteltracing_c.Tracer.Init.{Machine, Setup, started, buf_size}
use oteltracing_c.Tracer.Packed.{Wire, IsWire, Fits, request-Fits}
use oteltracing_c.Tracer.Ring.{Ring}

-- finished spans, the trace identifier of each of which has its 16 bytes
abbrev pub AllIds : List Finished → Type 0
AllIds fs = All (λ f. length f.s.trace_id ≡ 16) fs

-- All requests so far lie in the buffer, and the batch holds finished spans.
pub record AllFit (w : Wire) (t : Setup) (rings : Rings) (o : Otlp) : Type 0 where
  pub sent : All (Fits w t) o.sent
  pub waiting : List Finished
  pub content : pending rings o ≡ messages waiting
  pub ids : AllIds waiting

module _ (w : Wire) (law : IsWire w) (m : Machine) (service : Option (List ℕ))
    (memory : m.has_memory buf_size ≡ true) (rings : Rings) where
  flush-AllFit :
      (o : Otlp)
      → IsBatch o
      → AllFit w (started m service) rings o
      → AllFit w (started m service) rings (otlp_flush rings o)
  unfolding otlp_flush
  flush-AllFit o b a = elim (Bool-cases (length o.spans == 0)) [
    | inl idle ↦ rw idle a
    | inr busy ↦
        let few : length a.waiting ≤ batch_spans = omega (
          arith,
          b.spans_fit,
          ap length a.content,
          length-map (λ (f : Finished). span_msg f.s f.m) a.waiting,
          length-map (read_span rings o.pools) o.spans,
        ) in
        let fits = request-Fits w law m service a.waiting memory few a.ids in
        let fits' : Fits w (started m service) (pending rings o) =
          subst (Fits w (started m service)) (sym a.content) fits in
        rw busy (record {
          sent =
              if_ind (All (Fits w (started m service))) o.transport
                (λ on.
                  All-append (Fits w (started m service)) o.sent (pending rings o ∷ []) a.sent
                    (fits', tt))
                (λ off. a.sent);
          waiting = [];
          content = refl;
          ids = tt;
        })
  ]

  put-AllFit :
      (o : Otlp) (slot : Slot) (f : Finished)
      → rings slot ≡ f.s
      → length f.s.trace_id ≡ 16
      → IsBatch o
      → AllFit w (started m service) rings o
      → AllFit w (started m service) rings (put_span rings o slot)
  unfolding put_span
  put-AllFit o slot f e id b a =
      let v : IsSpan f.own (rings slot) f.m = rw e f.holds in
      record {
        sent = a.sent;
        waiting = a.waiting ++ (f ∷ []);
        content =
            put_span-pending rings o slot v b
            ∙ ap₂ (λ l s. l ++ (span_msg s f.m ∷ [])) a.content e
            ∙ sym (map-append (λ (f : Finished). span_msg f.s f.m) a.waiting (f ∷ []));
        ids = All-append (λ f. length f.s.trace_id ≡ 16) a.waiting (f ∷ []) a.ids (id, tt);
      }

  add-AllFit :
      (o : Otlp) (slot : Slot) (f : Finished)
      → rings slot ≡ f.s
      → length f.s.trace_id ≡ 16
      → IsBatch o
      → o.transport ≡ true
      → AllFit w (started m service) rings o
      → AllFit w (started m service) rings (otlp_add_span rings o slot)
  unfolding otlp_add_span
  add-AllFit o slot f e id b on a = elim (Bool-cases (is_full o (rings slot))) [
    | inl full ↦ rw full (
        put-AllFit (otlp_flush rings o) slot f e id (otlp_flush-Flushed rings o on b).batch
          (flush-AllFit o b a))
    | inr space ↦ rw space (put-AllFit o slot f e id b a)
  ]

  emit_all-AllFit :
      (out : Out) (slots : List Slot) (fs : List Finished)
      → map rings slots ≡ spans_of fs
      → AllIds fs
      → IsBatch out.otlp
      → out.otlp.transport ≡ true
      → AllFit w (started m service) rings out.otlp
      → AllFit w (started m service) rings (emit_all rings out slots).otlp
  unfolding emit_all emit_span
  emit_all-AllFit out [] fs e ids b on a = a
  emit_all-AllFit out (slot ∷ slots) [] e ids b on a = absurd (cc e)
  emit_all-AllFit out (slot ∷ slots) (f ∷ fs) e ids b on a =
      let first : rings slot ≡ f.s = cc e in
      let rest : map rings slots ≡ spans_of fs = cc e in
      let step = emit_span-Emitted rings out slot f first b on in
      let given : (if out.otlp.transport then otlp_add_span rings out.otlp slot else out.otlp)
          ≡ otlp_add_span rings out.otlp slot =
        ap (λ t. if t then otlp_add_span rings out.otlp slot else out.otlp) on in
      emit_all-AllFit (emit_span rings out slot) slots fs rest ids.1 step.batch step.transport (
        subst (AllFit w (started m service) rings) (sym given)
          (add-AllFit out.otlp slot f first ids.0 b on a))

  drain_threads-AllFit :
      (out : Out) (c : ℕ) (rs : List Ring) (fss : List (List Finished))
      → AllHold rings c rs fss
      → All AllIds fss
      → IsBatch out.otlp
      → out.otlp.transport ≡ true
      → AllFit w (started m service) rings out.otlp
      → AllFit w (started m service) rings (drain_threads rings out c rs).0.otlp
  unfolding drain_threads drain_ctx
  drain_threads-AllFit out c [] [] h ids b on a = a
  drain_threads-AllFit out c [] (fs ∷ fss) h ids b on a = absurd h
  drain_threads-AllFit out c (r ∷ rs) [] h ids b on a = absurd h
  drain_threads-AllFit out c (r ∷ rs) (fs ∷ fss) h ids b on a =
      let seen = visited-spans_of rings c r fs h.0 h.1 in
      let e = emit_all-Emitted rings out (visited c r) fs seen b on in
      drain_threads-AllFit (emit_all rings out (visited c r)) (suc c) rs fss h.2 ids.1 e.batch
        e.transport (emit_all-AllFit out (visited c r) fs seen ids.0 b on a)

  -- Take sizes of packed messages within the bounds of the protobuf wire format, what otel_init
  -- leaves when its malloc succeeds, for any service name and host name, and a drain with a
  -- transport set and a well-formed batch over rings that hold finished spans of known content
  -- with trace identifiers of 16 bytes. If all requests so far, with their header, lie in the
  -- buffer that otel_init allocated, and the batch holds such spans, then the same is true after
  -- the drain: no request overruns the buffer, however many spans, attributes and events there
  -- are.
  pub drain-AllFit :
      (out : Out) (threads : List Ring) (fss : List (List Finished))
      → AllHold rings 0 threads fss
      → All AllIds fss
      → IsBatch out.otlp
      → out.otlp.transport ≡ true
      → AllFit w (started m service) rings out.otlp
      → AllFit w (started m service) rings (drain true rings out threads).0.otlp
  unfolding drain
  drain-AllFit out threads fss h ids b on a =
      let out1 = record out { sink = at_sink out.sink (λ k. call_if k.has_begin k (begin ∷ [])) } in
      let e = drain_threads-Emitted rings out1 0 threads fss h b on in
      flush-AllFit (drain_threads rings out1 0 threads).0.otlp e.0.batch
        (drain_threads-AllFit out1 0 threads fss h ids b on a)

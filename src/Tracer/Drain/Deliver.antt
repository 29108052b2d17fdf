-- ===== src/Tracer/Drain/Deliver.antt =====
-- A drain hands over every span of every ring, once and in order.
use oteltracing_c.Base.{
  ℕ, suc, ◌<◌, ◌%◌, ◌^◌, ◌≡◌, refl, sym, subst, ap, ap₂, ◌∙◌, Bool, true, false, Option, none, some,
  List, [], ◌∷◌, ◌++◌, map, arith,
}
use mathlib.Core.List.{append-nil, append_assoc, map-append}
use oteltracing_c.Base.Lists.{length, length-map, length-append}
use oteltracing_c.Base.Int.{pos, to_int}
use oteltracing_c.Base.Tests.{ltb, if◌then◌else◌}
use oteltracing_c.Span.{Span}
use oteltracing_c.Span.View.{SpanView, IsSpan}
use oteltracing_c.Otlp.{Slot, Rings, Otlp, SpanMsg}
use oteltracing_c.Otlp.Batch.{otlp_add_span}
use oteltracing_c.Otlp.Encode.{span_msg}
use oteltracing_c.Otlp.Spans.{IsBatch}
use oteltracing_c.Otlp.Deliver.{delivered, otlp_add_span-SpanAdded, otlp_flush-Flushed}
use oteltracing_c.Tracer.Ring.{Ring, drained}
use oteltracing_c.Tracer.Ring.Queue.{Holds, Holds-le, drained-Holds}
use oteltracing_c.Tracer.Drain.{
  SinkCall, begin, span, end, Sink, call_if, Out, at_sink, emit_span, emit_all, visited, drain_ctx,
  drain_threads, drain,
}

-- a span together with what it holds
pub record Finished : Type 0 where
  pub s : Span
  pub m : SpanView
  pub own : ℕ → ℕ
  pub holds : IsSpan own s m

abbrev pub spans_of : List Finished → List Span
spans_of fs = map (λ f. f.s) fs

-- The messages that are due for these spans.
abbrev pub messages : List Finished → List SpanMsg
messages fs = map (λ f. span_msg f.s f.m) fs

-- The spans went to the batch and to the sink, in order.
pub record Emitted (rings : Rings) (out out' : Out) (fs : List Finished) : Type 0 where
  pub content : delivered rings out'.otlp ≡ delivered rings out.otlp ++ messages fs
  pub transport : out'.otlp.transport ≡ true
  pub batch : IsBatch out'.otlp
  pub sink : out'.sink ≡ at_sink out.sink (λ k. call_if k.has_span k (map span (spans_of fs)))

calls_twice :
    (b : Bool) (cs xs ys : List SinkCall)
    → (if b then (if b then cs ++ xs else cs) ++ ys else (if b then cs ++ xs else cs))
      ≡ (if b then cs ++ (xs ++ ys) else cs)
calls_twice true cs xs ys = append_assoc cs xs ys
calls_twice false cs xs ys = refl

calls_none : (b : Bool) (cs : List SinkCall) → cs ≡ (if b then cs ++ [] else cs)
calls_none true cs = sym (append-nil cs)
calls_none false cs = refl

at_sink-twice :
    (k : Option Sink) (xs ys : List SinkCall)
    → at_sink (at_sink k (λ k. call_if k.has_span k xs)) (λ k. call_if k.has_span k ys)
      ≡ at_sink k (λ k. call_if k.has_span k (xs ++ ys))
at_sink-twice none xs ys = refl
at_sink-twice (some k) xs ys =
    ap (λ c. some (record k { calls = c })) (calls_twice k.has_span k.calls xs ys)

at_sink-none : (k : Option Sink) → k ≡ at_sink k (λ k. call_if k.has_span k [])
at_sink-none none = refl
at_sink-none (some k) = ap (λ c. some (record k { calls = c })) (calls_none k.has_span k.calls)

Emitted-append :
    {rings : Rings} {o1 o2 o3 : Out} (fs gs : List Finished)
    → Emitted rings o1 o2 fs
    → Emitted rings o2 o3 gs
    → Emitted rings o1 o3 (fs ++ gs)
Emitted-append {rings} {o1} fs gs a r = record {
  content =
      r.content
      ∙ ap (λ l. l ++ messages gs) a.content
      ∙ append_assoc (delivered rings o1.otlp) (messages fs) (messages gs)
      ∙ ap (λ l. delivered rings o1.otlp ++ l) (sym (map-append (λ f. span_msg f.s f.m) fs gs));
  transport = r.transport;
  batch = r.batch;
  sink =
      r.sink
      ∙ ap (λ k. at_sink k (λ k. call_if k.has_span k (map span (spans_of gs)))) a.sink
      ∙ at_sink-twice o1.sink (map span (spans_of fs)) (map span (spans_of gs))
      ∙ ap (λ l. at_sink o1.sink (λ k. call_if k.has_span k l))
          (sym (map-append span (spans_of fs) (spans_of gs))
            ∙ ap (map span) (sym (map-append (λ f. f.s) fs gs)));
}

pub emit_span-Emitted :
    (rings : Rings) (out : Out) (slot : Slot) (f : Finished)
    → rings slot ≡ f.s
    → IsBatch out.otlp
    → out.otlp.transport ≡ true
    → Emitted rings out (emit_span rings out slot) (f ∷ [])
unfolding emit_span
emit_span-Emitted rings out slot f e b on =
    let v : IsSpan f.own (rings slot) f.m = rw e f.holds in
    let a = otlp_add_span-SpanAdded rings slot v out.otlp b on in
    let given : (if out.otlp.transport then otlp_add_span rings out.otlp slot else out.otlp)
        ≡ otlp_add_span rings out.otlp slot =
      ap (λ t. if t then otlp_add_span rings out.otlp slot else out.otlp) on in
    record {
      content =
          ap (delivered rings) given
          ∙ a.content
          ∙ ap (λ s. delivered rings out.otlp ++ (span_msg s f.m ∷ [])) e;
      transport = ap (λ (o : Otlp). o.transport) given ∙ a.transport ∙ on;
      batch = subst IsBatch (sym given) a.batch;
      sink = ap (λ s. at_sink out.sink (λ k. call_if k.has_span k (span s ∷ []))) e;
    }

pub emit_all-Emitted :
    (rings : Rings) (out : Out) (slots : List Slot) (fs : List Finished)
    → map rings slots ≡ spans_of fs
    → IsBatch out.otlp
    → out.otlp.transport ≡ true
    → Emitted rings out (emit_all rings out slots) fs
unfolding emit_all
emit_all-Emitted rings out [] [] e b on = record {
  content = sym (append-nil (delivered rings out.otlp));
  transport = on;
  batch = b;
  sink = at_sink-none out.sink;
}
emit_all-Emitted rings out [] (f ∷ fs) e b on = absurd (cc e)
emit_all-Emitted rings out (slot ∷ slots) [] e b on = absurd (cc e)
emit_all-Emitted rings out (slot ∷ slots) (f ∷ fs) e b on =
    let first : rings slot ≡ f.s = cc e in
    let rest : map rings slots ≡ spans_of fs = cc e in
    let a = emit_span-Emitted rings out slot f first b on in
    Emitted-append (f ∷ []) fs a
      (emit_all-Emitted rings (emit_span rings out slot) slots fs rest a.batch a.transport)

-- each ring holds these finished spans, and is the one that slots with its number belong to
abbrev pub AllHold : Rings → ℕ → List Ring → List (List Finished) → Type 0
AllHold rings c [] [] = Unit {0}
AllHold rings c [] (fs ∷ fss) = ⊥
AllHold rings c (r ∷ rs) [] = ⊥
AllHold rings c (r ∷ rs) (fs ∷ fss) =
    Holds r (spans_of fs) × ((i : ℕ) → rings (c, i) ≡ r.slots i) × AllHold rings (suc c) rs fss

abbrev pub all_spans : List (List Finished) → List Finished
all_spans [] = []
all_spans (fs ∷ fss) = fs ++ all_spans fss

abbrev pub AllEmpty : List Ring → Type 0
AllEmpty [] = Unit {0}
AllEmpty (r ∷ rs) = Holds r [] × AllEmpty rs

visited_slots :
    (rings : Rings) (c : ℕ) (r : Ring)
    → ((i : ℕ) → rings (c, i) ≡ r.slots i)
    → (is : List ℕ) → map rings (map (λ i. (c, i)) is) ≡ map r.slots is
visited_slots rings c r same [] = refl
visited_slots rings c r same (i ∷ is) = ap₂ ◌∷◌ (same i) (visited_slots rings c r same is)

-- A drain of a ring visits the slots of the spans that it holds.
pub visited-spans_of :
    (rings : Rings) (c : ℕ) (r : Ring) (fs : List Finished)
    → Holds r (spans_of fs)
    → ((i : ℕ) → rings (c, i) ≡ r.slots i)
    → map rings (visited c r) ≡ spans_of fs
visited-spans_of rings c r fs h same =
    let room : length (spans_of fs) < suc r.capacity = omega (arith, Holds-le h) in
    visited_slots rings c r same (drained (suc r.capacity) r r.tail)
    ∙ (drained-Holds (suc r.capacity) r (spans_of fs) h room).0

pub drain_threads-Emitted :
    (rings : Rings) (out : Out) (c : ℕ) (rs : List Ring) (fss : List (List Finished))
    → AllHold rings c rs fss
    → IsBatch out.otlp
    → out.otlp.transport ≡ true
    → let (out', rs', n) = drain_threads rings out c rs in
      Emitted rings out out' (all_spans fss) × AllEmpty rs' × (n ≡ length (all_spans fss) % 2 ^ 32)
unfolding drain_threads drain_ctx emit_all
drain_threads-Emitted rings out c [] [] h b on =
    (emit_all-Emitted rings out [] [] refl b on, tt, refl)
drain_threads-Emitted rings out c [] (fs ∷ fss) h b on = absurd h
drain_threads-Emitted rings out c (r ∷ rs) [] h b on = absurd h
drain_threads-Emitted rings out c (r ∷ rs) (fs ∷ fss) h b on =
    let room : length (spans_of fs) < suc r.capacity = omega (arith, Holds-le h.0) in
    let d = drained-Holds (suc r.capacity) r (spans_of fs) h.0 room in
    let is = drained (suc r.capacity) r r.tail in
    let a =
      emit_all-Emitted rings out (visited c r) fs (visited-spans_of rings c r fs h.0 h.1) b on in
    let rest =
      drain_threads-Emitted rings (emit_all rings out (visited c r)) (suc c) rs fss h.2 a.batch
        a.transport in
    (
      Emitted-append fs (all_spans fss) a rest.0,
      (d.1, rest.1),
      omega (
        arith,
        ap length d.0,
        length-map r.slots is,
        length-map (λ (f : Finished). f.s) fs,
        length-append fs (all_spans fss),
        rest.2,
      ),
    )

at_sink-at_sink :
    (k : Option Sink) (f g : Sink → Sink) → at_sink (at_sink k f) g ≡ at_sink k (λ x. g (f x))
at_sink-at_sink none f g = refl
at_sink-at_sink (some k) f g = refl

-- What a drain does: all finished spans are with the transport, and the sink got each between one
-- call of its `begin` and one of its `end`.
pub record Drained (rings : Rings) (out out' : Out) (fs : List Finished) : Type 0 where
  pub content : delivered rings out'.otlp ≡ delivered rings out.otlp ++ messages fs
  pub nothing_left : length out'.otlp.spans ≡ 0
  pub transport : out'.otlp.transport ≡ true
  pub batch : IsBatch out'.otlp
  pub sink :
      out'.sink
      ≡ at_sink out.sink (λ k.
        call_if k.has_end
          (call_if k.has_span (call_if k.has_begin k (begin ∷ [])) (map span (spans_of fs)))
          (end ∷ []))

-- What a drain does to the batch, the sink and the rings, however many spans there are.
pub drain-handed :
    (rings : Rings) (out : Out) (threads : List Ring) (fss : List (List Finished))
    → AllHold rings 0 threads fss
    → IsBatch out.otlp
    → out.otlp.transport ≡ true
    → let (out', threads', n) = drain true rings out threads in
      Drained rings out out' (all_spans fss)
      × AllEmpty threads'
      × (n ≡ to_int (length (all_spans fss) % 2 ^ 32))
unfolding drain
drain-handed rings out threads fss h b on =
    let out1 = record out { sink = at_sink out.sink (λ k. call_if k.has_begin k (begin ∷ [])) } in
    let (e, cleared, n) = drain_threads-Emitted rings out1 0 threads fss h b on in
    let f =
      otlp_flush-Flushed rings (drain_threads rings out1 0 threads).0.otlp e.transport e.batch in
    (
      record {
        content = f.content ∙ e.content;
        nothing_left = f.spans;
        transport = f.transport ∙ e.transport;
        batch = f.batch;
        sink =
            ap (λ k. at_sink k (λ k. call_if k.has_end k (end ∷ [])))
              (e.sink
                ∙ at_sink-at_sink out.sink (λ k. call_if k.has_begin k (begin ∷ []))
                    (λ k. call_if k.has_span k (map span (spans_of (all_spans fss)))))
            ∙ at_sink-at_sink out.sink
                (λ k.
                  call_if k.has_span (call_if k.has_begin k (begin ∷ []))
                    (map span (spans_of (all_spans fss))))
                (λ k. call_if k.has_end k (end ∷ []));
      },
      cleared,
      ap to_int n,
    )

-- With tracing enabled, a transport set and a well-formed batch, if each ring of the registry
-- holds finished spans of known content and is the ring that the slots of its number belong to,
-- and there are fewer than 2^31 spans in all, then drain hands over all of them: what the
-- transport was given is what it was given or due before followed by one message for each span,
-- ring by ring and oldest first; the batch is empty and well formed and the transport still set; a
-- sink, if there is one, got its begin, every span in the same order, and its end, as far as these
-- functions are set; every ring is empty; and the int returned is the number of the spans.
pub drain-Drained :
    (rings : Rings) (out : Out) (threads : List Ring) (fss : List (List Finished))
    → AllHold rings 0 threads fss
    → IsBatch out.otlp
    → out.otlp.transport ≡ true
    → length (all_spans fss) < 2 ^ 31
    → let (out', threads', n) = drain true rings out threads in
      Drained rings out out' (all_spans fss)
      × AllEmpty threads'
      × (n ≡ pos (length (all_spans fss)))
unfolding to_int
drain-Drained rings out threads fss h b on few =
    let (d, cleared, n) = drain-handed rings out threads fss h b on in
    let bits : length (all_spans fss) % 2 ^ 32 ≡ length (all_spans fss) = omega (arith, few) in
    let positive : ltb (length (all_spans fss)) (2 ^ 31) ≡ true = ground (arith, few) in
    (d, cleared, n ∙ ap to_int bits ∙ rw positive refl)

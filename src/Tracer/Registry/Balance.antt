-- ===== src/Tracer/Registry/Balance.antt =====
-- What a call does to the spans that are with the transport or in a ring of the registry.
use oteltracing_c.Base.{
  ℕ, ◌+◌, ◌%◌, ◌^◌, ◌≡◌, refl, sym, ap, subst, ◌∙◌, true, Option, none, some, List, [], ◌∷◌, ◌++◌,
  map, arith,
}
use oteltracing_c.Base.Tests.{leb, if◌then◌else◌}
use oteltracing_c.Base.Lists.{length}
use mathlib.Core.List.{Perm, append-nil}
use mathlib.Core.List.Perm
use oteltracing_c.Span.{recording}
use oteltracing_c.Otlp.{Rings, Otlp, SpanMsg}
use oteltracing_c.Otlp.Spans.{IsBatch}
use oteltracing_c.Otlp.Batch.{read_span}
use oteltracing_c.Otlp.Deliver.{all_sent, delivered}
use oteltracing_c.Tracer.Capacity.{IsCapacity}
use oteltracing_c.Tracer.Ring.{Ring, used}
use oteltracing_c.Tracer.Drain.{Out, drain}
use oteltracing_c.Tracer.Drain.Deliver.{
  Finished, messages, AllHold, AllEmpty, all_spans, drain-handed,
}
use oteltracing_c.Tracer.Registry.{Process}
use oteltracing_c.Tracer.Registry.Owned.{IsOwned}
use oteltracing_c.Tracer.Registry.Queues.{Queues, queue, HoldsQueue}
use oteltracing_c.Tracer.Registry.Run.{Call, enter, leave, finish, flush}

-- Tracing is enabled with a transport, nothing is pending in the batch, and each context holds
-- the spans that `q` says.
pub record Holding (q : Queues) (p : Process) : Type 0 where
  pub owned : IsOwned (HoldsQueue q) p
  pub enabled : p.switches.enabled ≡ true
  pub transport : p.out.otlp.transport ≡ true
  pub batch : IsBatch p.out.otlp
  pub nothing_pending : length p.out.otlp.spans ≡ 0
  pub capacity : (spans : ℕ) × IsCapacity spans p.ring_capacity

-- What the transport was given, and what it will be given for the spans in the rings.
abbrev pub total : Queues → Process → List SpanMsg
total q p = all_sent p.out.otlp.sent ++ messages (queue q p.threads)

-- The spans `fs` are new, and `n` spans were ended.
pub record Kept (q : Queues) (p : Process) (fs : List Finished) (n : ℕ) (p' : Process)
    : Type 0 where
  pub q' : Queues
  pub holding : Holding q' p'
  pub content : Perm (total q' p') (total q p ++ messages fs)
  pub dropped : (p'.dropped_spans + length fs) % 2 ^ 64 ≡ (p.dropped_spans + n) % 2 ^ 64

pub same-Kept :
    {q q' : Queues} {p p' : Process}
    → Holding q' p'
    → total q' p' ≡ total q p
    → p'.dropped_spans ≡ p.dropped_spans
    → Kept q p [] 0 p'
same-Kept {q} {q'} {p} {p'} h e d = record {
  q' = q';
  holding = h;
  content =
      subst (λ l. Perm (total q' p') l) (e ∙ sym (append-nil (total q p)))
        (Perm.refl (total q' p'));
  dropped = omega (arith, d);
}

empty_list : {A : Type 0} (xs : List A) → length xs ≡ 0 → xs ≡ []
empty_list [] e = refl
empty_list (x ∷ xs) e = absurd (omega (arith, e))

-- With nothing pending, what is delivered is what was sent.
delivered-sent :
    (rings : Rings) (o : Otlp) → length o.spans ≡ 0 → delivered rings o ≡ all_sent o.sent
delivered-sent rings o e =
    ap (λ l. all_sent o.sent ++ map (read_span rings o.pools) l) (empty_list o.spans e)
    ∙ append-nil (all_sent o.sent)

-- A drain of rings that hold known spans, with nothing pending before: all of them are sent.
pub drain-sent :
    (rings : Rings) (out : Out) (rs : List Ring) (fss : List (List Finished))
    → AllHold rings 0 rs fss
    → IsBatch out.otlp
    → out.otlp.transport ≡ true
    → length out.otlp.spans ≡ 0
    → let (out', rs', n) = drain true rings out rs in
      (all_sent out'.otlp.sent ≡ all_sent out.otlp.sent ++ messages (all_spans fss))
      × (length out'.otlp.spans ≡ 0)
      × (out'.otlp.transport ≡ true)
      × IsBatch out'.otlp
      × AllEmpty rs'
drain-sent rings out rs fss h b on none_pending =
    let (d, e, n) = drain-handed rings out rs fss h b on in
    (
      sym (delivered-sent rings (drain true rings out rs).0.otlp d.nothing_left)
          ∙ d.content
          ∙ ap (λ l. l ++ messages (all_spans fss)) (delivered-sent rings out.otlp none_pending),
      d.nothing_left,
      d.transport,
      d.batch,
      e,
    )

-- the span as it is put into the ring
abbrev pub ended : Finished → ℕ → Finished
ended f now = record {
  s = record f.s { end_unix_ns = now };
  m = f.m;
  own = f.own;
  holds = record {
    aligned = record { within = f.holds.aligned.within; aligned = f.holds.aligned.aligned };
    name = f.holds.name;
    message = f.holds.message;
    attrs = f.holds.attrs;
    events = f.holds.events;
    num_attrs = f.holds.num_attrs;
    num_events = f.holds.num_events;
    budget = f.holds.budget;
    weight = f.holds.weight;
  };
}

-- the span that a call ends, if it is recorded
abbrev pub finished_by : Call → List Finished
finished_by (finish t f now) = if recording f.s then ended f now ∷ [] else []
finished_by (enter t) = []
finished_by (leave t) = []
finished_by flush = []

-- what a context takes of it
abbrev pub taken_by : Option Ring → List Finished → List Finished
taken_by none fs = []
taken_by (some r) fs = if leb r.capacity (used r) then [] else fs

abbrev pub taken_on : (ℕ → Option Ring) → Option ℕ → List Finished → List Finished
taken_on heap none fs = []
taken_on heap (some c) fs = taken_by (heap c) fs

-- The span that a call puts into a ring: there is none without a registered thread and a ring that
-- has room.
abbrev pub taken : Process → Call → List Finished
taken p (finish t f now) = taken_on p.heap (p.tls t) (finished_by (finish t f now))
taken p (enter t) = []
taken p (leave t) = []
taken p flush = []

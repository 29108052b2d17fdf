-- ===== src/Tracer/Registry/Delivery.antt =====
-- Every span that a ring takes reaches the transport.
use oteltracing_c.Base.Int.{ℤ}
use oteltracing_c.Tracer.Registry.Run.{
  without_count, and_then, run, step, Call, enter, leave, finish, flush,
}
use oteltracing_c.Tracer.Registry.Keep.{finish-Kept, register-Kept}
use oteltracing_c.Tracer.Registry.Empty.{leave-Kept, flush-Kept}
use oteltracing_c.Base.Lists.{length-append, length}
use oteltracing_c.Tracer.Registry.{unregister, tracer_drain, unregister_of, Process, register}
use oteltracing_c.Tracer.Registry.Queues.{queue_empty, Queues}
use oteltracing_c.Base.{
  ◌+◌, ◌%◌, ◌^◌, ◌≡◌, refl, sym, ap, subst, ◌∙◌, inl, inr, Option, none, some, List, [], ◌∷◌, ◌++◌,
  arith,
}
use mathlib.Core.List.{Perm, append_assoc, append-nil, map-append}
use mathlib.Core.List.Perm
use oteltracing_c.Otlp.Encode.{span_msg}
use oteltracing_c.Otlp.Deliver.{all_sent}
use oteltracing_c.Tracer.Drain.Deliver.{Finished, messages}
use oteltracing_c.Tracer.Registry.Safe.{tls_cases}
use oteltracing_c.Tracer.Registry.Balance.{Holding, total, Kept, same-Kept, finished_by, taken}

-- the spans that the calls put into rings, in order
abbrev pub later : Option Process → (Process → List Finished) → List Finished
later none k = []
later (some p) k = k p

abbrev pub all_taken : Process → List Call → List Finished
all_taken p [] = []
all_taken p (o ∷ os) = taken p o ++ later (step p o) (λ p'. all_taken p' os)

-- the spans that the calls end, those that are recorded
abbrev pub all_finished : List Call → List Finished
all_finished [] = []
all_finished (o ∷ os) = finished_by o ++ all_finished os

step-Kept :
    (q : Queues) (p : Process) (o : Call)
    → Holding q p
    → (p' : Process) × (step p o ≡ some p') × Kept q p (taken p o) (length (finished_by o)) p'
unfolding step unregister
step-Kept q p (enter t) v = (register p t, refl, register-Kept q p v t)
step-Kept q p (leave t) v = elim (tls_cases (p.tls t)) [
  | inl off ↦ (p, ap (unregister_of p t) off, same-Kept v refl refl)
  | inr (c, on) ↦ leave-Kept q p v t c on
]
step-Kept q p (finish t f now) v = finish-Kept q p v t f now
step-Kept q p flush v =
    let (p', n, e, h, same, d) = flush-Kept q p v in (p', ap without_count e, same-Kept h same d)

run-Kept :
    (q : Queues) (p : Process) (os : List Call)
    → Holding q p
    → (p' : Process) × (run p os ≡ some p')
      × Kept q p (all_taken p os) (length (all_finished os)) p'
run-Kept q p [] v = (p, refl, same-Kept v refl refl)
run-Kept q p (o ∷ os) v =
    let (p1, e, k) = step-Kept q p o v in
    let (p2, e', k') = run-Kept k.q' p1 os k.holding in
    let fs = taken p o in
    let gs = all_taken p1 os in
    let grown : total q p ++ messages (fs ++ gs) ≡ (total q p ++ messages fs) ++ messages gs =
      ap (λ l. total q p ++ l) (map-append (λ x. span_msg x.s x.m) fs gs)
      ∙ sym (append_assoc (total q p) (messages fs) (messages gs)) in
    let k2 : Kept q p (fs ++ gs) (length (finished_by o ++ all_finished os)) p2 = record {
      q' = k'.q';
      holding = k'.holding;
      content =
          subst (λ l. Perm (total k'.q' p2) l) (sym grown)
            (Perm.trans k'.content (Perm.append_right (messages gs) k.content));
      dropped = omega (
        arith,
        k.dropped,
        k'.dropped,
        length-append fs gs,
        length-append (finished_by o) (all_finished os),
      );
    } in
    (
      p2,
      ap (λ x. and_then x (λ p'. run p' os)) e ∙ e',
      subst (λ x. Kept q p (fs ++ x) (length (finished_by o ++ all_finished os)) p2)
          (sym (ap (λ x. later x (λ p'. all_taken p' os)) e)) k2,
    )

-- What a drain after the calls leaves: no context holds a span, and the transport got these.
pub record Delivered (q : Queues) (p : Process) (os : List Call) (p' : Process) : Type 0 where
  pub holding : Holding (λ c. []) p'
  pub content : Perm (all_sent p'.out.otlp.sent) (total q p ++ messages (all_taken p os))
  pub counted :
      (p'.dropped_spans + length (all_taken p os)) % 2 ^ 64
      ≡ (p.dropped_spans + length (all_finished os)) % 2 ^ 64

-- Take a process with tracing enabled, a transport, an empty and well-formed batch and a ring
-- capacity that is a power of two, in which each context of the registry belongs to one thread and
-- holds the finished spans q. After any sequence of calls that register and unregister threads,
-- end spans of known content on any thread, or drain, followed by a drain, no call and not the
-- drain has read freed memory, every ring is empty, and the transport was given, up to their
-- order, what it was given before, the spans q, and every span that a ring took, each once; and
-- the spans ended are as many as those that a ring took and those that were counted as dropped,
-- modulo 2^64.
pub run-Delivered :
    (q : Queues) (p : Process) (os : List Call)
    → Holding q p
    → (p1 p2 : Process) × (n : ℤ) × (run p os ≡ some p1)
      × (tracer_drain p1 ≡ some (p2, n))
      × Delivered q p os p2
run-Delivered q p os v =
    let (p1, e, k) = run-Kept q p os v in
    let (p2, n, e', h, same, d) = flush-Kept k.q' p1 k.holding in
    let sent : total (λ c. []) p2 ≡ all_sent p2.out.otlp.sent =
      ap (λ fs. all_sent p2.out.otlp.sent ++ messages fs) (queue_empty p2.threads)
      ∙ append-nil (all_sent p2.out.otlp.sent) in
    (
      p1,
      p2,
      n,
      e,
      e',
      record {
        holding = h;
        content =
            subst (λ l. Perm l (total q p ++ messages (all_taken p os))) (sym same ∙ sent)
              k.content;
        counted = omega (arith, k.dropped, d);
      },
    )

-- ===== src/Tracer/Registry/Empty.antt =====
-- What a drain, or the last drain of a thread that leaves, hands over.
use oteltracing_c.Base.Int.{ℤ, pos}
use oteltracing_c.Tracer.Registry.Queues.{
  queue_empty, empty_Each, queue-remove, rings_of-AllHold, Queues, queue, HoldsQueue,
}
use oteltracing_c.Tracer.Registry.Steps.{
  handed_over-IsOwned, without-IsOwned, without, out_after, drain_all-some, unregister_of-some,
}
use oteltracing_c.Tracer.Registry.{
  collect, drain_all, handed_over, rings_of, last_drain, tracer_drain, unregister_of, Process,
}
use oteltracing_c.Tracer.Registry.Heap.{length-Each}
use oteltracing_c.Tracer.Registry.Safe.{length-drain}
use oteltracing_c.Base.Keys.{remove}
use oteltracing_c.Tracer.Drain.{drain_threads, Out, drain}
use oteltracing_c.Base.{
  ℕ, ◌+◌, ◌≡◌, refl, sym, ap, subst, ◌∙◌, true, some, [], ◌∷◌, ◌++◌, map, arith,
}
use oteltracing_c.Base.Tests.{if◌then◌else◌}
use oteltracing_c.Base.Lists.{length}
use mathlib.Core.List.{Perm, append_assoc, append-nil, map-append}
use mathlib.Core.List.Perm
use oteltracing_c.Otlp.Spans.{IsBatch}
use oteltracing_c.Otlp.Encode.{span_msg}
use oteltracing_c.Otlp.Deliver.{all_sent}
use oteltracing_c.Tracer.Ring.{Ring}
use oteltracing_c.Tracer.Drain.Deliver.{messages, AllHold}
use oteltracing_c.Tracer.Registry.Balance.{Holding, total, Kept, drain-sent}

module _ (q : Queues) (p : Process) (v : Holding q p) where
  -- A drain empties all rings into the transport.
  pub flush-Kept :
      (p' : Process) × (n : ℤ) × (tracer_drain p ≡ some (p', n))
      × Holding (λ c. []) p'
      × (total (λ c. []) p' ≡ total q p)
      × (p'.dropped_spans ≡ p.dropped_spans)
  unfolding tracer_drain
  flush-Kept =
      let (rs, gs, e) = drain_all-some (HoldsQueue q) (HoldsQueue q) p v.owned in
      let rings = rings_of rs in
      let all =
        rings_of-AllHold q rings 0 p.threads rs
          (λ c i. ap (λ d. rings (d, i)) (let z : 0 + c ≡ c = omega arith in z)) gs in
      let (content, nothing, transport, batch, cleared) =
        drain-sent rings p.out rs (map q p.threads) all v.batch v.transport v.nothing_pending in
      let (out, rs', n) = drain true rings p.out rs in
      let same : length rs' ≡ length p.threads =
        length-drain rings p.out rs ∙ length-Each (HoldsQueue q) p.threads rs gs in
      (
        (handed_over p (out, rs', n)).0,
        n,
        ap (λ b. if b then drain_all p (collect p.heap p.threads) else some (p, pos 0)) v.enabled
            ∙ e,
        record {
          owned =
              handed_over-IsOwned (HoldsQueue q) (HoldsQueue (λ c. [])) p v.owned out rs' n
                (empty_Each p.threads rs' same cleared);
          enabled = v.enabled;
          transport = transport;
          batch = batch;
          nothing_pending = nothing;
          capacity = v.capacity;
        },
        ap (λ fs. all_sent out.otlp.sent ++ messages fs) (queue_empty p.threads)
            ∙ append-nil (all_sent out.otlp.sent)
            ∙ content,
        refl,
      )

  last_drain_lem : (r : Ring) → out_after p r ≡ (drain true (rings_of (r ∷ [])) p.out (r ∷ [])).0
  unfolding last_drain drain drain_threads
  last_drain_lem r = ap (λ b. if b then last_drain (rings_of (r ∷ [])) p.out r else p.out) v.enabled

  -- A thread that leaves hands over what its ring holds.
  pub leave-Kept :
      (t c : ℕ)
      → p.tls t ≡ some c
      → (p' : Process) × (unregister_of p t (p.tls t) ≡ some p') × Kept q p [] 0 p'
  leave-Kept t c on =
      let (r, e, k, g) = unregister_of-some (HoldsQueue q) (HoldsQueue q) p v.owned t c on in
      let rings = rings_of (r ∷ []) in
      let all : AllHold rings 0 (r ∷ []) (q c ∷ []) = (g, λ i. refl, tt) in
      let out' = (drain true rings p.out (r ∷ [])).0 in
      let d =
        drain-sent rings p.out (r ∷ []) (q c ∷ []) all v.batch v.transport v.nothing_pending in
      let same : out' ≡ out_after p r = sym (last_drain_lem r) in
      let sent = all_sent p.out.otlp.sent in
      let rest = queue q (remove c p.threads) in
      let content : total q (without p t c r) ≡ sent ++ messages (q c ++ rest) =
        ap (λ (o : Out). all_sent o.otlp.sent ++ messages rest) (sym same)
        ∙ ap (λ l. l ++ messages rest) (d.0 ∙ ap (λ l. sent ++ messages l) (append-nil (q c)))
        ∙ append_assoc sent (messages (q c)) (messages rest)
        ∙ ap (λ l. sent ++ l) (sym (map-append (λ x. span_msg x.s x.m) (q c) rest)) in
      let moved : Perm (messages (q c ++ rest)) (messages (queue q p.threads)) =
        Perm.map (λ x. span_msg x.s x.m)
          (Perm.symm (queue-remove q c p.threads (v.owned.held t c on))) in
      (
        without p t c r,
        e,
        record {
          q' = q;
          holding = record {
            owned = without-IsOwned (HoldsQueue q) (HoldsQueue q) p v.owned t c r on;
            enabled = v.enabled;
            transport = subst (λ (o : Out). o.otlp.transport ≡ true) same d.2;
            batch = subst (λ (o : Out). IsBatch o.otlp) same d.3;
            nothing_pending = subst (λ (o : Out). length o.otlp.spans ≡ 0) same d.1;
            capacity = v.capacity;
          };
          content =
              subst (λ l. Perm l (total q p ++ [])) (sym content)
                (subst (λ l. Perm (sent ++ messages (q c ++ rest)) l) (sym (append-nil (total q p)))
                  (Perm.append_left sent moved));
          dropped = refl;
        },
      )

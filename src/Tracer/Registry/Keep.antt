-- ===== src/Tracer/Registry/Keep.antt =====
-- Each call with the spans it puts into a ring: none is lost on the way to the transport.
use oteltracing_c.Base.{
  ℕ, ◌+◌, ◌%◌, ◌^◌, ◌≡◌, refl, sym, ap, ap₂, subst, ◌∙◌, inl, inr, Bool, true, false, Option, none,
  some, [], ◌∷◌, ◌++◌, arith,
}
use oteltracing_c.Base.Tests.{leb, ◌==◌, if◌then◌else◌, Bool-cases, if_ind}
use oteltracing_c.Base.Keys.{has}
use oteltracing_c.Base.Lists.{length}
use mathlib.Core.List.{Perm, append_assoc, append-nil, map-append}
use mathlib.Core.List.Perm
use oteltracing_c.Span.{recording}
use oteltracing_c.Otlp.Encode.{span_msg}
use oteltracing_c.Otlp.Deliver.{all_sent}
use oteltracing_c.Tracer.Ring.{Ring, used, enqueue, new_ring}
use oteltracing_c.Tracer.Ring.Queue.{Holds, used_lem, length-items, enqueue-Holds}
use oteltracing_c.Tracer.Ring.Register.{new_ring-Holds}
use oteltracing_c.Tracer.Drain.Deliver.{Finished, spans_of, messages}
use oteltracing_c.Tracer.Registry.{Process, update, register, register_of, stored, end_of, end_span}
use oteltracing_c.Tracer.Registry.Owned.{
  next_new, update_hit, update_miss, heap-IsOwned, register_of-IsOwned,
}
use oteltracing_c.Tracer.Registry.Queues.{Queues, queue, HoldsQueue, queue-other, queue-update}
use oteltracing_c.Tracer.Registry.Run.{finish}
use oteltracing_c.Tracer.Registry.Safe.{tls_cases}
use oteltracing_c.Tracer.Registry.Steps.{end_of-some, stored-IsOwned}
use oteltracing_c.Tracer.Registry.Balance.{
  Holding, total, Kept, same-Kept, ended, finished_by, taken_by, taken_on, taken,
}

taken_by_none : (o : Option Ring) → taken_by o [] ≡ []
taken_by_none none = refl
taken_by_none (some r) =
    if_ind (λ x. x ≡ []) (leb r.capacity (used r)) (λ full. refl) (λ room. refl)

taken_none : (heap : ℕ → Option Ring) (o : Option ℕ) → taken_on heap o [] ≡ []
taken_none heap none = refl
taken_none heap (some c) = taken_by_none (heap c)

module _ (q : Queues) (p : Process) (v : Holding q p) where
  pub register-Kept : (t : ℕ) → Kept q p [] 0 (register p t)
  unfolding register
  register-Kept t = elim (tls_cases (p.tls t)) [
    | inl off ↦
        let q' = update q p.next [] in
        let other : (c : ℕ) → has c p.threads ≡ true → q' c ≡ q c = λ c h.
          elim (Bool-cases (c == p.next)) [
            | inl hit ↦
                let same : c ≡ p.next = ground arith in
                absurd (
                  let x : true ≡ false =
                    sym h ∙ ap (λ j. has j p.threads) same ∙ next_new (HoldsQueue q) p v.owned in
                  (cc x))
            | inr miss ↦ update_miss q p.next [] c miss
          ] in
        let (spans, cap) = v.capacity in
        let owned =
          register_of-IsOwned (HoldsQueue q) (HoldsQueue q') p v.owned t off
            (subst (λ fs. Holds (new_ring p.ring_capacity) (spans_of fs))
              (sym (update_hit q p.next [])) (new_ring-Holds spans p.ring_capacity cap))
            (λ c r h g. subst (λ fs. Holds r (spans_of fs)) (sym (other c h)) g) in
        subst (λ o. Kept q p [] 0 (register_of p t o)) (sym off)
          (same-Kept {q' = q'}
            (record {
              owned = owned;
              enabled = v.enabled;
              transport = v.transport;
              batch = v.batch;
              nothing_pending = v.nothing_pending;
              capacity = v.capacity;
            })
            (ap (λ fs. all_sent p.out.otlp.sent ++ messages fs)
              (ap₂ ◌++◌ (update_hit q p.next []) (queue-other q q' p.threads other)))
            refl)
    | inr (c, on) ↦ subst (λ o. Kept q p [] 0 (register_of p t o)) (sym on) (same-Kept v refl refl)
  ]

  -- The thread has no context: the span is lost.
  unregistered-Kept :
      (f : Finished) → Kept q p [] 1 (record p { dropped_spans = (p.dropped_spans + 1) % 2 ^ 64 })
  unregistered-Kept f = record {
    q' = q;
    holding = record {
      owned =
          heap-IsOwned (HoldsQueue q) (HoldsQueue q) p v.owned p.heap p.out
            ((p.dropped_spans + 1) % 2 ^ 64) v.owned.live (λ c h. refl);
      enabled = v.enabled;
      transport = v.transport;
      batch = v.batch;
      nothing_pending = v.nothing_pending;
      capacity = v.capacity;
    };
    content =
        subst (λ l. Perm (total q p) l) (sym (append-nil (total q p))) (Perm.refl (total q p));
    dropped = omega arith;
  }

  -- The ring of the thread is full.
  full-Kept :
      (c : ℕ) (r : Ring)
      → has c p.threads ≡ true
      → HoldsQueue q c r
      → Kept q p [] 1 (stored p c (r, true))
  full-Kept c r here g = record {
    q' = q;
    holding = record {
      owned =
          stored-IsOwned (HoldsQueue q) (HoldsQueue q) p v.owned c r true here g (λ j r' miss h. h);
      enabled = v.enabled;
      transport = v.transport;
      batch = v.batch;
      nothing_pending = v.nothing_pending;
      capacity = v.capacity;
    };
    content =
        subst (λ l. Perm (total q p) l) (sym (append-nil (total q p))) (Perm.refl (total q p));
    dropped = omega arith;
  }

  -- The ring of the thread takes the span.
  room-Kept :
      (c : ℕ) (r : Ring) (f : Finished)
      → has c p.threads ≡ true
      → Holds r (spans_of (q c) ++ (f.s ∷ []))
      → Kept q p (f ∷ []) 1 (stored p c (r, false))
  room-Kept c r f here g =
      let q' = update q c (q c ++ (f ∷ [])) in
      let now : HoldsQueue q' c r =
        subst (Holds r)
          (sym
            (ap spans_of (update_hit q c (q c ++ (f ∷ []))) ∙ map-append (λ x. x.s) (q c) (f ∷ [])))
          g in
      let sent = all_sent p.out.otlp.sent in
      let grown = queue-update q c (f ∷ []) p.threads v.owned.distinct here in
      record {
        q' = q';
        holding = record {
          owned =
              stored-IsOwned (HoldsQueue q) (HoldsQueue q') p v.owned c r false here now
                (λ j r' miss h.
                  subst (λ fs. Holds r' (spans_of fs))
                    (sym (update_miss q c (q c ++ (f ∷ [])) j miss)) h);
          enabled = v.enabled;
          transport = v.transport;
          batch = v.batch;
          nothing_pending = v.nothing_pending;
          capacity = v.capacity;
        };
        content =
            subst (λ l. Perm (sent ++ messages (queue q' p.threads)) l)
              (ap (λ l. sent ++ l) (map-append (λ x. span_msg x.s x.m) (queue q p.threads) (f ∷ []))
                ∙ sym (append_assoc sent (messages (queue q p.threads)) (messages (f ∷ []))))
              (Perm.append_left sent (Perm.map (λ x. span_msg x.s x.m) grown));
        dropped = refl;
      }

  stored-Kept :
      (c : ℕ) (r : Ring) (lost : Bool) (f : Finished)
      → has c p.threads ≡ true
      → Holds r (if lost then spans_of (q c) else spans_of (q c) ++ (f.s ∷ []))
      → Kept q p (if lost then [] else f ∷ []) 1 (stored p c (r, lost))
  stored-Kept c r true f here g = full-Kept c r here g
  stored-Kept c r false f here g = room-Kept c r f here g

  pub end_of-Kept :
      (t : ℕ) (f : Finished)
      → (p' : Process) × (end_of p (p.tls t) f.s ≡ some p')
        × Kept q p (taken_on p.heap (p.tls t) (f ∷ [])) 1 p'
  end_of-Kept t f = elim (tls_cases (p.tls t)) [
    | inl off ↦ (
      record p { dropped_spans = (p.dropped_spans + 1) % 2 ^ 64 },
      ap (λ o. end_of p o f.s) off,
      subst
          (λ o.
            Kept q p (taken_on p.heap o (f ∷ [])) 1
              (record p { dropped_spans = (p.dropped_spans + 1) % 2 ^ 64 }))
          (sym off) (unregistered-Kept f),
    )
    | inr (c, on) ↦
        let (r, e, k, g) = end_of-some (HoldsQueue q) (HoldsQueue q) p v.owned t c f.s on in
        let here = v.owned.held t c on in
        let (lost, holds, count) = enqueue-Holds r (spans_of (q c)) f.s g in
        let took : taken_on p.heap (p.tls t) (f ∷ [])
            ≡ (if leb r.capacity (used r) then [] else f ∷ []) =
          ap (λ o. taken_on p.heap o (f ∷ [])) on ∙ ap (λ o. taken_by o (f ∷ [])) k in
        let n : length (spans_of (q c)) ≡ used r =
          sym (ap length g.content) ∙ length-items r g.from g.count ∙ sym (used_lem g.ring) in
        let full : (enqueue r f.s).1 ≡ leb r.capacity (used r) = lost ∙ ap (leb r.capacity) n in
        (
          stored p c (enqueue r f.s),
          e,
          subst (λ fs. Kept q p fs 1 (stored p c (enqueue r f.s)))
              (ap (λ b. if b then [] else f ∷ []) full ∙ sym took)
              (stored-Kept c (enqueue r f.s).0 (enqueue r f.s).1 f here holds),
        )
  ]

  pub finish-Kept :
      (t : ℕ) (f : Finished) (now : ℕ)
      → (p' : Process) × (end_span p t f.s now ≡ some p')
        × Kept q p (taken p (finish t f now)) (length (finished_by (finish t f now))) p'
  unfolding end_span
  finish-Kept t f now = elim (Bool-cases (recording f.s)) [
    | inl on ↦ let (p', e, w) = end_of-Kept t (ended f now) in (p', rw on e, rw on w)
    | inr off ↦
        let none_taken : taken_on p.heap (p.tls t) [] ≡ [] = taken_none p.heap (p.tls t) in
        (p, rw off refl, rw (off, none_taken) (same-Kept v refl refl))
  ]

-- ===== src/Tracer/Registry/Isolation.antt =====
-- The registry as each thread sees it: its own ring, and the count of dropped spans.
use oteltracing_c.Base.{
  ℕ, ◌+◌, ◌%◌, ◌^◌, ◌≡◌, refl, sym, ap, ◌∙◌, subst, inl, inr, false, Option, none, some, arith,
}
use oteltracing_c.Base.Tests.{◌==◌, Bool-cases}
use oteltracing_c.Span.{Span, recording}
use oteltracing_c.Tracer.Ring.{
  Ring, Home, enqueue, new_ring, span_end, span_end_slow, thread_register,
}
use oteltracing_c.Tracer.Registry.{Process, update, stored, register, register_of, end_of, end_span}
use oteltracing_c.Tracer.Registry.Owned.{update_hit, update_miss}
use oteltracing_c.Tracer.Registry.Safe.{IsProcess, AnyRing, tls_cases}
use oteltracing_c.Tracer.Registry.Steps.{end_of-some}

abbrev pub context : (ℕ → Option Ring) → Option ℕ → Option Ring
context heap none = none
context heap (some c) = heap c

abbrev pub home_of : Process → ℕ → Home
home_of p t = record { ctx = context p.heap (p.tls t); dropped_spans = p.dropped_spans }

-- A thread does to its own ring what the operation on one ring does, and nothing to the others.
pub record Alone (p p' : Process) (t : ℕ) (h : Home) : Type 0 where
  pub own : home_of p' t ≡ h
  pub others : (u : ℕ) → (u == t) ≡ false → context p'.heap (p'.tls u) ≡ context p.heap (p.tls u)

-- A write to one context is not seen through another.
context-update :
    (heap : ℕ → Option Ring) (c : ℕ) (x : Option Ring) (o : Option ℕ)
    → ((d : ℕ) → o ≡ some d → (d == c) ≡ false)
    → context (update heap c x) o ≡ context heap o
context-update heap c x none apart = refl
context-update heap c x (some d) apart = update_miss heap c x d (apart d refl)

module _ (p : Process) (v : IsProcess p) where
  -- A context of another thread is another one.
  apart : (t u c d : ℕ) → p.tls t ≡ some c → p.tls u ≡ some d → (u == t) ≡ false → (d == c) ≡ false
  apart t u c d e k miss = elim (Bool-cases (d == c)) [
    | inl hit ↦
        let same : d ≡ c = ground arith in
        let both : u ≡ t = v.alone u t c (k ∙ ap some same) e in absurd (ground (arith, both))
    | inr other ↦ other
  ]

  end_of-Alone :
      (t : ℕ) (s : Span) (now : ℕ)
      → (p' : Process) × (end_of p (p.tls t) (record s { end_unix_ns = now }) ≡ some p')
        × Alone p p' t (span_end_slow (home_of p t) s now).0
  unfolding span_end_slow
  end_of-Alone t s now = elim (tls_cases (p.tls t)) [
    | inl off ↦ (
      record p { dropped_spans = (p.dropped_spans + 1) % 2 ^ 64 },
      ap (λ o. end_of p o (record s { end_unix_ns = now })) off,
      record { own = rw off refl; others = λ u miss. refl },
    )
    | inr (c, on) ↦
        let ended = record s { end_unix_ns = now } in
        let (r, e, k, g) = end_of-some AnyRing AnyRing p v t c ended on in
        let here : context p.heap (p.tls t) ≡ some r = ap (context p.heap) on ∙ k in
        let p' = stored p c (enqueue r ended) in
        (
          p',
          e,
          record {
            own =
                ap (λ o. record { ctx = o; dropped_spans = p'.dropped_spans })
                  (ap (context p'.heap) on ∙ update_hit p.heap c (some (enqueue r ended).0))
                ∙ rw here refl;
            others = λ u miss.
                context-update p.heap c (some (enqueue r ended).0) (p.tls u)
                  (λ d k'. apart t u c d on k' miss);
          },
        )
  ]

  end_span-Alone :
      (t : ℕ) (s : Span) (now : ℕ)
      → (p' : Process) × (end_span p t s now ≡ some p')
        × Alone p p' t (span_end (home_of p t) s now).0
  unfolding end_span span_end
  end_span-Alone t s now = elim (Bool-cases (recording s)) [
    | inl on ↦ let (p', e, a) = end_of-Alone t s now in (p', rw on e, rw on a)
    | inr off ↦ (p, rw off refl, rw off (record { own = refl; others = λ u miss. refl }))
  ]

  register-Alone :
      (t : ℕ) → Alone p (register p t) t (thread_register p.ring_capacity (home_of p t))
  unfolding register thread_register
  register-Alone t = elim (tls_cases (p.tls t)) [
    | inl off ↦
        let p' = register_of p t none in
        let made : register_of p t (p.tls t) ≡ p' = ap (register_of p t) off in
        let new = new_ring p.ring_capacity in
        let mine : context p'.heap (p'.tls t) ≡ some new =
          ap (context p'.heap) (update_hit p.tls t (some p.next))
          ∙ update_hit p.heap p.next (some new) in
        subst (λ q. Alone p q t (thread_register p.ring_capacity (home_of p t))) (sym made)
          (record {
            own = ap (λ o. record { ctx = o; dropped_spans = p.dropped_spans }) mine ∙ rw off refl;
            others = λ u miss.
                ap (context p'.heap) (update_miss p.tls t (some p.next) u miss)
                ∙ context-update p.heap p.next (some new) (p.tls u) (λ d k.
                  elim (Bool-cases (d == p.next)) [
                    | inl hit ↦
                        let same : d ≡ p.next = ground arith in
                        absurd (omega (arith, v.fresh d (v.held u d k), same))
                    | inr other ↦ other
                  ]);
          })
    | inr (c, on) ↦
        let (r, k, g) = v.live c (v.held t c on) in
        let here : context p.heap (p.tls t) ≡ some r = ap (context p.heap) on ∙ k in
        subst (λ q. Alone p q t (thread_register p.ring_capacity (home_of p t)))
          (sym (ap (register_of p t) on)) (record { own = rw here refl; others = λ u miss. refl })
  ]

  -- Where each context of the registry belongs to one thread, register and end_span of the process
  -- do to the ring of the calling thread and to the count of dropped spans what thread_register
  -- and span_end do to one ring, and leave the ring of every other thread as it is.
  pub thread_calls-Alone :
      (t : ℕ) (s : Span) (now : ℕ)
      → Alone p (register p t) t (thread_register p.ring_capacity (home_of p t))
        × ((p' : Process) × (end_span p t s now ≡ some p')
            × Alone p p' t (span_end (home_of p t) s now).0)
  thread_calls-Alone t s now = (register-Alone t, end_span-Alone t s now)

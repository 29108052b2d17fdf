-- ===== src/Tracer/Registry/Steps.antt =====
-- Each operation of the registry on owned contexts: it does not fault, and they stay owned.
use oteltracing_c.Base.Int.{ℤ}
use oteltracing_c.Base.{
  ℕ, ◌+◌, ◌%◌, ◌^◌, ◌≡◌, refl, sym, ap, ◌∙◌, inl, inr, Bool, true, false, none, some, List, [], ◌∷◌,
  arith, subst,
}
use oteltracing_c.Base.Tests.{◌==◌, if◌then◌else◌, Bool-cases}
use oteltracing_c.Base.Keys.{has, remove}
use oteltracing_c.Tracer.Ring.{Ring, enqueue}
use oteltracing_c.Tracer.Drain.{Out, drain}
use oteltracing_c.Span.{Span}
use oteltracing_c.Tracer.Registry.{
  Process, update, stored, end_in, end_of, collect, rings_of, write_back, handed_over, drain_all,
  last_drain, freed_of, unregister_in, unregister_of,
}
use oteltracing_c.Tracer.Registry.Owned.{IsOwned, update_miss, heap-IsOwned, freed-IsOwned}
use oteltracing_c.Tracer.Registry.Heap.{
  Each, collect-Each, write_back-Each, write_back-other, unlink-remove,
}

abbrev pub out_after : Process → Ring → Out
out_after p r = if p.switches.enabled then last_drain (rings_of (r ∷ [])) p.out r else p.out

-- what `otel_thread_unregister` leaves of this context
abbrev pub without : Process → ℕ → ℕ → Ring → Process
without p t c r = record p {
  threads = remove c p.threads;
  heap = update p.heap c none;
  tls = update p.tls t none;
  out = out_after p r;
}

module _ (Good Better : ℕ → Ring → Type 0) (p : Process) (v : IsOwned Good p) where
  -- The thread that ends a span has its context in memory.
  pub end_of-some :
      (t c : ℕ) (s : Span)
      → p.tls t ≡ some c
      → (r : Ring) × (end_of p (p.tls t) s ≡ some (stored p c (enqueue r s)))
        × (p.heap c ≡ some r)
        × Good c r
  end_of-some t c s e =
      let (r, k, g) = v.live c (v.held t c e) in
      (r, ap (λ o. end_of p o s) e ∙ ap (λ o. end_in p c o s) k, k, g)

  pub stored-IsOwned :
      (c : ℕ) (r : Ring) (lost : Bool)
      → has c p.threads ≡ true
      → Better c r
      → ((j : ℕ) (r' : Ring) → (j == c) ≡ false → Good j r' → Better j r')
      → IsOwned Better (stored p c (r, lost))
  stored-IsOwned c r lost here good better =
      heap-IsOwned Good Better p v (update p.heap c (some r)) p.out
        (if lost then (p.dropped_spans + 1) % 2 ^ 64 else p.dropped_spans)
        (λ j h. elim (Bool-cases (j == c)) [
          | inl hit ↦
              let same : c ≡ j = ground arith in (r, rw hit refl, subst (λ x. Better x r) same good)
          | inr miss ↦ let (r', k, g) = v.live j h in (r', rw miss k, better j r' miss g)
        ])
        (λ j h. elim (Bool-cases (j == c)) [
          | inl hit ↦
              let same : c ≡ j = ground arith in
              absurd
                (let x : true ≡ false = sym here ∙ ap (λ x. has x p.threads) same ∙ h in (cc x))
          | inr miss ↦ update_miss p.heap c (some r) j miss
        ])

  -- A drain reads each context of the list.
  pub drain_all-some :
      (rs : List Ring) × Each Good p.threads rs
      × (drain_all p (collect p.heap p.threads)
          ≡ some (handed_over p (drain true (rings_of rs) p.out rs)))
  drain_all-some =
      let (rs, e, g) = collect-Each Good p.heap p.threads v.live in (rs, g, ap (drain_all p) e)

  pub handed_over-IsOwned :
      (out : Out) (rs : List Ring) (n : ℤ)
      → Each Better p.threads rs
      → IsOwned Better (handed_over p (out, rs, n)).0
  handed_over-IsOwned out rs n g =
      heap-IsOwned Good Better p v (write_back p.heap p.threads rs) out p.dropped_spans
        (write_back-Each Better p.heap p.threads rs v.distinct g)
        (λ j h. write_back-other p.heap p.threads rs j h)

  -- The thread that unregisters has its context in the list, which the loop finds.
  pub unregister_of-some :
      (t c : ℕ)
      → p.tls t ≡ some c
      → (r : Ring) × (unregister_of p t (p.tls t) ≡ some (without p t c r))
        × (p.heap c ≡ some r)
        × Good c r
  unregister_of-some t c e =
      let (r, k, g) = v.live c (v.held t c e) in
      let found =
        unlink-remove p.heap c p.threads (λ j h. let (r', k', g') = v.live j h in (r', k')) in
      (
        r,
        ap (unregister_of p t) e
            ∙ ap (unregister_in p t c) k
            ∙ ap (freed_of p t c (out_after p r)) found,
        k,
        g,
      )

  pub without-IsOwned : (t c : ℕ) (r : Ring) → p.tls t ≡ some c → IsOwned Good (without p t c r)
  without-IsOwned t c r e = freed-IsOwned Good p v t c (out_after p r) e

-- ===== src/Tracer/Registry/Safe.antt =====
-- No call of a thread or of the drain reads a context that was freed.
use oteltracing_c.Base.Int.{ℤ, pos}
use oteltracing_c.Base.{
  ℕ, suc, ◌+◌, ◌%◌, ◌^◌, ◌≡◌, refl, sym, ap, ◌∙◌, inl, inr, true, Option, none, some, List, [], ◌∷◌,
  ◌⊎◌, subst,
}
use oteltracing_c.Base.Tests.{if◌then◌else◌, Bool-cases}
use oteltracing_c.Base.Lists.{length}
use oteltracing_c.Span.{Span, recording}
use oteltracing_c.Otlp.{Rings}
use oteltracing_c.Tracer.Ring.{Ring, enqueue}
use oteltracing_c.Tracer.Drain.{Out, drain, drain_ctx, drain_threads}
use oteltracing_c.Tracer.Registry.{
  Process, register, register_of, end_of, end_span, unregister, unregister_of, tracer_drain,
  drain_all, collect, rings_of, stored, handed_over,
}
use oteltracing_c.Tracer.Registry.Heap.{any_Each, length-Each}
use oteltracing_c.Tracer.Registry.Owned.{IsOwned, register_of-IsOwned, heap-IsOwned}
use oteltracing_c.Tracer.Registry.Run.{
  Call, enter, leave, finish, flush, step, run, without_count, and_then,
}
use oteltracing_c.Tracer.Registry.Steps.{
  end_of-some, stored-IsOwned, drain_all-some, handed_over-IsOwned, unregister_of-some,
  without-IsOwned, without,
}

pub tls_cases : (o : Option ℕ) → (o ≡ none) ⊎ ((c : ℕ) × (o ≡ some c))
tls_cases none = inl refl
tls_cases (some c) = inr (c, refl)

length-drain_threads :
    (rings : Rings) (out : Out) (c : ℕ) (rs : List Ring)
    → length (drain_threads rings out c rs).1 ≡ length rs
unfolding drain_threads
length-drain_threads rings out c [] = refl
length-drain_threads rings out c (r ∷ rs) =
    ap suc (length-drain_threads rings (drain_ctx rings out c r).0 (suc c) rs)

pub length-drain :
    (rings : Rings) (out : Out) (rs : List Ring) → length (drain true rings out rs).1 ≡ length rs
unfolding drain
length-drain rings out rs = length-drain_threads rings _ 0 rs

abbrev pub AnyRing : ℕ → Ring → Type 0
AnyRing c r = Unit {0}

-- The contexts in memory are those of the registry, and each belongs to one thread.
abbrev pub IsProcess : Process → Type 0
IsProcess p = IsOwned AnyRing p

module _ (p : Process) (v : IsProcess p) where
  pub register-IsProcess : (t : ℕ) → IsProcess (register p t)
  unfolding register
  register-IsProcess t = elim (tls_cases (p.tls t)) [
    | inl off ↦
        subst (λ o. IsProcess (register_of p t o)) (sym off)
          (register_of-IsOwned AnyRing AnyRing p v t off tt (λ c r h g. tt))
    | inr (c, on) ↦ subst (λ o. IsProcess (register_of p t o)) (sym on) v
  ]

  pub end_of-IsProcess :
      (t : ℕ) (s : Span) → (p' : Process) × (end_of p (p.tls t) s ≡ some p') × IsProcess p'
  end_of-IsProcess t s = elim (tls_cases (p.tls t)) [
    | inl off ↦
        let n = (p.dropped_spans + 1) % 2 ^ 64 in
        (
          record p { dropped_spans = n },
          ap (λ o. end_of p o s) off,
          heap-IsOwned AnyRing AnyRing p v p.heap p.out n v.live (λ c h. refl),
        )
    | inr (c, on) ↦
        let (r, e, k, g) = end_of-some AnyRing AnyRing p v t c s on in
        (
          stored p c (enqueue r s),
          e,
          stored-IsOwned AnyRing AnyRing p v c (enqueue r s).0 (enqueue r s).1 (v.held t c on) tt
              (λ j r' miss g. tt),
        )
  ]

  pub end_span-IsProcess :
      (t : ℕ) (s : Span) (now : ℕ) → (p' : Process) × (end_span p t s now ≡ some p') × IsProcess p'
  unfolding end_span
  end_span-IsProcess t s now = elim (Bool-cases (recording s)) [
    | inl on ↦
        let (p', e, w) = end_of-IsProcess t (record s { end_unix_ns = now }) in (p', rw on e, w)
    | inr off ↦ (p, rw off refl, v)
  ]

  -- A drain leaves the list, the threads and the switches as they are.
  pub tracer_drain-IsProcess :
      (p' : Process) × (n : ℤ) × (tracer_drain p ≡ some (p', n))
      × IsProcess p'
      × (p'.threads ≡ p.threads)
      × (p'.tls ≡ p.tls)
      × (p'.switches ≡ p.switches)
  unfolding tracer_drain
  tracer_drain-IsProcess = elim (Bool-cases p.switches.enabled) [
    | inl on ↦
        let (rs, g, e) = drain_all-some AnyRing AnyRing p v in
        let (out, rs', n) = drain true (rings_of rs) p.out rs in
        (
          (handed_over p (out, rs', n)).0,
          n,
          ap (λ b. if b then drain_all p (collect p.heap p.threads) else some (p, pos 0)) on ∙ e,
          handed_over-IsOwned AnyRing AnyRing p v out rs' n (
              any_Each p.threads rs'
                (length-drain (rings_of rs) p.out rs ∙ length-Each AnyRing p.threads rs g)),
          refl,
          refl,
          refl,
        )
    | inr off ↦ (
      p,
      pos 0,
      ap (λ b. if b then drain_all p (collect p.heap p.threads) else some (p, pos 0)) off,
      v,
      refl,
      refl,
      refl,
    )
  ]

  pub unregister-IsProcess : (t : ℕ) → (p' : Process) × (unregister p t ≡ some p') × IsProcess p'
  unfolding unregister
  unregister-IsProcess t = elim (tls_cases (p.tls t)) [
    | inl off ↦ (p, ap (unregister_of p t) off, v)
    | inr (c, on) ↦
        let (r, e, k, g) = unregister_of-some AnyRing AnyRing p v t c on in
        (without p t c r, e, without-IsOwned AnyRing AnyRing p v t c r on)
  ]

pub step-IsProcess :
    (p : Process) (o : Call) → IsProcess p → (p' : Process) × (step p o ≡ some p') × IsProcess p'
unfolding step
step-IsProcess p (enter t) v = (register p t, refl, register-IsProcess p v t)
step-IsProcess p (leave t) v = unregister-IsProcess p v t
step-IsProcess p (finish t f now) v = end_span-IsProcess p v t f.s now
step-IsProcess p flush v = let d = tracer_drain-IsProcess p v in (d.0, ap without_count d.2, d.3)

-- From a process in which exactly the contexts of the registry are in memory, without repetition,
-- and otel_tls of each thread is NULL or its own context of the registry, any sequence of calls
-- that register and unregister threads, end spans or drain reads no freed context and leads to
-- such a process, whatever the switches, the transport and the rings are.
pub run-IsProcess :
    (p : Process) (os : List Call)
    → IsProcess p
    → (p' : Process) × (run p os ≡ some p') × IsProcess p'
run-IsProcess p [] v = (p, refl, v)
run-IsProcess p (o ∷ os) v =
    let (p1, e, w) = step-IsProcess p o v in
    let (p2, k, x) = run-IsProcess p1 os w in (p2, ap (λ q. and_then q (λ p'. run p' os)) e ∙ k, x)

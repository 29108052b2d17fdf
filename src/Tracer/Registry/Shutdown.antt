-- ===== src/Tracer/Registry/Shutdown.antt =====
-- `otel_shutdown`: every context is freed once, and what a thread may do after it.
use oteltracing_c.Base.{
  ℕ, ◌≡◌, refl, sym, ap, ap₂, subst, ◌∙◌, inl, inr, true, false, Option, none, some, List, [], ◌∷◌,
  arith,
}
use oteltracing_c.Base.Tests.{◌==◌, if◌then◌else◌, Bool-cases, if_ind}
use oteltracing_c.Base.Keys.{has, Distinct}
use oteltracing_c.Span.{Span, recording}
use oteltracing_c.Tracer.{stopped}
use oteltracing_c.Tracer.Ring.{Ring}
use oteltracing_c.Tracer.Registry.{
  Process, update, register, register_of, end_of, end_in, end_span, unregister, unregister_of,
  unregister_in, free_one, free_all, torn_down, after_drain, tracer_drain, shutdown,
}
use oteltracing_c.Tracer.Registry.Owned.{update_miss}
use oteltracing_c.Tracer.Registry.Safe.{tracer_drain-IsProcess, IsProcess}

-- The loop frees the contexts of the list and no others.
free_all-some :
    (heap : ℕ → Option Ring) (cs : List ℕ)
    → Distinct cs
    → ((c : ℕ) → has c cs ≡ true → (r : Ring) × (heap c ≡ some r))
    → (heap' : ℕ → Option Ring) × (free_all heap cs ≡ some heap')
      × ((j : ℕ) → heap' j ≡ (if has j cs then none else heap j))
free_all-some heap [] d live = (heap, refl, λ j. refl)
free_all-some heap (c ∷ cs) d live =
    let here : (c == c) ≡ true = ground arith in
    let (r, e) = live c (rw here refl) in
    let (heap', k, after) = free_all-some (update heap c none) cs d.1 (λ j h.
      elim (Bool-cases (j == c)) [
        | inl hit ↦
            let same : j ≡ c = ground arith in
            absurd (let x : true ≡ false = sym h ∙ ap (λ i. has i cs) same ∙ d.0 in (cc x))
        | inr miss ↦
            let (r', e') = live j (if_ind (λ b. b ≡ true) (c == j) (λ on. refl) (λ no'. h)) in
            (r', update_miss heap c none j miss ∙ e')
      ]) in
    (
      heap',
      ap₂ free_one e k,
      λ j. after j ∙ (elim (Bool-cases (j == c)) [
        | inl hit ↦
            let other : (c == j) ≡ true = ground arith in
            rw (hit, other) (if_ind (λ o. o ≡ none) (has j cs) (λ on. refl) (λ no'. refl))
        | inr miss ↦ let other : (c == j) ≡ false = ground arith in rw (miss, other) refl
      ]),
    )

-- What is left: no context is in memory or in the list, tracing is off, and `otel_tls` of each
-- thread is as before.
pub record Freed (p p' : Process) : Type 0 where
  pub memory : (c : ℕ) → p'.heap c ≡ none
  pub list : p'.threads ≡ []
  pub switches : p'.switches ≡ stopped p.switches
  pub tls : p'.tls ≡ p.tls

-- If the tracer is initialized and each context of the registry belongs to one thread, then
-- shutdown reads no freed context and frees every context once: none is left in memory or in the
-- list; tracing is off, and otel_tls of each thread is as before.
pub shutdown-Freed :
    (p : Process)
    → IsProcess p
    → p.switches.initialized ≡ true
    → (p' : Process) × (shutdown p ≡ some p') × Freed p p'
unfolding shutdown
shutdown-Freed p v on =
    let (p1, n, e, w, same_list, same_tls, same_switches) = tracer_drain-IsProcess p v in
    let (heap, k, after) =
      free_all-some p1.heap p1.threads w.distinct (λ c h. let (r, l, g) = w.live c h in (r, l)) in
    let p2 = record p1 { heap = heap; threads = []; switches = stopped p1.switches } in
    (
      p2,
      ap (λ b. if b then after_drain (tracer_drain p) else some p) on
          ∙ ap after_drain e
          ∙ ap (torn_down p1) k,
      record {
        memory = λ c. after c ∙ (elim (Bool-cases (has c p1.threads)) [
          | inl here ↦ rw here refl
          | inr gone ↦ rw gone (w.gone c gone)
        ]);
        list = refl;
        switches = ap stopped same_switches;
        tls = same_tls;
      },
    )

-- With no contexts and no registered threads nothing is owned.
nothing-IsProcess :
    (p : Process)
    → p.threads ≡ []
    → ((c : ℕ) → p.heap c ≡ none)
    → ((t : ℕ) → p.tls t ≡ none)
    → IsProcess p
nothing-IsProcess p list memory left =
    let not_listed : (c : ℕ) → has c p.threads ≡ true → ⊥ =
      λ c h. let x : false ≡ true = sym (ap (has c) list) ∙ h in (cc x) in
    let not_held : (t c : ℕ) → p.tls t ≡ some c → ⊥ =
      λ t c e. let x : none ≡ some c = sym (left t) ∙ e in (cc x) in
    record {
      distinct = subst Distinct (sym list) tt;
      live = λ c h. absurd (not_listed c h);
      gone = λ c h. memory c;
      fresh = λ c h. absurd (not_listed c h);
      held = λ t c e. absurd (not_held t c e);
      alone = λ t u c e k. absurd (not_held t c e);
      owner = λ c h. absurd (not_listed c h);
    }

-- clean
pub shutdown-IsProcess :
    (p : Process)
    → IsProcess p
    → p.switches.initialized ≡ true
    → ((t : ℕ) → p.tls t ≡ none)
    → (p' : Process) × (shutdown p ≡ some p') × IsProcess p'
shutdown-IsProcess p v on left =
    let (p', e, f) = shutdown-Freed p v on in
    (p', e, nothing-IsProcess p' f.list f.memory (λ t. ap (λ g. g t) f.tls ∙ left t))

-- If the tracer is initialized, each context of the registry belongs to one thread, and a thread
-- is still registered, then after shutdown register of that thread does nothing, and unregister,
-- and end_span of a recording span, access its freed context.
pub shutdown-straggler :
    (p : Process) (t c : ℕ) (s : Span) (now : ℕ)
    → IsProcess p
    → p.switches.initialized ≡ true
    → p.tls t ≡ some c
    → recording s ≡ true
    → (p' : Process) × (shutdown p ≡ some p')
      × (register p' t ≡ p')
      × (unregister p' t ≡ none)
      × (end_span p' t s now ≡ none)
unfolding register unregister end_span
shutdown-straggler p t c s now v on mine rec =
    let (p', e, f) = shutdown-Freed p v on in
    let dangling : p'.tls t ≡ some c = ap (λ g. g t) f.tls ∙ mine in
    (
      p',
      e,
      ap (register_of p' t) dangling,
      ap (unregister_of p' t) dangling ∙ ap (unregister_in p' t c) (f.memory c),
      rw rec (
          ap (λ o. end_of p' o (record s { end_unix_ns = now })) dangling
          ∙ ap (λ o. end_in p' c o (record s { end_unix_ns = now })) (f.memory c)),
    )

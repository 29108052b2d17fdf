-- ===== src/Tracer/Registry/Owned.antt =====
-- The contexts in memory are those of the registry, and each belongs to one thread.
use oteltracing_c.Tracer.Drain.{Out}
use oteltracing_c.Base.{
  ℕ, ◌<◌, ◌≡◌, refl, sym, ap, subst, ◌∙◌, inl, inr, true, false, Option, none, some, arith,
}
use oteltracing_c.Base.Tests.{◌==◌, if◌then◌else◌, Bool-cases, if_ind}
use oteltracing_c.Base.Keys.{has, remove, Distinct, has-remove, Distinct-remove}
use oteltracing_c.Tracer.Ring.{Ring, new_ring}
use oteltracing_c.Tracer.Registry.{Process, update, register_of}

-- A context is in memory exactly when it is in the list, which has no repetition, and then its
-- ring is as `Good` says; `otel_tls` of each thread is NULL or a context of the list, which is not
-- that of another thread, and each context of the list is that of a thread.
pub record IsOwned (Good : ℕ → Ring → Type 0) (p : Process) : Type 0 where
  pub distinct : Distinct p.threads
  pub live : (c : ℕ) → has c p.threads ≡ true → (r : Ring) × (p.heap c ≡ some r) × Good c r
  pub gone : (c : ℕ) → has c p.threads ≡ false → p.heap c ≡ none
  pub fresh : (c : ℕ) → has c p.threads ≡ true → c < p.next
  pub held : (t c : ℕ) → p.tls t ≡ some c → has c p.threads ≡ true
  pub alone : (t u c : ℕ) → p.tls t ≡ some c → p.tls u ≡ some c → t ≡ u
  pub owner : (c : ℕ) → has c p.threads ≡ true → (t : ℕ) × (p.tls t ≡ some c)

pub update_hit {ℓ} : {A : Type ℓ} (f : ℕ → A) (c : ℕ) (x : A) → update f c x c ≡ x
update_hit f c x = let same : (c == c) ≡ true = ground arith in rw same refl

pub update_miss {ℓ} :
    {A : Type ℓ} (f : ℕ → A) (c : ℕ) (x : A) (j : ℕ) → (j == c) ≡ false → update f c x j ≡ f j
update_miss f c x j miss = rw miss refl

pub some-inj {ℓ} : {A : Type ℓ} {a b : A} → ◌≡◌ {A = Option A} (some a) (some b) → a ≡ b
some-inj e = cc e

module _ (Good : ℕ → Ring → Type 0) (p : Process) (v : IsOwned Good p) where
  pub next_new : has p.next p.threads ≡ false
  next_new = elim (Bool-cases (has p.next p.threads)) [
    | inl old ↦ absurd (omega (arith, v.fresh p.next old))
    | inr no' ↦ no'
  ]

  -- With a new context too, a context belongs to one thread.
  alone_new :
      (t u w c : ℕ)
      → update p.tls t (some p.next) u ≡ some c
      → update p.tls t (some p.next) w ≡ some c
      → u ≡ w
  alone_new t u w c e k = elim (Bool-cases (u == t)) [
    | inl first ↦ elim (Bool-cases (w == t)) [
      | inl second ↦ ground arith
      | inr miss ↦
          let e' : p.next ≡ c = some-inj (rw first at e) in
          absurd (omega (arith, v.fresh c (v.held w c (rw miss at k)), e'))
    ]
    | inr miss ↦ elim (Bool-cases (w == t)) [
      | inl second ↦
          let k' : p.next ≡ c = some-inj (rw second at k) in
          absurd (omega (arith, v.fresh c (v.held u c (rw miss at e)), k'))
      | inr other ↦ v.alone u w c (rw miss at e) (rw other at k)
    ]
  ]

  -- A context less.
  pub freed-IsOwned :
      (t c : ℕ) (out : Out)
      → p.tls t ≡ some c
      → IsOwned Good (record p {
        threads = remove c p.threads;
        heap = update p.heap c none;
        tls = update p.tls t none;
        out = out;
      })
  freed-IsOwned t c out e =
      let had : (j : ℕ) → has j (remove c p.threads) ≡ (if j == c then false else has j p.threads) =
        λ j. has-remove j c p.threads v.distinct in
      let still : (j : ℕ)
          → has j (remove c p.threads) ≡ true
          → (j == c ≡ false) × (has j p.threads ≡ true) =
        λ j h. elim (Bool-cases (j == c)) [
          | inl hit ↦ absurd (let x : false ≡ true = sym (rw hit at (had j)) ∙ h in (cc x))
          | inr miss ↦ (miss, sym (rw miss at (had j)) ∙ h)
        ] in
      record {
        distinct = Distinct-remove c p.threads v.distinct;
        live =
            λ j h. let (miss, old) = still j h in let (r, k, g) = v.live j old in (r, rw miss k, g);
        gone = λ j h. elim (Bool-cases (j == c)) [
          | inl hit ↦ rw hit refl
          | inr miss ↦ rw miss (v.gone j (sym (rw miss at (had j)) ∙ h))
        ];
        fresh = λ j h. v.fresh j (still j h).1;
        held = λ u j k. elim (Bool-cases (u == t)) [
          | inl hit ↦ absurd (let x : none ≡ some j = rw hit at k in (cc x))
          | inr miss ↦
              let k' : p.tls u ≡ some j = rw miss at k in
              elim (Bool-cases (j == c)) [
                | inl hit ↦
                    let same : j ≡ c = ground arith in
                    let both = v.alone u t c (k' ∙ ap some same) e in absurd (ground (arith, both))
                | inr other ↦
                    had j ∙ ap (λ b. if b then false else has j p.threads) other ∙ v.held u j k'
              ]
        ];
        alone = λ u w j k l. elim (Bool-cases (u == t)) [
          | inl hit ↦ absurd (let x : none ≡ some j = rw hit at k in (cc x))
          | inr miss ↦ elim (Bool-cases (w == t)) [
            | inl hit ↦ absurd (let x : none ≡ some j = rw hit at l in (cc x))
            | inr other ↦ v.alone u w j (rw miss at k) (rw other at l)
          ]
        ];
        owner = λ j h.
            let (other, old) = still j h in
            let (u, k) = v.owner j old in
            elim (Bool-cases (u == t)) [
              | inl hit ↦
                  let same : u ≡ t = ground arith in
                  let x : c ≡ j = some-inj (sym e ∙ ap p.tls (sym same) ∙ k) in
                  absurd (ground (arith, x))
              | inr miss ↦ (u, rw miss k)
            ];
      }

module _ (Good Better : ℕ → Ring → Type 0) (p : Process) (v : IsOwned Good p) where
  -- A new context.
  pub register_of-IsOwned :
      (t : ℕ)
      → p.tls t ≡ none
      → Better p.next (new_ring p.ring_capacity)
      → ((c : ℕ) (r : Ring) → has c p.threads ≡ true → Good c r → Better c r)
      → IsOwned Better (register_of p t none)
  register_of-IsOwned t off new_good better = record {
    distinct = (next_new Good p v, v.distinct);
    live = λ c h. elim (Bool-cases (c == p.next)) [
      | inl hit ↦
          let same : p.next ≡ c = ground arith in
          (
            new_ring p.ring_capacity,
            rw hit refl,
            subst (λ x. Better x (new_ring p.ring_capacity)) same new_good,
          )
      | inr miss ↦
          let other : (p.next == c) ≡ false = ground arith in
          let old : has c p.threads ≡ true = rw other at h in
          let (r, e, g) = v.live c old in (r, rw miss e, better c r old g)
    ];
    gone = λ c h. elim (Bool-cases (c == p.next)) [
      | inl hit ↦
          let same : (p.next == c) ≡ true = ground arith in
          absurd (let e : true ≡ false = rw same at h in (cc e))
      | inr miss ↦
          let other : (p.next == c) ≡ false = ground arith in rw miss (v.gone c (rw other at h))
    ];
    fresh = λ c h. elim (Bool-cases (p.next == c)) [
      | inl hit ↦ ground arith
      | inr miss ↦ omega (arith, v.fresh c (rw miss at h))
    ];
    held = λ u c e. elim (Bool-cases (u == t)) [
      | inl hit ↦
          let e' : some p.next ≡ some c = rw hit at e in
          let same : (p.next == c) ≡ true = ground (arith, some-inj e') in rw same refl
      | inr miss ↦
          let old = v.held u c (rw miss at e) in
          if_ind (λ b. b ≡ true) (p.next == c) (λ on. refl) (λ no'. old)
    ];
    alone = alone_new Good p v t;
    owner = λ c h. elim (Bool-cases (p.next == c)) [
      | inl hit ↦
          let same : p.next ≡ c = ground arith in
          (t, update_hit p.tls t (some p.next) ∙ ap some same)
      | inr miss ↦
          let (u, e) = v.owner c (rw miss at h) in
          elim (Bool-cases (u == t)) [
            | inl same ↦
                let same' : u ≡ t = ground arith in
                absurd (let x : none ≡ some c = sym off ∙ ap p.tls (sym same') ∙ e in (cc x))
            | inr other ↦ (u, rw other e)
          ]
    ];
  }

  -- Other rings in the same contexts.
  pub heap-IsOwned :
      (heap : ℕ → Option Ring) (out : Out) (n : ℕ)
      → ((c : ℕ) → has c p.threads ≡ true → (r : Ring) × (heap c ≡ some r) × Better c r)
      → ((c : ℕ) → has c p.threads ≡ false → heap c ≡ p.heap c)
      → IsOwned Better (record p { heap = heap; out = out; dropped_spans = n })
  heap-IsOwned heap out n live gone = record {
    distinct = v.distinct;
    live = live;
    gone = λ c h. gone c h ∙ v.gone c h;
    fresh = v.fresh;
    held = v.held;
    alone = v.alone;
    owner = v.owner;
  }

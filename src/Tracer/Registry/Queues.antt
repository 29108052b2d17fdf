-- ===== src/Tracer/Registry/Queues.antt =====
-- The spans that the rings of a list of contexts hold, taken together.
use oteltracing_c.Base.{
  ℕ, suc, ◌+◌, ◌≡◌, refl, sym, ap, ap₂, subst, ◌∙◌, inl, inr, true, false, List, [], ◌∷◌, ◌++◌, map,
  arith,
}
use oteltracing_c.Base.Tests.{◌==◌, Bool-cases, if_ind}
use oteltracing_c.Base.Keys.{has, remove, Distinct, has-remove}
use oteltracing_c.Base.Lists.{length}
use mathlib.Core.List.{Perm, append_assoc, perm_append_comm}
use mathlib.Core.List.Perm
use oteltracing_c.Otlp.{Rings}
use oteltracing_c.Tracer.Ring.{Ring}
use oteltracing_c.Tracer.Ring.Queue.{Holds}
use oteltracing_c.Tracer.Drain.Deliver.{Finished, spans_of, AllHold, AllEmpty, all_spans}
use oteltracing_c.Tracer.Registry.{update, rings_of}
use oteltracing_c.Tracer.Registry.Owned.{update_hit, update_miss}
use oteltracing_c.Tracer.Registry.Heap.{Each}

-- which finished spans are in the ring of each context
abbrev pub Queues : Type 0
Queues = ℕ → List Finished

abbrev pub queue : Queues → List ℕ → List Finished
queue q cs = all_spans (map q cs)

abbrev pub HoldsQueue : Queues → ℕ → Ring → Type 0
HoldsQueue q c r = Holds r (spans_of (q c))

perm_refl : {A : Type 0} {xs ys : List A} → xs ≡ ys → Perm xs ys
perm_refl {A} {xs} e = subst (λ l. Perm xs l) e (Perm.refl xs)

-- The middle part of a list may come last.
pub middle_last : {A : Type 0} (xs ys zs : List A) → Perm ((xs ++ ys) ++ zs) ((xs ++ zs) ++ ys)
middle_last xs ys zs =
    subst (λ l. Perm l ((xs ++ zs) ++ ys)) (sym (append_assoc xs ys zs))
      (subst (λ l. Perm (xs ++ (ys ++ zs)) l) (sym (append_assoc xs zs ys))
        (Perm.append_left xs (perm_append_comm ys zs)))

pub queue-other :
    (q q' : Queues) (cs : List ℕ)
    → ((c : ℕ) → has c cs ≡ true → q' c ≡ q c)
    → queue q' cs ≡ queue q cs
queue-other q q' [] h = refl
queue-other q q' (c ∷ cs) h =
    let here : (c == c) ≡ true = ground arith in
    ap₂ ◌++◌ (h c (rw here refl))
      (queue-other q q' cs (λ j k. h j (if_ind (λ b. b ≡ true) (c == j) (λ on. refl) (λ no'. k))))

pub queue_empty : (cs : List ℕ) → queue (λ c. []) cs ≡ []
queue_empty [] = refl
queue_empty (c ∷ cs) = queue_empty cs

-- The spans of one context may come first.
pub queue-remove :
    (q : Queues) (c : ℕ) (cs : List ℕ)
    → has c cs ≡ true
    → Perm (queue q cs) (q c ++ queue q (remove c cs))
queue-remove q c [] h = absurd (cc h)
queue-remove q c (x ∷ xs) h = elim (Bool-cases (x == c)) [
  | inl hit ↦
      let same : x ≡ c = ground arith in rw hit (perm_refl (ap (λ j. q j ++ queue q xs) same))
  | inr miss ↦
      let rest = queue-remove q c xs (rw miss at h) in
      let swap : Perm (q x ++ (q c ++ queue q (remove c xs)))
          (q c ++ (q x ++ queue q (remove c xs))) =
        subst (λ l. Perm l (q c ++ (q x ++ queue q (remove c xs))))
          (append_assoc (q x) (q c) (queue q (remove c xs)))
          (subst (λ l. Perm ((q x ++ q c) ++ queue q (remove c xs)) l)
            (append_assoc (q c) (q x) (queue q (remove c xs)))
            (Perm.append_right (queue q (remove c xs)) (perm_append_comm (q x) (q c)))) in
      rw miss (Perm.trans (Perm.append_left (q x) rest) swap)
]

-- Spans that one context gets are behind all others, up to the order.
pub queue-update :
    (q : Queues) (c : ℕ) (fs : List Finished) (cs : List ℕ)
    → Distinct cs
    → has c cs ≡ true
    → Perm (queue (update q c (q c ++ fs)) cs) (queue q cs ++ fs)
queue-update q c fs cs d h =
    let q' = update q c (q c ++ fs) in
    let others : queue q' (remove c cs) ≡ queue q (remove c cs) =
      queue-other q q' (remove c cs) (λ j k. elim (Bool-cases (j == c)) [
        | inl hit ↦
            absurd (let x : false ≡ true = sym (rw hit at (has-remove j c cs d)) ∙ k in (cc x))
        | inr miss ↦ update_miss q c (q c ++ fs) j miss
      ]) in
    Perm.trans (queue-remove q' c cs h) (
      Perm.trans (perm_refl (ap₂ ◌++◌ (update_hit q c (q c ++ fs)) others)) (
        Perm.trans (middle_last (q c) fs (queue q (remove c cs)))
          (Perm.append_right fs (Perm.symm (queue-remove q c cs h)))))

-- The rings of the contexts as a drain numbers them.
pub rings_of-AllHold :
    (q : Queues) (rings : Rings) (k : ℕ) (cs : List ℕ) (rs : List Ring)
    → ((c i : ℕ) → rings (k + c, i) ≡ rings_of rs (c, i))
    → Each (HoldsQueue q) cs rs
    → AllHold rings k rs (map q cs)
rings_of-AllHold q rings k [] [] same h = tt
rings_of-AllHold q rings k [] (r ∷ rs) same h = absurd h
rings_of-AllHold q rings k (c ∷ cs) [] same h = absurd h
rings_of-AllHold q rings k (c ∷ cs) (r ∷ rs) same h =
    let first : k + 0 ≡ k = omega arith in
    let later : (d : ℕ) → suc k + d ≡ k + suc d = λ d. omega arith in
    (
      h.0,
      λ i. ap (λ d. rings (d, i)) (sym first) ∙ same 0 i,
      rings_of-AllHold q rings (suc k) cs rs
          (λ d i. ap (λ e. rings (e, i)) (later d) ∙ same (suc d) i) h.1,
    )

pub empty_Each :
    (cs : List ℕ) (rs : List Ring)
    → length rs ≡ length cs
    → AllEmpty rs
    → Each (HoldsQueue (λ c. [])) cs rs
empty_Each [] [] e h = tt
empty_Each [] (r ∷ rs) e h = absurd (omega (arith, e))
empty_Each (c ∷ cs) [] e h = absurd (omega (arith, e))
empty_Each (c ∷ cs) (r ∷ rs) e h = (h.0, empty_Each cs rs (omega (arith, e)) h.1)

-- ===== src/Tracer/Registry/Heap.antt =====
-- The loops over the contexts in memory: what is read is there, and what is written stays.
use oteltracing_c.Base.{
  ℕ, suc, ◌≡◌, refl, ap, ap₂, subst, ◌∙◌, inl, inr, true, false, Option, some, List, [], ◌∷◌, arith,
}
use oteltracing_c.Base.Tests.{◌==◌, Bool-cases, if_ind}
use oteltracing_c.Base.Keys.{has, remove, Distinct}
use oteltracing_c.Base.Lists.{length}
use oteltracing_c.Tracer.Ring.{Ring}
use oteltracing_c.Tracer.Registry.{update, collect_one, collect, write_back, unlink_past, unlink}
use oteltracing_c.Tracer.Registry.Owned.{update_hit, update_miss}

-- the rings of these contexts, each as `Good` says
abbrev pub Each : (ℕ → Ring → Type 0) → List ℕ → List Ring → Type 0
Each Good [] [] = Unit {0}
Each Good [] (r ∷ rs) = ⊥
Each Good (c ∷ cs) [] = ⊥
Each Good (c ∷ cs) (r ∷ rs) = Good c r × Each Good cs rs

pub length-Each :
    (Good : ℕ → Ring → Type 0) (cs : List ℕ) (rs : List Ring)
    → Each Good cs rs
    → length rs ≡ length cs
length-Each Good [] [] h = refl
length-Each Good [] (r ∷ rs) h = absurd h
length-Each Good (c ∷ cs) [] h = absurd h
length-Each Good (c ∷ cs) (r ∷ rs) h = ap suc (length-Each Good cs rs h.1)

pub any_Each : (cs : List ℕ) (rs : List Ring) → length rs ≡ length cs → Each (λ c r. Unit {0}) cs rs
any_Each [] [] e = tt
any_Each [] (r ∷ rs) e = absurd (omega (arith, e))
any_Each (c ∷ cs) [] e = absurd (omega (arith, e))
any_Each (c ∷ cs) (r ∷ rs) e = (tt, any_Each cs rs (omega (arith, e)))

-- A list of contexts in memory is read without a fault.
pub collect-Each :
    (Good : ℕ → Ring → Type 0) (heap : ℕ → Option Ring) (cs : List ℕ)
    → ((c : ℕ) → has c cs ≡ true → (r : Ring) × (heap c ≡ some r) × Good c r)
    → (rs : List Ring) × (collect heap cs ≡ some rs) × Each Good cs rs
collect-Each Good heap [] live = ([], refl, tt)
collect-Each Good heap (c ∷ cs) live =
    let here : (c == c) ≡ true = ground arith in
    let (r, e, g) = live c (rw here refl) in
    let (rs, k, gs) =
      collect-Each Good heap cs
        (λ j h. live j (if_ind (λ b. b ≡ true) (c == j) (λ on. refl) (λ no'. h))) in
    (r ∷ rs, ap₂ collect_one e k, (g, gs))

pub write_back-other :
    (heap : ℕ → Option Ring) (cs : List ℕ) (rs : List Ring) (j : ℕ)
    → has j cs ≡ false
    → write_back heap cs rs j ≡ heap j
write_back-other heap [] rs j h = refl
write_back-other heap (c ∷ cs) [] j h = refl
write_back-other heap (c ∷ cs) (r ∷ rs) j h = elim (Bool-cases (c == j)) [
  | inl hit ↦ absurd (let x : true ≡ false = rw hit at h in (cc x))
  | inr miss ↦
      let other : (j == c) ≡ false = ground arith in
      write_back-other (update heap c (some r)) cs rs j (rw miss at h)
      ∙ update_miss heap c (some r) j other
]

-- After the write each context of the list has its ring.
pub write_back-Each :
    (Good : ℕ → Ring → Type 0) (heap : ℕ → Option Ring) (cs : List ℕ) (rs : List Ring)
    → Distinct cs
    → Each Good cs rs
    → (j : ℕ) → has j cs ≡ true
    → (r : Ring) × (write_back heap cs rs j ≡ some r) × Good j r
write_back-Each Good heap [] rs d g j h = absurd (cc h)
write_back-Each Good heap (c ∷ cs) [] d g j h = absurd g
write_back-Each Good heap (c ∷ cs) (r ∷ rs) d g j h = elim (Bool-cases (c == j)) [
  | inl hit ↦
      let same : c ≡ j = ground arith in
      subst (λ x. (r' : Ring) × (write_back heap (c ∷ cs) (r ∷ rs) x ≡ some r') × Good x r') same
        (r, write_back-other (update heap c (some r)) cs rs c d.0 ∙ update_hit heap c (some r), g.0)
  | inr miss ↦ write_back-Each Good (update heap c (some r)) cs rs d.1 g.1 j (rw miss at h)
]

-- The loop that takes a context out of the list finds it, and reads only contexts in memory.
pub unlink-remove :
    (heap : ℕ → Option Ring) (c : ℕ) (cs : List ℕ)
    → ((j : ℕ) → has j cs ≡ true → (r : Ring) × (heap j ≡ some r))
    → unlink heap c cs ≡ some (remove c cs)
unlink-remove heap c [] live = refl
unlink-remove heap c (x ∷ xs) live =
    let here : (x == x) ≡ true = ground arith in
    let (r, e) = live x (rw here refl) in
    let rest =
      unlink-remove heap c xs
        (λ j h. live j (if_ind (λ b. b ≡ true) (x == j) (λ on. refl) (λ no'. h))) in
    elim (Bool-cases (x == c)) [
      | inl hit ↦ rw hit refl
      | inr miss ↦ rw miss (ap₂ (unlink_past x) e rest)
    ]

-- ===== src/OtelTrace/Tree/Complete.antt =====
-- Each node that is reached is printed, with fuel for all nodes.
use oteltracing_c.Base.{
  ◌↔◌, ℕ, zero, suc, ◌+◌, ◌<◌, ◌≤◌, ◌≡◌, ◌⊎◌, refl, sym, ap, subst, ◌∙◌, inl, inr, Bool, true,
  false, Option, none, some, List, arith,
}
use oteltracing_c.Base.Tests.{◌==◌, if◌then◌else◌, Bool-cases}
use oteltracing_c.OtelTrace.Tree.{
  Snode, Printed, same_text, mark, wanted, visit, visit_from, print_subtree, Reached, root, child,
  times, nothing_printed,
}
use oteltracing_c.OtelTrace.Tree.Once.{same_text_refl, print_subtree-IsPrinted}
use oteltracing_c.OtelTrace.Tree.Unprinted.{
  unprinted, Grows, unprinted-Grows, mark-Grows, unprinted-mark,
}

module _ (nodes : ℕ → Snode) (n : ℕ) where
  -- Each node that a call selects is printed.
  abbrev Covers : Option (List ℕ) → (ℕ → Bool) → Type 0
  Covers p fl = (j : ℕ) → j < n → wanted nodes n p (nodes j) ≡ true → fl j ≡ true

  Covers-Grows :
      (p : Option (List ℕ)) (fl fl' : ℕ → Bool) → Grows fl fl' → Covers p fl → Covers p fl'
  Covers-Grows p fl fl' g c j lt h = g j (c j lt h)

  -- What is new is printed with all its children.
  record Extends (fl fl' : ℕ → Bool) : Type 0 where
    grows : Grows fl fl'
    closed : (j : ℕ) → fl' j ≡ true → (fl j ≡ true) ⊎ Covers (some (nodes j).span_id) fl'

  Extends-self : (fl : ℕ → Bool) → Extends fl fl
  Extends-self fl = record { grows = λ j h. h; closed = λ j h. inl h }

  Extends-trans : (a b c : ℕ → Bool) → Extends a b → Extends b c → Extends a c
  Extends-trans a b c x y = record {
    grows = λ j h. y.grows j (x.grows j h);
    closed = λ j h. elim (y.closed j h) [
      | inl old ↦ elim (x.closed j old) [
        | inl older ↦ inl older
        | inr all' ↦ inr (Covers-Grows (some (nodes j).span_id) b c y.grows all')
      ]
      | inr all' ↦ inr all'
    ];
  }

  -- What a call below does where its fuel exceeds the number of nodes that are left.
  abbrev Works : ℕ → (List ℕ → ℕ → Printed → Printed) → Type 0
  Works f below =
      (id : List ℕ) (depth : ℕ) (st : Printed)
      → unprinted st.printed n 0 < f
      → Extends st.printed (below id depth st).printed
        × Covers (some id) (below id depth st).printed

  marked :
      (i depth : ℕ) (st st' : Printed)
      → Extends (mark i depth st).printed st'.printed
      → Covers (some (nodes i).span_id) st'.printed
      → Extends st.printed st'.printed
  marked i depth st st' x c = record {
    grows = λ j h. x.grows j (mark-Grows i depth st j h);
    closed = λ j h. elim (x.closed j h) [
      | inl old ↦ elim (Bool-cases (j == i)) [
        | inl hit ↦
            let same : i ≡ j = ground arith in
            inr (subst (λ a. Covers (some (nodes a).span_id) st'.printed) same c)
        | inr miss ↦ inl (rw miss at old)
      ]
      | inr all' ↦ inr all'
    ];
  }

  visit-Extends :
      (f : ℕ) (below : List ℕ → ℕ → Printed → Printed) (p : Option (List ℕ)) (depth i : ℕ)
      (st : Printed)
      → Works f below
      → unprinted st.printed n 0 < suc f
      → i < n
      → Extends st.printed (visit nodes n below p depth i st).printed
        × (wanted nodes n p (nodes i) ≡ true → (visit nodes n below p depth i st).printed i ≡ true)
  unfolding visit
  visit-Extends f below p depth i st b few lt = elim (Bool-cases (st.printed i)) [
    | inl on ↦ rw on (Extends-self st.printed, λ h. on)
    | inr off ↦ elim (Bool-cases (wanted nodes n p (nodes i))) [
      | inl hit ↦
          let less = unprinted-mark i depth st n 0 off (omega arith) (omega (arith, lt)) in
          let r = b (nodes i).span_id (suc depth) (mark i depth st) (omega (arith, less, few)) in
          rw (off, hit)
            (
              marked i depth st (below (nodes i).span_id (suc depth) (mark i depth st)) r.0 r.1,
              λ h. r.0.grows i (ground arith),
            )
      | inr miss ↦
          rw (off, miss) (Extends-self st.printed, λ h. absurd (let e : false ≡ true = h in (cc e)))
    ]
  ]

  visit_from-Extends :
      (f : ℕ) (below : List ℕ → ℕ → Printed → Printed) (p : Option (List ℕ)) (depth k i : ℕ)
      (st : Printed)
      → Works f below
      → unprinted st.printed n 0 < suc f
      → i + k ≤ n
      → Extends st.printed (visit_from nodes n below p depth k i st).printed
        × ((j : ℕ)
            → i ≤ j
            → j < i + k
            → wanted nodes n p (nodes j) ≡ true
            → (visit_from nodes n below p depth k i st).printed j ≡ true)
  unfolding visit_from
  visit_from-Extends f below p depth zero i st b few le =
      (Extends-self st.printed, λ j lo hi h. absurd (omega (arith, lo, hi)))
  visit_from-Extends f below p depth (suc k) i st b few le =
      let first = visit-Extends f below p depth i st b few (omega (arith, le)) in
      let st1 = visit nodes n below p depth i st in
      let fewer = unprinted-Grows st.printed st1.printed n 0 first.0.grows in
      let rest =
        visit_from-Extends f below p depth k (suc i) st1 b (omega (arith, few, fewer))
          (omega (arith, le)) in
      (
        Extends-trans st.printed st1.printed
            (visit_from nodes n below p depth k (suc i) st1).printed first.0 rest.0,
        λ j lo hi h. elim (Bool-cases (j == i)) [
          | inl hit ↦
              let same : i ≡ j = ground arith in
              rest.0.grows j (
                subst (λ a. wanted nodes n p (nodes a) ≡ true → st1.printed a ≡ true) same first.1
                  h)
          | inr miss ↦ rest.1 j (ground (arith, lo)) (omega (arith, hi)) h
        ],
      )

  print_subtree-Extends :
      (f : ℕ) (p : Option (List ℕ)) (depth : ℕ) (st : Printed)
      → unprinted st.printed n 0 < f
      → Extends st.printed (print_subtree nodes n f p depth st).printed
        × Covers p (print_subtree nodes n f p depth st).printed
  unfolding print_subtree
  print_subtree-Extends zero p depth st few = absurd (omega (arith, few))
  print_subtree-Extends (suc f) p depth st few =
      let r =
        visit_from-Extends f (λ id d x. print_subtree nodes n f (some id) d x) p depth n 0 st
          (λ id d x less. print_subtree-Extends f (some id) d x less) few (omega arith) in
      (r.0, λ j lt h. r.1 j (omega arith) (omega (arith, lt)) h)

  unprinted-le : (k i : ℕ) → unprinted (λ j. false) k i ≤ k
  unprinted-le zero i = omega arith
  unprinted-le (suc k) i = omega (arith, unprinted-le k (suc i))

  Reached-printed :
      (j : ℕ)
      → Reached nodes n j
      → (print_subtree nodes n (suc n) none 0 nothing_printed).printed j ≡ true
  unfolding wanted
  Reached-printed j (root _ lt h) =
      (print_subtree-Extends (suc n) none 0 nothing_printed (omega (arith, unprinted-le n 0))).1 j
        lt h
  Reached-printed j (child i _ r lt e) =
      let whole =
        print_subtree-Extends (suc n) none 0 nothing_printed (omega (arith, unprinted-le n 0)) in
      elim (whole.0.closed i (Reached-printed i r)) [
        | inl old ↦ absurd (let no' : false ≡ true = old in (cc no'))
        | inr all' ↦ all' j lt (
            subst (λ x. same_text (nodes j).parent_id x ≡ true) e
              (same_text_refl (nodes j).parent_id))
      ]

  -- For any array of n nodes with any identifiers, print_subtree from no parent, with nothing
  -- printed and with fuel n + 1 for the depth of its calls, prints no node twice, and prints a
  -- node exactly when it is reached: it is a root (it has no parent identifier, or none that a
  -- node of the array has), or the identifier of its parent is the one of a node that is reached.
  -- So cycles of parents neither loop nor are printed, and the fuel is enough.
  pub print_subtree-times :
      (j : ℕ)
      → let lines = (print_subtree nodes n (suc n) none 0 nothing_printed).lines in
        times j lines ≤ 1 × (Reached nodes n j ↔ times j lines ≡ 1)
  print_subtree-times j =
      let st = print_subtree nodes n (suc n) none 0 nothing_printed in
      let v =
        print_subtree-IsPrinted nodes n (suc n) none 0 nothing_printed (λ i lt h. root i lt h)
          (record { once = λ i. refl; reached = λ i h. absurd (cc h) }) in
      elim (Bool-cases (st.printed j)) [
        | inl on ↦
            let one : times j st.lines ≡ 1 = v.once j ∙ ap (λ b. if b then 1 else 0) on in
            (omega (arith, one), ((λ r. one), (λ e. v.reached j on)))
        | inr off ↦
            let zero' : times j st.lines ≡ 0 = v.once j ∙ ap (λ b. if b then 1 else 0) off in
            (
              omega (arith, zero'),
              (
                (λ r. absurd (let no' : false ≡ true = sym off ∙ Reached-printed j r in (cc no'))),
                (λ e. absurd (omega (arith, zero', e))),
              ),
            )
      ]

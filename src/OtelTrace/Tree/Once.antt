-- ===== src/OtelTrace/Tree/Once.antt =====
-- No node is printed twice, and none that is not reached.
use oteltracing_c.Base.{
  subst, ℕ, zero, suc, ◌+◌, ◌<◌, ◌≤◌, ◌≡◌, refl, ap, ◌∙◌, inl, inr, true, false, Option, some, List,
  [], ◌∷◌, ◌++◌, arith,
}
use oteltracing_c.Base.Tests.{◌==◌, if◌then◌else◌, Bool-cases, if_ind}
use oteltracing_c.OtelTrace.Tree.{
  Snode, Line, Printed, same_text, mark, wanted, visit, visit_from, print_subtree, Reached, child,
  times,
}

pub same_text_eq : (xs ys : List ℕ) → same_text xs ys ≡ true → xs ≡ ys
same_text_eq [] [] h = refl
same_text_eq [] (y ∷ ys) h = absurd (cc h)
same_text_eq (x ∷ xs) [] h = absurd (cc h)
same_text_eq (x ∷ xs) (y ∷ ys) h = elim (Bool-cases (x == y)) [
  | inl hit ↦
      let rest : same_text xs ys ≡ true = rw hit at h in
      let first : x ≡ y = ground arith in λ i. first i ∷ same_text_eq xs ys rest i
  | inr miss ↦ absurd (let e : false ≡ true = rw miss at h in (cc e))
]

pub same_text_refl : (xs : List ℕ) → same_text xs xs ≡ true
same_text_refl [] = refl
same_text_refl (x ∷ xs) = let h : (x == x) ≡ true = ground arith in rw h (same_text_refl xs)

times-snoc :
    (j : ℕ) (ls : List Line) (l : Line)
    → times j (ls ++ (l ∷ [])) ≡ times j ls + (if l.node == j then 1 else 0)
times-snoc j [] l = ground arith
times-snoc j (x ∷ ls) l = ground (arith, times-snoc j ls l)

mark_once :
    (i depth : ℕ) (st : Printed)
    → st.printed i ≡ false
    → ((j : ℕ) → times j st.lines ≡ (if st.printed j then 1 else 0))
    → (j : ℕ) → times j (mark i depth st).lines ≡ (if (mark i depth st).printed j then 1 else 0)
mark_once i depth st off once j =
    let more = times-snoc j st.lines (record { node = i; depth = depth }) in
    elim (Bool-cases (j == i)) [
      | inl hit ↦
          let same : j ≡ i = ground arith in
          let hit' : (i == j) ≡ true = ground arith in
          let none_yet : times j st.lines ≡ 0 =
            once j ∙ ap (λ b. if b then 1 else 0) (ap st.printed same ∙ off) in
          rw (more, none_yet, hit', hit) refl
      | inr miss ↦
          let miss' : (i == j) ≡ false = ground arith in
          rw (more, miss', miss) (omega (arith, once j))
    ]

module _ (nodes : ℕ → Snode) (n : ℕ) where
  -- A flag is set exactly when there is one line, and only for nodes that are reached.
  pub record IsPrinted (st : Printed) : Type 0 where
    pub once : (j : ℕ) → times j st.lines ≡ (if st.printed j then 1 else 0)
    pub reached : (j : ℕ) → st.printed j ≡ true → Reached nodes n j

  -- The nodes that a call selects are reached.
  abbrev pub Selects : Option (List ℕ) → Type 0
  Selects p = (j : ℕ) → j < n → wanted nodes n p (nodes j) ≡ true → Reached nodes n j

  Selects-below : (i : ℕ) → Reached nodes n i → Selects (some (nodes i).span_id)
  unfolding wanted
  Selects-below i r j lt h = child i j r lt (same_text_eq (nodes j).parent_id (nodes i).span_id h)

  mark-IsPrinted :
      (i depth : ℕ) (st : Printed)
      → st.printed i ≡ false
      → Reached nodes n i
      → IsPrinted st
      → IsPrinted (mark i depth st)
  mark-IsPrinted i depth st off r v = record {
    once = λ j. mark_once i depth st off v.once j;
    reached = λ j h. elim (Bool-cases (j == i)) [
      | inl hit ↦ let same : i ≡ j = ground arith in subst (Reached nodes n) same r
      | inr miss ↦ v.reached j (rw miss at h)
    ];
  }

  abbrev Below : (List ℕ → ℕ → Printed → Printed) → Type 0
  Below below =
      (i depth : ℕ) (st : Printed)
      → Reached nodes n i
      → IsPrinted st
      → IsPrinted (below (nodes i).span_id depth st)

  visit-IsPrinted :
      (below : List ℕ → ℕ → Printed → Printed) (p : Option (List ℕ)) (depth i : ℕ) (st : Printed)
      → Below below
      → Selects p
      → i < n
      → IsPrinted st
      → IsPrinted (visit nodes n below p depth i st)
  unfolding visit
  visit-IsPrinted below p depth i st b s lt v =
      if_ind IsPrinted (st.printed i) (λ on. v)
        (λ off.
          if_ind IsPrinted (wanted nodes n p (nodes i))
            (λ yes'.
              b i (suc depth) (mark i depth st) (s i lt yes')
                (mark-IsPrinted i depth st off (s i lt yes') v))
            (λ no'. v))

  visit_from-IsPrinted :
      (below : List ℕ → ℕ → Printed → Printed) (p : Option (List ℕ)) (depth k i : ℕ) (st : Printed)
      → Below below
      → Selects p
      → i + k ≤ n
      → IsPrinted st
      → IsPrinted (visit_from nodes n below p depth k i st)
  unfolding visit_from
  visit_from-IsPrinted below p depth zero i st b s le v = v
  visit_from-IsPrinted below p depth (suc k) i st b s le v =
      visit_from-IsPrinted below p depth k (suc i) (visit nodes n below p depth i st) b s
        (omega (arith, le)) (visit-IsPrinted below p depth i st b s (omega (arith, le)) v)

  pub print_subtree-IsPrinted :
      (f : ℕ) (p : Option (List ℕ)) (depth : ℕ) (st : Printed)
      → Selects p
      → IsPrinted st
      → IsPrinted (print_subtree nodes n f p depth st)
  unfolding print_subtree
  print_subtree-IsPrinted zero p depth st s v = v
  print_subtree-IsPrinted (suc f) p depth st s v =
      visit_from-IsPrinted (λ id d x. print_subtree nodes n f (some id) d x) p depth n 0 st
        (λ i d x r w. print_subtree-IsPrinted f (some (nodes i).span_id) d x (Selects-below i r) w)
        s (omega arith) v

-- ===== src/OtelTrace/Tree/Unprinted.antt =====
-- How many nodes are still to be printed: marking one leaves fewer.
use oteltracing_c.Base.{
  ℕ, zero, suc, ◌+◌, ◌<◌, ◌≤◌, ◌≡◌, ap, ◌∙◌, inl, inr, Bool, true, false, arith,
}
use oteltracing_c.Base.Tests.{◌==◌, if◌then◌else◌, Bool-cases}
use oteltracing_c.OtelTrace.Tree.{Printed, mark}

-- The nodes from `i` on, `k` of them, that are not printed.
abbrev pub unprinted : (ℕ → Bool) → (k i : ℕ) → ℕ
unprinted fl zero i = 0
unprinted fl (suc k) i = let rest = unprinted fl k (suc i) in if fl i then rest else suc rest

-- Flags are never taken back.
abbrev pub Grows : (ℕ → Bool) → (ℕ → Bool) → Type 0
Grows fl fl' = (j : ℕ) → fl j ≡ true → fl' j ≡ true

pub unprinted-Grows :
    (fl fl' : ℕ → Bool) (k i : ℕ) → Grows fl fl' → unprinted fl' k i ≤ unprinted fl k i
unprinted-Grows fl fl' zero i g = omega arith
unprinted-Grows fl fl' (suc k) i g = ground (arith, unprinted-Grows fl fl' k (suc i) g, g i)

pub mark-Grows : (i depth : ℕ) (st : Printed) → Grows st.printed (mark i depth st).printed
mark-Grows i depth st j h = ground arith

-- Marking a node leaves fewer.
pub unprinted-mark :
    (i depth : ℕ) (st : Printed) (k a : ℕ)
    → st.printed i ≡ false
    → a ≤ i
    → i < a + k
    → unprinted (mark i depth st).printed k a < unprinted st.printed k a
unprinted-mark i depth st zero a off le lt = absurd (omega (arith, le, lt))
unprinted-mark i depth st (suc k) a off le lt = elim (Bool-cases (a == i)) [
  | inl hit ↦
      let same : a ≡ i = ground arith in
      let off' : st.printed a ≡ false = ap st.printed same ∙ off in
      rw (hit, off')
        (omega (
          arith,
          unprinted-Grows st.printed (mark i depth st).printed k (suc a) (mark-Grows i depth st),
        ))
  | inr miss ↦
      let later : suc a ≤ i = ground arith in
      let ih = unprinted-mark i depth st k (suc a) off later (omega (arith, lt)) in
      rw miss (elim (Bool-cases (st.printed a)) [
        | inl on ↦ rw on ih
        | inr no' ↦ rw no' (omega (arith, ih))
      ])
]

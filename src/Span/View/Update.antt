-- ===== src/Span/View/Update.antt =====
-- A change of one event of a span, found by its handle.
use oteltracing_c.Base.{
  ℕ, ◌+◌, ◌≤◌, ◌<◌, ◌≡◌, refl, ◌⊎◌, inl, inr, sym, ◌∙◌, List, [], ◌∷◌, map, arith, subst, ap, false,
}
use oteltracing_c.Base.Tests.{◌==◌, if◌then◌else◌, Bool-cases}
use oteltracing_c.Base.Lists.{length}
use mathlib.Core.List.{map-append}
use oteltracing_c.Span.Chain.{Chain-Seg, Seg, here, step, Seg-map, Chain, empty, ends}
use oteltracing_c.Span.{Arena, nil, span_arena}
use oteltracing_c.Span.View.{EventView, IsEvent, event_records, total_of}

-- `o` is the handle of one of the events.
abbrev pub Handles : ℕ → List EventView → Type 0
Handles o [] = ⊥
Handles o (x ∷ xs) = (x.at ≡ o) ⊎ Handles o xs

abbrev pub on_handle : ℕ → (EventView → EventView) → EventView → EventView
on_handle o f x = if x.at == o then f x else x

-- the events with the one at `o` changed
abbrev pub update_event : ℕ → (EventView → EventView) → List EventView → List EventView
update_event o f xs = map (on_handle o f) xs

pub length-update_event :
    (o : ℕ) (f : EventView → EventView) (xs : List EventView)
    → length (update_event o f xs) ≡ length xs
length-update_event o f [] = refl
length-update_event o f (x ∷ xs) = omega (arith, length-update_event o f xs)

-- the event that a handle names
pub record Found (mem : Arena) (own : ℕ → ℕ) (hi o : ℕ) (xs : List EventView) : Type 0 where
  pub v : EventView
  pub q : ℕ
  pub node : IsEvent mem own hi o v q
  pub bound : length v.attrs + 1 ≤ event_records xs

event_records-update_none :
    (o : ℕ) (f : EventView → EventView) {mem : Arena} {own : ℕ → ℕ} {hi stop p : ℕ}
    {xs : List EventView}
    → Seg (IsEvent mem own hi) stop p xs
    → o < p
    → update_event o f xs ≡ xs
event_records-update_none o f here h = refl
event_records-update_none o f (step {p} {q} {x} n k s) h =
    let miss : (x.at == o) ≡ false = ground (arith, n.handle) in
    rw (miss, event_records-update_none o f s (omega arith))

module _ {mem : Arena} {own : ℕ → ℕ} {hi : ℕ} where
  find_seg :
      {stop p : ℕ} (o : ℕ) {xs : List EventView}
      → Seg (IsEvent mem own hi) stop p xs
      → Handles o xs
      → Found mem own hi o xs
  find_seg o here h = absurd h
  find_seg o (step {p} {q} {x} n k s) (inl e) = record {
    v = x;
    q = q;
    node = subst (λ a. IsEvent mem own hi a x q) (sym n.handle ∙ e) n;
    bound = omega arith;
  }
  find_seg o (step n k s) (inr h) =
      let found = find_seg o s h in
      record { v = found.v; q = found.q; node = found.node; bound = omega (arith, found.bound) }

  pub find_event :
      (o : ℕ) {head tail : ℕ} {xs : List EventView}
      → hi ≤ span_arena
      → Chain (IsEvent mem own hi) head tail xs
      → Handles o xs
      → Found mem own hi o xs
  find_event o within c h = find_seg o (Chain-Seg (λ a x q n. omega (arith, n.region)) c) h

  -- Only one event has the handle.
  total_of-Seg :
      (g : EventView → ℕ) (c o : ℕ) (f : EventView → EventView) {stop p : ℕ} {xs : List EventView}
      → ((x : EventView) → g (f x) ≤ g x + c)
      → Seg (IsEvent mem own hi) stop p xs
      → total_of g (update_event o f xs) ≤ total_of g xs + c
  total_of-Seg g c o f more here = omega arith
  total_of-Seg g c o f more (step {p} {q} {x} {xs} n k s) = elim (Bool-cases (x.at == o)) [
    | inl hit ↦
        let at : o ≡ p = ground (arith, n.handle) in
        rw (hit, event_records-update_none o f s (omega arith)) (omega (arith, more x))
    | inr miss ↦ rw miss (omega (arith, total_of-Seg g c o f more s))
  ]

  pub total_of-update_event :
      (g : EventView → ℕ) (c o : ℕ) (f : EventView → EventView) {head tail : ℕ}
      {xs : List EventView}
      → hi ≤ span_arena
      → ((x : EventView) → g (f x) ≤ g x + c)
      → Chain (IsEvent mem own hi) head tail xs
      → total_of g (update_event o f xs) ≤ total_of g xs + c
  total_of-update_event g c o f within more chain =
      total_of-Seg g c o f more (Chain-Seg (λ a x q n. omega (arith, n.region)) chain)

  pub Chain-update_event :
      {mem' : Arena} {own' : ℕ → ℕ} {hi' : ℕ} (o : ℕ) (f : EventView → EventView) {head tail : ℕ}
      {xs : List EventView}
      → ((p : ℕ) (x : EventView) (q : ℕ)
          → IsEvent mem own hi p x q
          → IsEvent mem' own' hi' p (on_handle o f x) q)
      → Chain (IsEvent mem own hi) head tail xs
      → Chain (IsEvent mem' own' hi') head tail (update_event o f xs)
  Chain-update_event o f keep (empty h t e) = empty h t (ap (update_event o f) e)
  Chain-update_event o f {tail} keep (ends front last e s n) =
      ends (update_event o f front) (on_handle o f last)
        (ap (update_event o f) e ∙ map-append (on_handle o f) front (last ∷ []))
        (Seg-map (on_handle o f) (λ p x q h y. keep p x q y) s) (keep tail last nil n)

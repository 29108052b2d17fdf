-- ===== src/Span/Read/Walk.antt =====
-- The walks visit exactly the records of a list, in order.
use oteltracing_c.Base.{
  ℕ, zero, suc, ◌≤◌, ◌<◌, ◌≡◌, refl, ap, List, [], ◌∷◌, arith, false, subst, sym,
}
use oteltracing_c.Base.Tests.{◌==◌}
use oteltracing_c.Base.Lists.{length}
use oteltracing_c.Span.{Arena, Attr, Event, nil, span_arena}
use oteltracing_c.Span.Chain.{Seg, here, step, Chain, Chain-Seg}
use oteltracing_c.Span.View.{AttrView, EventView, IsAttr, IsEvent, IsText, IsStr, HasValue}
use oteltracing_c.Span.Read.{walk_attrs, walk_events}

-- What a record shows to a reader, whatever comes next.
pub record Shows (mem : Arena) (hi : ℕ) (a : Attr) (v : AttrView) : Type 0 where
  pub key : IsText mem hi a.key v.key
  pub value : HasValue mem hi a v.value

abbrev pub AllShow : Arena → ℕ → List Attr → List AttrView → Type 0
AllShow mem hi [] [] = Unit {0}
AllShow mem hi [] (v ∷ vs) = ⊥
AllShow mem hi (a ∷ xs) [] = ⊥
AllShow mem hi (a ∷ xs) (v ∷ vs) = Shows mem hi a v × AllShow mem hi xs vs

pub length-AllShow :
    (mem : Arena) (hi : ℕ) (xs : List Attr) (vs : List AttrView)
    → AllShow mem hi xs vs
    → length xs ≡ length vs
length-AllShow mem hi [] [] h = refl
length-AllShow mem hi [] (v ∷ vs) h = absurd h
length-AllShow mem hi (a ∷ xs) [] h = absurd h
length-AllShow mem hi (a ∷ xs) (v ∷ vs) h = ap suc (length-AllShow mem hi xs vs h.1)

walk_attrs-Seg :
    {mem : Arena} {own : ℕ → ℕ} {w hi p : ℕ} {vs : List AttrView} (f : ℕ)
    → hi ≤ span_arena
    → length vs < f
    → Seg (IsAttr mem own w hi) nil p vs
    → AllShow mem hi (walk_attrs f mem p) vs
unfolding walk_attrs
walk_attrs-Seg zero within h s = absurd (omega arith)
walk_attrs-Seg (suc f) within h here = tt
walk_attrs-Seg (suc f) within h (step {p} {q} n k s) =
    let more : (p == nil) ≡ false = ground (arith, n.region) in
    rw (more, n.cell, n.next)
      (record { key = n.key; value = n.value }, walk_attrs-Seg f within (omega arith) s)

-- The walk over a list of attributes shows exactly its attributes.
pub walk_attrs-AllShow :
    {mem : Arena} {own : ℕ → ℕ} {w hi head tail : ℕ} {vs : List AttrView} (f : ℕ)
    → hi ≤ span_arena
    → length vs < f
    → Chain (IsAttr mem own w hi) head tail vs
    → AllShow mem hi (walk_attrs f mem head) vs
walk_attrs-AllShow f within h c =
    walk_attrs-Seg f within h (Chain-Seg (λ o x q n. omega (arith, n.region)) c)

pub record ShowsEvent (mem : Arena) (own : ℕ → ℕ) (hi : ℕ) (e : Event) (v : EventView)
    : Type 0 where
  pub name : IsStr mem hi e.name v.name
  pub time : e.time_unix_ns ≡ v.time
  pub dropped : e.dropped_attrs ≡ v.dropped
  pub count : e.num_attrs ≡ length v.attrs
  pub attrs : Chain (IsAttr mem own v.at hi) e.attr_head e.attr_tail v.attrs

abbrev pub AllShowEvents : Arena → (ℕ → ℕ) → ℕ → List Event → List EventView → Type 0
AllShowEvents mem own hi [] [] = Unit {0}
AllShowEvents mem own hi [] (v ∷ vs) = ⊥
AllShowEvents mem own hi (e ∷ es) [] = ⊥
AllShowEvents mem own hi (e ∷ es) (v ∷ vs) =
    ShowsEvent mem own hi e v × AllShowEvents mem own hi es vs

walk_events-Seg :
    {mem : Arena} {own : ℕ → ℕ} {hi p : ℕ} {vs : List EventView} (f : ℕ)
    → hi ≤ span_arena
    → length vs < f
    → Seg (IsEvent mem own hi) nil p vs
    → AllShowEvents mem own hi (walk_events f mem p) vs
unfolding walk_events
walk_events-Seg zero within h s = absurd (omega arith)
walk_events-Seg (suc f) within h here = tt
walk_events-Seg {mem} {own} {hi} (suc f) within h (step {p} {q} {x} n k s) =
    let more : (p == nil) ≡ false = ground (arith, n.region) in
    rw (more, n.cell, n.next)
      (
        record {
          name = n.name;
          time = n.time;
          dropped = n.dropped;
          count = n.count;
          attrs =
              subst (λ o. Chain (IsAttr mem own o hi) n.e.attr_head n.e.attr_tail x.attrs)
                (sym n.handle) n.attrs;
        },
        walk_events-Seg f within (omega arith) s,
      )

-- On an arena whose list of events from head to tail is vs, the walk from head with fuel greater
-- than the length of vs visits exactly as many records as vs has, in order, and each shows the
-- name, time, counts and attributes of its event.
pub walk_events-AllShow :
    {mem : Arena} {own : ℕ → ℕ} {hi head tail : ℕ} {vs : List EventView} (f : ℕ)
    → hi ≤ span_arena
    → length vs < f
    → Chain (IsEvent mem own hi) head tail vs
    → AllShowEvents mem own hi (walk_events f mem head) vs
walk_events-AllShow f within h c =
    walk_events-Seg f within h (Chain-Seg (λ o x q n. omega (arith, n.region)) c)

-- ===== src/Span/View/Append.antt =====
-- Appending a record to a list of attributes that is threaded through the arena.
use oteltracing_c.Base.{
  ℕ, ◌≤◌, ◌<◌, ◌≡◌, refl, ◌⊎◌, inl, inr, Option, some, List, [], ◌∷◌, ◌++◌, arith, ◌∙◌, false, ap,
}
use oteltracing_c.Base.Tests.{◌==◌, if◌then◌else◌}
use oteltracing_c.Span.{Arena, Attr, attr, nil, span_arena, at_attr, Cell}
use oteltracing_c.Span.Chain.{Chain, empty, ends, here, Seg-snoc, Seg-frame}
use oteltracing_c.Span.View.{AttrView, IsAttr}
use oteltracing_c.Span.View.Frame.{Frame, IsAttr-frame, IsText-frame, HasValue-frame}

abbrev pub linked : ℕ → Option Cell → Option Cell
linked r = at_attr (λ a. record a { next = r })

-- the head of a list after `r` was appended
abbrev pub new_head : (head tail r : ℕ) → ℕ
new_head head tail r = if tail == nil then r else head

-- The tail of a list of attributes is OTEL_NIL or belongs to that list.
pub tail-owner :
    {mem : Arena} {own : ℕ → ℕ} {w hi head tail : ℕ} {xs : List AttrView}
    → Chain (IsAttr mem own w hi) head tail xs
    → (tail ≡ nil) ⊎ (own tail ≡ w)
tail-owner (empty h k e) = inl k
tail-owner (ends front last e s n) = inr n.owner

pub tail-attr :
    {mem : Arena} {own : ℕ → ℕ} {w hi head tail : ℕ} {xs : List AttrView}
    → Chain (IsAttr mem own w hi) head tail xs
    → (tail ≡ nil) ⊎ ((a : Attr) × (mem tail ≡ some (attr a)) × (tail < hi))
tail-attr (empty h k e) = inl k
tail-attr (ends front last e s n) = inr (n.a, n.cell, omega (arith, n.region))

module _ {mem mem' : Arena} {own own' : ℕ → ℕ} {hi hi' tail u r : ℕ}
    (f : Frame mem mem' own own' hi hi' tail u)
    (relinked : tail < hi → mem' tail ≡ linked r (mem tail)) where
  IsAttr-relinked :
      {w : ℕ} (v : AttrView) → IsAttr mem own w hi tail v nil → IsAttr mem' own' w hi' tail v r
  IsAttr-relinked v x =
      let h : tail < hi = omega (arith, x.region) in
      record {
        a = record (x.a) { next = r };
        cell = relinked h ∙ ap (linked r) x.cell;
        next = refl;
        owner = f.owners tail h ∙ x.owner;
        region = omega (arith, x.region, f.grow);
        key = IsText-frame f x.key;
        value = HasValue-frame f x.a v.value x.value;
      }

  pub attrs-append :
      {w head : ℕ} {xs : List AttrView} (k : AttrView)
      → hi ≤ span_arena
      → hi ≤ r
      → Chain (IsAttr mem own w hi) head tail xs
      → IsAttr mem' own' w hi' r k nil
      → Chain (IsAttr mem' own' w hi') (new_head head tail r) r (xs ++ (k ∷ []))
  attrs-append k within fresh (empty h t e) n = rw (t, e) (ends [] k refl here n)
  attrs-append {head} k within fresh (ends front last e s n) m =
      let used : tail < hi = omega (arith, n.region) in
      let at_end : (tail == nil) ≡ false = ground arith in
      rw (at_end, e)
        (ends (front ++ (last ∷ [])) k refl
          (Seg-snoc (Seg-frame (λ o v q h x. IsAttr-frame f o v q (omega arith) x) s)
            (IsAttr-relinked last n) (omega arith))
          m)

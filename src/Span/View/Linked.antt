-- ===== src/Span/View/Linked.antt =====
-- A span after a record was appended to its attributes.
use oteltracing_c.Base.{
  ℕ, ◌+◌, ◌*◌, ◌^◌, ◌%◌, ◌≤◌, ◌<◌, ◌≡◌, ◌≢◌, inl, inr, some, List, [], ◌∷◌, ◌++◌, arith, ap,
}
use oteltracing_c.Base.Tests.{◌==◌, if◌then◌else◌}
use oteltracing_c.Base.Lists.{length-append}
use oteltracing_c.Span.{Span, Arena, Attr, attr, nil, span_arena, change}
use oteltracing_c.Span.View.{
  AttrView, SpanView, IsText, HasValue, IsSpan, records, size, attr_size, attrs_size,
}
use oteltracing_c.Span.View.Append.{linked, new_head, tail-owner, attrs-append}
use oteltracing_c.Span.View.Frame.{Frame, IsStr-frame, events-frame}

-- `own`, with the record at `r` in the list `w`
abbrev pub give : (ℕ → ℕ) → ℕ → ℕ → ℕ → ℕ
give own r w o = if o == r then w else own o

abbrev pub add_attr_view : SpanView → AttrView → SpanView
add_attr_view m k = record m { attrs = m.attrs ++ (k ∷ []) }

-- `s` with the record at `r` as its last attribute, and the arena given
abbrev pub with_attr : Span → Arena → ℕ → ℕ → Span
with_attr s mem hi r = record s {
  arena = mem;
  arena_used = hi;
  attr_head = new_head s.attr_head s.attr_tail r;
  attr_tail = r;
  num_attrs = (s.num_attrs + 1) % 2 ^ 16;
}

pub attrs_size-append :
    (xs : List AttrView) (k : AttrView) → attrs_size (xs ++ (k ∷ [])) ≡ attrs_size xs + attr_size k
attrs_size-append [] k = omega arith
attrs_size-append (x ∷ xs) k = omega (arith, attrs_size-append xs k)

-- The record `a` at `r`, which reads as `k`, was put behind what `s` has, and linked.
-- Below the old end only the link of the last attribute may have changed.
pub record Linked (s : Span) (m : SpanView) (mem : Arena) (hi r : ℕ) (a : Attr) (k : AttrView)
    : Type 0 where
  pub below : (o : ℕ) → o < s.arena_used → mem o ≡ change s.arena s.attr_tail (linked r) o
  pub cell : mem r ≡ some (attr a)
  pub next : a.next ≡ nil
  pub fresh : s.arena_used ≤ r
  pub region : r + 16 ≤ hi
  pub within : hi ≤ span_arena
  pub aligned : hi % 8 ≡ 0
  pub key : IsText mem hi a.key k.key
  pub value : HasValue mem hi a k.value
  pub budget : 24 * records m + 24 ≤ hi
  pub weight : size m + attr_size k ≤ hi

module _ {own : ℕ → ℕ} {s : Span} {m : SpanView} (v : IsSpan own s m) {mem : Arena} {hi r : ℕ} where
  Linked-Frame :
      {a : Attr} {k : AttrView}
      → Linked s m mem hi r a k
      → Frame s.arena mem own (give own r nil) s.arena_used hi s.attr_tail nil
  Linked-Frame l = record {
    grow = omega (arith, l.fresh, l.region);
    texts = λ o bs h e. ground (arith, l.below o h);
    attrs = λ o b h ne e. ground (arith, l.below o h);
    events = λ o x h ne e. ground (arith, l.below o h);
    owners = λ o h. ground (arith, l.fresh);
  }

  pub IsSpan-with_attr :
      {a : Attr} {k : AttrView}
      → Linked s m mem hi r a k
      → IsSpan (give own r nil) (with_attr s mem hi r) (add_attr_view m k)
  IsSpan-with_attr {a} {k} l =
      let f = Linked-Frame l in
      record {
        aligned = record { within = l.within; aligned = l.aligned };
        name = IsStr-frame f v.name;
        message = IsStr-frame f v.message;
        attrs =
            attrs-append f (λ h. ground (arith, l.below s.attr_tail h)) k v.aligned.within l.fresh
              v.attrs
              (record {
                a = a;
                cell = l.cell;
                next = l.next;
                owner = ground arith;
                region = l.region;
                key = l.key;
                value = l.value;
              });
        events = events-frame f (λ o h. omega (arith, v.aligned.within)) apart v.events;
        num_attrs =
            omega (arith, v.num_attrs, v.budget, v.aligned.within, length-append m.attrs (k ∷ []));
        num_events = v.num_events;
        budget = omega (arith, l.budget, length-append m.attrs (k ∷ []));
        weight = omega (arith, l.weight, attrs_size-append m.attrs k);
      }
    where
      apart : (o p : ℕ) → o < s.arena_used → p < s.arena_used → own p ≡ o → p ≢ s.attr_tail
      apart o p ho hp e = elim (tail-owner v.attrs) [
        | inl gone ↦ omega (arith, v.aligned.within)
        | inr mine ↦ λ same. omega (arith, e, mine, ap own same, v.aligned.within)
      ]

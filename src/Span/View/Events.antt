-- ===== src/Span/View/Events.antt =====
-- A span after a record was appended to its events.
use oteltracing_c.Base.{
  ℕ, ◌+◌, ◌^◌, ◌%◌, ◌≤◌, ◌<◌, ◌≡◌, refl, ◌≢◌, ap, ◌∙◌, Option, some, List, [], ◌∷◌, ◌++◌, arith,
  false,
}
use oteltracing_c.Base.Tests.{◌==◌}
use oteltracing_c.Base.Lists.{length, length-append}
use oteltracing_c.Span.{Span, Arena, Cell, Event, event, nil, span_arena, at_event, change}
use oteltracing_c.Span.Chain.{Chain, empty, ends, here, Seg-snoc, Seg-frame}
use oteltracing_c.Span.View.{
  EventView, SpanView, IsEvent, IsStr, IsSpan, event_records, total_of, size, event_size,
}
use oteltracing_c.Span.View.Append.{new_head}
use oteltracing_c.Span.View.Frame.{Frame, IsStr-frame, attrs-frame, IsEvent-frame}

-- the tail of a list of events
pub event_tail_in :
    {mem : Arena} {own : ℕ → ℕ} {hi head tail : ℕ} {xs : List EventView}
    → Chain (IsEvent mem own hi) head tail xs
    → tail ≢ nil
    → tail < hi
event_tail_in (empty h k e) ne = absurd (ne k)
event_tail_in (ends front last e s n) ne = omega (arith, n.region)

abbrev pub linked_event : ℕ → Option Cell → Option Cell
linked_event r = at_event (λ e. record e { next = r })

low : (own : ℕ → ℕ) {hi : ℕ} → hi ≤ span_arena → (o p : ℕ) → p < hi → own p ≡ o → p ≢ nil
low own within o p h e = omega arith

module _ {mem mem' : Arena} {own : ℕ → ℕ} {hi hi' tail r : ℕ}
    (f : Frame mem mem' own own hi hi' nil tail) (within : hi ≤ span_arena)
    (relinked : tail < hi → mem' tail ≡ linked_event r (mem tail)) where
  IsEvent-relinked : (v : EventView) → IsEvent mem own hi tail v nil → IsEvent mem' own hi' tail v r
  IsEvent-relinked v x =
      let h : tail < hi = omega (arith, x.region) in
      record {
        e = record (x.e) { next = r };
        cell = relinked h ∙ ap (linked_event r) x.cell;
        next = refl;
        handle = x.handle;
        region = omega (arith, x.region, f.grow);
        name = IsStr-frame f x.name;
        time = x.time;
        dropped = x.dropped;
        count = x.count;
        attrs = attrs-frame f (low own within tail) x.attrs;
      }

  pub events-append :
      {head : ℕ} {xs : List EventView} (k : EventView)
      → hi ≤ r
      → Chain (IsEvent mem own hi) head tail xs
      → IsEvent mem' own hi' r k nil
      → Chain (IsEvent mem' own hi') (new_head head tail r) r (xs ++ (k ∷ []))
  events-append k fresh (empty h t e) n = rw (t, e) (ends [] k refl here n)
  events-append {head} k fresh (ends front last e s n) m =
      let used : tail < hi = omega (arith, n.region) in
      let at_end : (tail == nil) ≡ false = ground arith in
      rw (at_end, e)
        (ends (front ++ (last ∷ [])) k refl
          (Seg-snoc
            (Seg-frame (λ o v q h x. IsEvent-frame f o v q (omega arith) (low own within o) x) s)
            (IsEvent-relinked last n) (omega arith))
          m)

total_of-append :
    (g : EventView → ℕ) (xs : List EventView) (k : EventView)
    → total_of g (xs ++ (k ∷ [])) ≡ total_of g xs + g k
total_of-append g [] k = omega arith
total_of-append g (x ∷ xs) k = omega (arith, total_of-append g xs k)

pub length-le-event_records : (xs : List EventView) → length xs ≤ event_records xs
length-le-event_records [] = omega arith
length-le-event_records (x ∷ xs) = omega (arith, length-le-event_records xs)

-- `s` with the record at `r` as its last event, and the arena given
abbrev pub with_event : Span → Arena → ℕ → ℕ → Span
with_event s mem hi r = record s {
  arena = mem;
  arena_used = hi;
  event_head = new_head s.event_head s.event_tail r;
  event_tail = r;
  num_events = (s.num_events + 1) % 2 ^ 16;
}

-- The record `e` at `r` was put behind what `s` has, and linked.
pub record LinkedEvent (s : Span) (m : SpanView) (mem : Arena) (hi r : ℕ) (e : Event) (bs : List ℕ)
    : Type 0 where
  pub below : (o : ℕ) → o < s.arena_used → mem o ≡ change s.arena s.event_tail (linked_event r) o
  pub cell : mem r ≡ some (event e)
  pub next : e.next ≡ nil
  pub bare : (e.attr_head ≡ nil) × (e.attr_tail ≡ nil) × (e.num_attrs ≡ 0) × (e.dropped_attrs ≡ 0)
  pub fresh : s.arena_used ≤ r
  pub region : r + 24 ≤ hi
  pub within : hi ≤ span_arena
  pub aligned : hi % 8 ≡ 0
  pub name : IsStr s.arena s.arena_used e.name bs
  pub weight : size m + length bs + 24 ≤ hi

abbrev pub bare_event : ℕ → List ℕ → ℕ → EventView
bare_event r bs now = record { at = r; name = bs; time = now; dropped = 0; attrs = [] }

abbrev pub add_event_view : SpanView → EventView → SpanView
add_event_view m k = record m { events = m.events ++ (k ∷ []) }

pub IsSpan-with_event :
    {own : ℕ → ℕ} {s : Span} {m : SpanView} {mem : Arena} {hi r : ℕ} {e : Event} {bs : List ℕ}
    → IsSpan own s m
    → LinkedEvent s m mem hi r e bs
    → IsSpan own (with_event s mem hi r) (add_event_view m (bare_event r bs e.time_unix_ns))
IsSpan-with_event {own} {s} {m} {mem} {hi} {r} {e} {bs} v l = record {
  aligned = record { within = l.within; aligned = l.aligned };
  name = IsStr-frame f v.name;
  message = IsStr-frame f v.message;
  attrs = attrs-frame f (λ o h k. omega (arith, v.aligned.within)) v.attrs;
  events =
      events-append f v.aligned.within (λ h. ground (arith, l.below s.event_tail h)) k l.fresh
        v.events
        (record {
          e = e;
          cell = l.cell;
          next = l.next;
          handle = refl;
          region = l.region;
          name = IsStr-frame f l.name;
          time = refl;
          dropped = l.bare.3;
          count = l.bare.2;
          attrs = empty l.bare.0 l.bare.1 refl;
        });
  num_attrs = v.num_attrs;
  num_events = omega (
    arith,
    v.num_events,
    v.budget,
    v.aligned.within,
    length-append m.events (k ∷ []),
    length-le-event_records m.events,
  );
  budget =
      omega
        (arith, v.budget, l.fresh, l.region, total_of-append (λ e. 1 + length e.attrs) m.events k);
  weight = omega (arith, l.weight, total_of-append event_size m.events k);
}
  where
    k : EventView
    k = bare_event r bs e.time_unix_ns

    f : Frame s.arena mem own own s.arena_used hi nil s.event_tail
    f = record {
      grow = omega (arith, l.fresh, l.region);
      texts = λ o bs h e. ground (arith, l.below o h);
      attrs = λ o b h ne e. ground (arith, l.below o h);
      events = λ o x h ne e. ground (arith, l.below o h);
      owners = λ o h. refl;
    }

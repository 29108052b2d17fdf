-- ===== src/Span/View/EventAttrs.antt =====
-- A span after a record was appended to the attributes of one of its events.
use oteltracing_c.Base.{
  ℕ, ◌+◌, ◌*◌, ◌%◌, ◌≤◌, ◌<◌, ◌≡◌, ◌≢◌, inl, inr, ap, ◌∙◌, sym, some, [], ◌∷◌, ◌++◌, arith, ◌⊎◌,
  subst,
}
use oteltracing_c.Base.Tests.{◌==◌, Bool-cases}
use oteltracing_c.Base.Lists.{length, length-append}
use oteltracing_c.Span.{Span, Arena, Attr, Event, attr, event, nil, span_arena, change}
use oteltracing_c.Span.View.{
  AttrView, EventView, SpanView, IsEvent, IsText, HasValue, IsSpan, records, size, attr_size,
  event_size,
}
use oteltracing_c.Span.View.Append.{linked, new_head, tail-owner, attrs-append, tail-attr}
use oteltracing_c.Span.View.Linked.{give, attrs_size-append}
use oteltracing_c.Span.View.Frame.{Frame, IsStr-frame, attrs-frame, IsEvent-frame}
use oteltracing_c.Span.View.Update.{
  Handles, on_handle, update_event, length-update_event, Found, find_event, total_of-update_event,
  Chain-update_event,
}

-- the record of an event after `r` was appended to its attributes
abbrev pub event_with : Event → ℕ → Event
event_with e r = record e {
  attr_head = new_head e.attr_head e.attr_tail r;
  attr_tail = r;
  num_attrs = (e.num_attrs + 1) % 256;
}

abbrev pub add_to_event : AttrView → EventView → EventView
add_to_event k x = record x { attrs = x.attrs ++ (k ∷ []) }

abbrev pub add_event_attr_view : SpanView → ℕ → AttrView → SpanView
add_event_attr_view m o k = record m { events = update_event o (add_to_event k) m.events }

-- The record `a` at `r` was put behind what `s` has, and linked to the event `e` at `o`.
pub record LinkedTo (s : Span) (m : SpanView) (o : ℕ) (e : Event) (mem : Arena) (hi r : ℕ)
    (a : Attr) (k : AttrView) : Type 0 where
  pub old : s.arena o ≡ some (event e)
  pub new : mem o ≡ some (event (event_with e r))
  pub below : (p : ℕ) → p < s.arena_used → p ≢ o → mem p ≡ change s.arena e.attr_tail (linked r) p
  pub cell : mem r ≡ some (attr a)
  pub next : a.next ≡ nil
  pub fresh : s.arena_used ≤ r
  pub region : r + 16 ≤ hi
  pub within : hi ≤ span_arena
  pub aligned : hi % 8 ≡ 0
  pub key : IsText mem hi a.key k.key
  pub value : HasValue mem hi a k.value
  pub budget : 24 * records m + 24 ≤ hi
  pub weight : size m + attr_size k ≤ hi

module _ {own : ℕ → ℕ} {s : Span} {m : SpanView} (v : IsSpan own s m) {mem : Arena} {hi r o : ℕ}
    {e : Event} {a : Attr} {k : AttrView} (known : Handles o m.events)
    (l : LinkedTo s m o e mem hi r a k) where
  found : Found s.arena own s.arena_used o m.events
  found = find_event o v.aligned.within v.events known

  same_event : found.node.e ≡ e
  same_event = cc (found.node.cell, l.old)

  own-tail : (e.attr_tail ≡ nil) ⊎ (own e.attr_tail ≡ o)
  own-tail = rw (← same_event) (tail-owner found.node.attrs)

  LinkedTo-Frame : Frame s.arena mem own (give own r o) s.arena_used hi e.attr_tail o
  LinkedTo-Frame = record {
    grow = omega (arith, l.fresh, l.region);
    texts = λ p bs h x. ground (arith, l.below p h, l.old);
    attrs = λ p b h ne x. ground (arith, l.below p h, l.old);
    events = λ p x h ne y. ground (arith, l.below p h);
    owners = λ p h. ground (arith, l.fresh);
  }

  o-lt : o < s.arena_used
  o-lt = omega (arith, found.node.region)

  apart : (w p : ℕ) → w ≢ o → p < s.arena_used → own p ≡ w → p ≢ e.attr_tail
  apart w p ne h x = elim own-tail [
    | inl gone ↦ omega (arith, v.aligned.within)
    | inr mine ↦ λ same. ne (sym x ∙ ap own same ∙ mine)
  ]

  -- the tail of the attributes is no event
  old_tail : e.attr_tail ≢ o
  old_tail =
      let tails : (e.attr_tail ≡ nil)
          ⊎ ((a : Attr) × (s.arena e.attr_tail ≡ some (attr a)) × (e.attr_tail < s.arena_used)) =
        rw (← same_event) (tail-attr found.node.attrs) in
      elim tails [
        | inl gone ↦ omega (arith, o-lt, v.aligned.within)
        | inr (b, is, h) ↦ λ same. cc (is, l.old, same)
      ]

  few : e.num_attrs + 1 < 256
  few =
      let n : e.num_attrs ≡ length found.v.attrs =
        ap (λ (t : Event). t.num_attrs) (sym same_event) ∙ found.node.count in
      omega (arith, n, found.bound, v.budget, v.aligned.within)

  -- the event that got the attribute
  IsEvent-linked :
      (x : EventView) (q : ℕ)
      → IsEvent s.arena own s.arena_used o x q
      → IsEvent mem (give own r o) hi o (add_to_event k x) q
  IsEvent-linked x q n =
      let f = LinkedTo-Frame in
      let same : n.e ≡ e = cc (n.cell, l.old) in
      let count : e.num_attrs ≡ length x.attrs =
        ap (λ (t : Event). t.num_attrs) (sym same) ∙ n.count in
      record {
        e = event_with e r;
        cell = l.new;
        next = ap (λ (t : Event). t.next) (sym same) ∙ n.next;
        handle = n.handle;
        region = omega (arith, n.region, l.fresh, l.region);
        name = IsStr-frame f (rw (← same) n.name);
        time = ap (λ (t : Event). t.time_unix_ns) (sym same) ∙ n.time;
        dropped = ap (λ (t : Event). t.dropped_attrs) (sym same) ∙ n.dropped;
        count = omega (arith, count, few, length-append x.attrs (k ∷ []));
        attrs =
            attrs-append f (λ h. ground (arith, l.below e.attr_tail h, old_tail)) k v.aligned.within
              l.fresh (rw (← same) n.attrs)
              (record {
                a = a;
                cell = l.cell;
                next = l.next;
                owner = ground arith;
                region = l.region;
                key = l.key;
                value = l.value;
              });
      }

  keep :
      (p : ℕ) (x : EventView) (q : ℕ)
      → IsEvent s.arena own s.arena_used p x q
      → IsEvent mem (give own r o) hi p (on_handle o (add_to_event k) x) q
  keep p x q n = elim (Bool-cases (x.at == o)) [
    | inl hit ↦
        let at : o ≡ p = ground (arith, n.handle) in
        rw hit (
          subst (λ z. IsEvent mem (give own r o) hi z (add_to_event k x) q) at
            (IsEvent-linked x q (subst (λ z. IsEvent s.arena own s.arena_used z x q) (sym at) n)))
    | inr miss ↦
        let ne : p ≢ o = ground (arith, n.handle) in
        rw miss (IsEvent-frame LinkedTo-Frame p x q ne (λ z h w. apart p z ne h w) n)
  ]

  -- Only the attributes of that event change.
  pub IsSpan-with_event_attr :
      (s' : Span)
      → s' ≡ record s { arena = mem; arena_used = hi }
      → IsSpan (give own r o) s' (add_event_attr_view m o k)
  IsSpan-with_event_attr s' shape =
      let f = LinkedTo-Frame in
      rw shape (record {
        aligned = record { within = l.within; aligned = l.aligned };
        name = IsStr-frame f v.name;
        message = IsStr-frame f v.message;
        attrs =
            attrs-frame f (λ p h w. apart nil p (omega (arith, o-lt, v.aligned.within)) h w)
              v.attrs;
        events = Chain-update_event o (add_to_event k) keep v.events;
        num_attrs = v.num_attrs;
        num_events = v.num_events ∙ sym (length-update_event o (add_to_event k) m.events);
        budget = omega (
          arith,
          l.budget,
          total_of-update_event (λ e. 1 + length e.attrs) 1 o (add_to_event k) v.aligned.within
              (λ x. omega (arith, length-append x.attrs (k ∷ []))) v.events,
        );
        weight = omega (
          arith,
          l.weight,
          total_of-update_event event_size (attr_size k) o (add_to_event k) v.aligned.within
              (λ x. omega (arith, attrs_size-append x.attrs k)) v.events,
        );
      })

-- ===== src/Span/Events/Attrs.antt =====
-- The setters of event attributes append to the attributes of the event that the handle names.
use oteltracing_c.Base.{
  ℕ, ◌+◌, ◌^◌, ◌%◌, ◌≤◌, ◌<◌, ◌≡◌, refl, ◌≢◌, inl, inr, ◌∙◌, some, List, [], Bool, false, arith, ap,
  ◌⊎◌,
}
use oteltracing_c.Base.Tests.{Bool-cases, ◌==◌, if◌then◌else◌, ltb, lt→ltb}
use oteltracing_c.Base.Int.{ℤ}
use oteltracing_c.Base.Lists.{length, take, strlen, strlen-le-length, c_string, c_string_idem}
use oteltracing_c.Span.{
  Span, Arena, Attr, Event, Num, signed, unsigned, int, text, attr, event, nil, span_arena, at_attr,
  at_event, change, write,
}
use oteltracing_c.Span.Read.{event_of}
use oteltracing_c.Span.AttrType
use oteltracing_c.Span.Memory.{change_attr, change_event, change_ne, write_ne}
use oteltracing_c.Span.Arena.Alloc.{rounded, IsAligned}
use oteltracing_c.Span.View.{
  SpanView, AttrView, Value, str, i64, u64, bool, IsSpan, HasValue, value_size, absent, present,
}
use oteltracing_c.Span.View.Append.{linked, tail-attr}
use oteltracing_c.Span.View.Linked.{give}
use oteltracing_c.Span.View.Update.{Handles, Found, find_event}
use oteltracing_c.Span.View.EventAttrs.{
  LinkedTo, IsSpan-with_event_attr, event_with, add_event_attr_view,
}
use oteltracing_c.Span.View.Grow.{Stored, stored, refused, put_cases, putn_cases}
use oteltracing_c.Span.Attrs.{fill_num, blank, set_val, set_type}
use oteltracing_c.Span.Attrs.Room.{AttrFits, made, failed, alloc_attr_cases, after_key, with_blank}
use oteltracing_c.Span.Events.{
  event_attr, link_event_attr, link_to_event, event_attr_i64, event_attr_u64, event_attr_bool,
  event_attr_str, event_attr_strn,
}

-- the stores of `otel_event_attr_` that link the record at `r` to the event at `o`
abbrev pub link_mem : Arena → ℕ → ℕ → ℕ → Arena
link_mem mem o tail r =
    change
      (if tail == nil
        then change mem o (at_event (λ e. record e { attr_head = r }))
        else change mem tail (linked r))
      o (at_event (λ e. record e { attr_tail = r; num_attrs = (e.num_attrs + 1) % 256 }))

link_event_attr_lem :
    (s : Span) (o r : ℕ) {e : Event}
    → s.arena o ≡ some (event e)
    → link_event_attr s o r ≡ record s { arena = link_mem s.arena o e.attr_tail r }
unfolding link_event_attr
link_event_attr_lem s o r e = ap (λ c. link_to_event s o r (event_of c)) e ∙ ground arith

module _ {own : ℕ → ℕ} {s : Span} {m : SpanView} (v : IsSpan own s m) (key : List ℕ) (o : ℕ)
    (known : Handles o m.events) (room : AttrFits s key) where
  abbrev there : Found s.arena own s.arena_used o m.events
  there = find_event o v.aligned.within v.events known

  -- the event as it was
  abbrev old : Event
  old = there.node.e

  abbrev record_at : ℕ
  record_at = after_key s key

  abbrev linked_mem : Arena
  linked_mem = link_mem (with_blank s key).arena o old.attr_tail record_at

  o-lt : o < s.arena_used
  o-lt = omega (arith, there.node.region)

  -- `otel_event_attr_` when key and record fit
  event_attr_made :
      event_attr s (some o) (some key)
      ≡ (record s { arena = linked_mem; arena_used = record_at + 16 }, some record_at)
  unfolding event_attr
  event_attr_made = elim (alloc_attr_cases v key (omega arith)) [
    | made h e ↦
        let cell : (with_blank s key).arena o ≡ some (event old) =
          ground (arith, o-lt, there.node.cell) in
        rw (e, link_event_attr_lem (with_blank s key) o record_at cell)
    | failed s' h e k ↦ absurd (omega arith)
  ]

  -- facts on the old list of attributes of the event
  old_tail :
      (old.attr_tail ≡ nil)
      ⊎ ((a : Attr) × (s.arena old.attr_tail ≡ some (attr a)) × (old.attr_tail < s.arena_used))
  old_tail = tail-attr there.node.attrs

  old_tail-ne : old.attr_tail ≢ o
  old_tail-ne = elim old_tail [
    | inl gone ↦ omega (arith, o-lt, v.aligned.within)
    | inr (a, is, h) ↦ λ same. cc (is, there.node.cell, same)
  ]

  linked-event : linked_mem o ≡ some (event (event_with old record_at))
  linked-event =
      let mem = (with_blank s key).arena in
      let is : mem o ≡ some (event old) = ground (arith, o-lt, there.node.cell) in
      elim (Bool-cases (old.attr_tail == nil)) [
        | inl first ↦ rw first (
            change_event (change mem o (at_event (λ e. record e { attr_head = record_at }))) o _
              (change_event mem o _ is))
        | inr more ↦ rw more (
            change_event (change mem old.attr_tail (linked record_at)) o _
              (change_ne mem old.attr_tail o (linked record_at) old_tail-ne ∙ is))
      ]

  linked-below :
      (p : ℕ)
      → p < s.arena_used
      → p ≢ o
      → linked_mem p ≡ change s.arena old.attr_tail (linked record_at) p
  linked-below p h ne = ground arith

  linked-new : (p : ℕ) → s.arena_used ≤ p → p < nil → linked_mem p ≡ (with_blank s key).arena p
  linked-new p h k = elim old_tail [
    | inl gone ↦ ground (arith, o-lt)
    | inr (a, is, used) ↦ ground (arith, o-lt)
  ]

  -- What a setter leaves: the record is the attribute `k`, in the arena `mem` up to `hi`.
  filled :
      (mem : Arena) (hi : ℕ) (a : Attr) (k : AttrView)
      → ((p : ℕ) → p < record_at → mem p ≡ linked_mem p)
      → mem record_at ≡ some (attr a)
      → (a.next ≡ nil) × (a.key ≡ s.arena_used)
      → record_at + 16 + value_size k.value ≤ hi
      → (hi ≤ span_arena) × (hi % 8 ≡ 0)
      → c_string key ≡ k.key
      → HasValue mem hi a k.value
      → LinkedTo s m o old mem hi record_at a k
  filled mem hi a k same cell at grown fit name value = record {
    old = there.node.cell;
    new = same o (omega (arith, o-lt)) ∙ linked-event;
    below = λ p h ne. same p (omega arith) ∙ linked-below p h ne;
    cell = cell;
    next = at.0;
    fresh = omega arith;
    region = omega (arith, grown);
    within = fit.0;
    aligned = fit.1;
    key = record {
      raw = c_string key;
      cell = rw at.1 (
          same s.arena_used (omega arith)
          ∙ linked-new s.arena_used (omega arith) (omega (arith, v.aligned.within))
          ∙ ground arith);
      shown = c_string_idem key ∙ name;
      region = rw at.1 (omega arith);
    };
    value = value;
    budget = omega (arith, v.budget);
    weight = omega (arith, v.weight, grown, ap length name);
  }

  linked-record : linked_mem record_at ≡ some (attr (blank s.arena_used))
  linked-record = linked-new record_at (omega arith) (omega arith) ∙ ground arith

  -- the view of the new attribute
  abbrev attr_view : Value → AttrView
  attr_view x = record { key = c_string key; value = x }

  abbrev after : Value → SpanView
  after x = add_event_attr_view m o (attr_view x)

  appended :
      {s' : Span} {mem : Arena} {hi : ℕ} {a : Attr} (x : Value)
      → s' ≡ record s { arena = mem; arena_used = hi }
      → LinkedTo s m o old mem hi record_at a (attr_view x)
      → IsSpan (give own record_at o) s' (after x)
  appended {s'} x e l = IsSpan-with_event_attr v known l s' e

  abbrev num_attr : ℕ → Num → Attr
  num_attr t n = record (blank s.arena_used) { type = t; v = n }

  num-append :
      (t : ℕ) (n : Num) (x : Value)
      → ((mem : Arena) (hi : ℕ) → HasValue mem hi (num_attr t n) x)
      → value_size x ≡ 0
      → IsSpan (give own record_at o) (fill_num (event_attr s (some o) (some key)) t n) (after x)
  num-append t n x value nothing =
      let mem = change linked_mem record_at (at_attr (λ a. record a { type = t; v = n })) in
      appended {mem = mem} x (rw event_attr_made) (
        filled mem (record_at + 16) (num_attr t n) (attr_view x) (λ o h. ground arith)
          (change_attr linked_mem record_at (λ a. record a { type = t; v = n }) linked-record)
          (refl, refl) (omega (arith, nothing)) (omega (arith, v.aligned.aligned)) refl
          (value mem _))

  -- If a span holds m, o is the handle of one of its events, and key and record fit into the
  -- arena, then event_attr_i64, event_attr_u64 and event_attr_bool append to the attributes of
  -- that event one with the key and the value given; all else that the span holds is as before.
  pub event_attr_nums-append :
      (i : ℤ) (n : ℕ) (b : Bool)
      → IsSpan (give own record_at o) (event_attr_i64 s (some o) (some key) i) (after (i64 i))
        × IsSpan (give own record_at o) (event_attr_u64 s (some o) (some key) n) (after (u64 n))
        × IsSpan
            (give own record_at o)
            (event_attr_bool s (some o) (some key) b)
            (after (bool (if b then 1 else 0)))
  unfolding event_attr_i64 event_attr_u64 event_attr_bool
  event_attr_nums-append i n b = (
    num-append AttrType.i64 (signed i) (i64 i) (λ mem hi. (refl, refl)) refl,
    num-append AttrType.u64 (unsigned n) (u64 n) (λ mem hi. (refl, refl)) refl,
    num-append AttrType.bool (int (if b then 1 else 0)) (bool (if b then 1 else 0))
        (λ mem hi. (refl, refl)) refl,
  )

  -- the span in which the value of a string attribute is stored
  abbrev before_value : Span
  before_value = set_type (event_attr s (some o) (some key)).0 record_at AttrType.str

  abbrev typed_mem : Arena
  typed_mem = change linked_mem record_at (at_attr (λ a. record a { type = AttrType.str }))

  typed-record : typed_mem record_at ≡ some (attr (blank s.arena_used))
  typed-record =
      change_attr linked_mem record_at (λ a. record a { type = AttrType.str }) linked-record

  abbrev str_attr : ℕ → Attr
  str_attr off = record (blank s.arena_used) { val = off }

  -- the string that the setter keeps of `raw`: all of it, or none
  abbrev kept : List ℕ → List ℕ
  kept raw = if ltb span_arena (record_at + 16 + rounded (length raw + 1)) then [] else c_string raw

  text-append :
      {raw : List ℕ} {r : Span × ℕ}
      → Stored before_value raw r
      → IsSpan (give own record_at o) (set_val r.0 record_at r.1) (after (str (kept raw)))
  text-append {raw} (stored fits e) =
      let used : before_value.arena_used ≡ record_at + 16 = rw event_attr_made in
      let off = record_at + 16 in
      let hi = off + rounded (length raw + 1) in
      let inside : hi ≤ span_arena = rw (← used) fits in
      let mem =
        change (write typed_mem off (text raw)) record_at (at_attr (λ a. record a { val = off })) in
      let whole : ltb span_arena hi ≡ false = ground arith in
      rw whole (
        appended {mem = mem} (str (c_string raw)) (rw (e, event_attr_made)) (
          filled mem hi (str_attr off) (attr_view (str (c_string raw))) (λ p h. ground arith)
            (change_attr (write typed_mem off (text raw)) record_at (λ a. record a { val = off })
              (write_ne typed_mem off record_at (text raw) (omega arith) ∙ typed-record))
            (refl, refl) (omega (arith, strlen-le-length raw))
            (inside, omega (arith, v.aligned.aligned)) refl
            (
              refl,
              present
                  (record { raw = raw; cell = ground arith; shown = refl; region = omega arith }),
            )))
  text-append {raw} (refused full e) =
      let used : before_value.arena_used ≡ record_at + 16 = rw event_attr_made in
      let over : span_arena < record_at + 16 + rounded (length raw + 1) = rw (← used) full in
      let mem = change typed_mem record_at (at_attr (λ a. record a { val = nil })) in
      rw (lt→ltb _ _ over) (
        appended {mem = mem} (str []) (rw (e, event_attr_made)) (
          filled mem (record_at + 16) (str_attr nil) (attr_view (str [])) (λ p h. ground arith)
            (change_attr typed_mem record_at (λ a. record a { val = nil }) typed-record)
            (refl, refl) (omega arith) (room, omega (arith, v.aligned.aligned)) refl
            (refl, absent refl refl)))

  before_value-IsAligned : IsAligned before_value
  before_value-IsAligned =
      rw event_attr_made (record { within = room; aligned = omega (arith, v.aligned.aligned) })

  -- If a span holds m, o is the handle of one of its events, and key and record fit into the
  -- arena, then event_attr_str and event_attr_strn (of a value and of a length no greater than it,
  -- both below 2^62) append to the attributes of that event one with the key and the stored value,
  -- which is "" when the value no longer fits; all else that the span holds is as before.
  pub event_attr_texts-append :
      (value : List ℕ) (len : ℕ)
      → len ≤ length value
      → strlen value < 2 ^ 62
      → len < 2 ^ 62
      → IsSpan
          (give own record_at o)
          (event_attr_str s (some o) (some key) (some value))
          (after (str (kept (c_string value))))
        × IsSpan
            (give own record_at o)
            (event_attr_strn s (some o) (some key) (some value) len)
            (after (str (kept (take len value))))
  unfolding event_attr_str event_attr_strn
  event_attr_texts-append value len h small few = (
    rw event_attr_made
        (rw event_attr_made at (text-append (put_cases value before_value-IsAligned small))),
    rw event_attr_made
        (rw event_attr_made at (text-append (putn_cases value len before_value-IsAligned h few))),
  )

-- ===== src/Span/Attrs/Append.antt =====
-- The attribute setters append to the span's attributes.
use oteltracing_c.Base.{
  ℕ, ◌+◌, ◌^◌, ◌%◌, ◌≤◌, ◌<◌, ◌≡◌, refl, ◌≢◌, some, List, Bool, true, false, arith, ap, ◌∙◌, [],
}
use oteltracing_c.Base.Tests.{◌==◌, if◌then◌else◌, ltb, lt→ltb}
use oteltracing_c.Base.Int.{ℤ}
use oteltracing_c.Base.Lists.{length, take, strlen, strlen-le-length, c_string, c_string_idem}
use oteltracing_c.Span.{
  Span, Arena, Attr, Num, signed, unsigned, int, text, attr, nil, span_arena, at_attr, change,
  recording, write,
}
use oteltracing_c.Span.Memory.{change_attr, write_ne}
use oteltracing_c.Span.AttrType
use oteltracing_c.Span.Arena.Alloc.{rounded, IsAligned}
use oteltracing_c.Span.Chain.{Chain, empty, ends}
use oteltracing_c.Span.View.{
  absent, present, SpanView, AttrView, Value, str, i64, u64, bool, IsAttr, IsSpan, HasValue,
  value_size,
}
use oteltracing_c.Span.View.Append.{linked}
use oteltracing_c.Span.View.Linked.{Linked, IsSpan-with_attr, with_attr, add_attr_view, give}
use oteltracing_c.Span.View.Grow.{Stored, stored, refused, put_cases, putn_cases}
use oteltracing_c.Span.Attrs.{
  span_attr, link_attr, fill_num, span_attr_i64, span_attr_u64, span_attr_bool, span_attr_str,
  span_attr_strn, blank, set_val, set_type,
}
use oteltracing_c.Span.Attrs.Room.{AttrFits, made, failed, alloc_attr_cases, after_key, with_blank}

-- `a->next = r` of the last attribute, if there is one
abbrev pub relink : Arena → ℕ → ℕ → Arena
relink mem tail r = if tail == nil then mem else change mem tail (linked r)

tail_in :
    {mem : Arena} {own : ℕ → ℕ} {w hi head tail : ℕ} {xs : List AttrView}
    → Chain (IsAttr mem own w hi) head tail xs
    → tail ≢ nil
    → tail < hi
tail_in (empty h k e) ne = absurd (ne k)
tail_in (ends front last e s n) ne = omega (arith, n.region)

module _ {own : ℕ → ℕ} {s : Span} {m : SpanView} (v : IsSpan own s m) (key : List ℕ)
    (live : recording s ≡ true) (room : AttrFits s key) where
  abbrev record_at : ℕ
  record_at = after_key s key

  abbrev linked_mem : Arena
  linked_mem = relink (with_blank s key).arena s.attr_tail record_at

  -- `otel_span_attr_` when key and record fit
  span_attr_made :
      span_attr s (some key) ≡ (with_attr s linked_mem (record_at + 16) record_at, some record_at)
  unfolding span_attr link_attr
  span_attr_made = elim (alloc_attr_cases v key (omega arith)) [
    | made h e ↦ rw (e, live) (ground arith)
    | failed s' h e k ↦ absurd (omega arith)
  ]

  -- What a setter leaves: the record is the attribute `k`, in the arena `mem` up to `hi`.
  filled :
      (mem : Arena) (hi : ℕ) (a : Attr) (k : AttrView)
      → ((o : ℕ) → o < record_at → mem o ≡ linked_mem o)
      → mem record_at ≡ some (attr a)
      → (a.next ≡ nil) × (a.key ≡ s.arena_used)
      → record_at + 16 + value_size k.value ≤ hi
      → (hi ≤ span_arena) × (hi % 8 ≡ 0)
      → c_string key ≡ k.key
      → HasValue mem hi a k.value
      → Linked s m mem hi record_at a k
  filled mem hi a k same cell at grown fit name value = record {
    below = λ o h. ground (arith, same o);
    cell = cell;
    next = at.0;
    fresh = omega arith;
    region = omega (arith, grown);
    within = fit.0;
    aligned = fit.1;
    key = record {
      raw = c_string key;
      cell = rw at.1 (ground (arith, same s.arena_used, tail_in v.attrs, v.aligned.within));
      shown = c_string_idem key ∙ name;
      region = rw at.1 (omega arith);
    };
    value = value;
    budget = omega (arith, v.budget);
    weight = omega (arith, v.weight, grown, ap length name);
  }

  -- the view of the new attribute
  abbrev attr_view : Value → AttrView
  attr_view x = record { key = c_string key; value = x }

  abbrev num_attr : ℕ → Num → Attr
  num_attr t n = record (blank s.arena_used) { type = t; v = n }

  appended :
      {s' : Span} {mem : Arena} {hi : ℕ} {a : Attr} (x : Value)
      → s' ≡ with_attr s mem hi record_at
      → Linked s m mem hi record_at a (attr_view x)
      → IsSpan (give own record_at nil) s' (add_attr_view m (attr_view x))
  appended x e l = rw e (IsSpan-with_attr v l)

  num-append :
      (t : ℕ) (n : Num) (x : Value)
      → ((mem : Arena) (hi : ℕ) → HasValue mem hi (num_attr t n) x)
      → value_size x ≡ 0
      → IsSpan
          (give own record_at nil)
          (fill_num (span_attr s (some key)) t n)
          (add_attr_view m (attr_view x))
  num-append t n x value nothing =
      let mem = change linked_mem record_at (at_attr (λ a. record a { type = t; v = n })) in
      appended {mem = mem} x (rw span_attr_made) (
        filled mem (record_at + 16) (num_attr t n) (attr_view x) (λ o h. ground arith)
          (ground (arith, tail_in v.attrs)) (refl, refl) (omega (arith, nothing))
          (omega (arith, v.aligned.aligned)) refl (value mem _))

  -- If a recording span holds m and key and record fit into the arena, then span_attr_i64,
  -- span_attr_u64 and span_attr_bool append to the attributes of the span one with the key and the
  -- value given; all else that the span holds is as before.
  pub attr_nums-IsSpan :
      (i : ℤ) (n : ℕ) (b : Bool)
      → IsSpan
          (give own record_at nil)
          (span_attr_i64 s (some key) i)
          (add_attr_view m (attr_view (i64 i)))
        × IsSpan
            (give own record_at nil)
            (span_attr_u64 s (some key) n)
            (add_attr_view m (attr_view (u64 n)))
        × IsSpan
            (give own record_at nil)
            (span_attr_bool s (some key) b)
            (add_attr_view m (attr_view (bool (if b then 1 else 0))))
  unfolding span_attr_i64 span_attr_u64 span_attr_bool
  attr_nums-IsSpan i n b = (
    num-append AttrType.i64 (signed i) (i64 i) (λ mem hi. (refl, refl)) refl,
    num-append AttrType.u64 (unsigned n) (u64 n) (λ mem hi. (refl, refl)) refl,
    num-append AttrType.bool (int (if b then 1 else 0)) (bool (if b then 1 else 0))
        (λ mem hi. (refl, refl)) refl,
  )

  -- the span in which the value of a string attribute is stored
  abbrev before_value : Span
  before_value = set_type (span_attr s (some key)).0 record_at AttrType.str

  abbrev str_attr : ℕ → Attr
  str_attr off = record (blank s.arena_used) { val = off }

  abbrev typed_mem : Arena
  typed_mem = change linked_mem record_at (at_attr (λ a. record a { type = AttrType.str }))

  typed-record : typed_mem record_at ≡ some (attr (blank s.arena_used))
  typed-record = ground (arith, tail_in v.attrs)

  -- The value was stored behind the record, or `val` is OTEL_NIL.
  text-append :
      {raw : List ℕ} {r : Span × ℕ}
      → Stored before_value raw r
      → IsSpan (give own record_at nil) (set_val r.0 record_at r.1) (
          add_attr_view m (
            attr_view (
              str (
                if ltb span_arena (record_at + 16 + rounded (length raw + 1))
                then []
                else c_string raw))))
  text-append {raw} (stored fits e) =
      let used : before_value.arena_used ≡ record_at + 16 = rw span_attr_made in
      let off = record_at + 16 in
      let hi = off + rounded (length raw + 1) in
      let inside : hi ≤ span_arena = rw (← used) fits in
      let mem =
        change (write typed_mem off (text raw)) record_at (at_attr (λ a. record a { val = off })) in
      let kept : ltb span_arena hi ≡ false = ground arith in
      rw kept (
        appended {mem = mem} (str (c_string raw)) (rw (e, span_attr_made)) (
          filled mem hi (str_attr off) (attr_view (str (c_string raw))) (λ o h. ground arith)
            (change_attr (write typed_mem off (text raw)) record_at (λ a. record a { val = off })
              (write_ne typed_mem off record_at (text raw) (omega arith) ∙ typed-record))
            (refl, refl) (omega (arith, strlen-le-length raw))
            (inside, omega (arith, v.aligned.aligned)) refl
            (
              refl,
              present
                  (record { raw = raw; cell = ground arith; shown = refl; region = omega arith }),
            )))
  text-append {raw} (refused full e) =
      let used : before_value.arena_used ≡ record_at + 16 = rw span_attr_made in
      let over : span_arena < record_at + 16 + rounded (length raw + 1) = rw (← used) full in
      let mem =
        change (change linked_mem record_at (at_attr (λ a. record a { type = AttrType.str })))
          record_at (at_attr (λ a. record a { val = nil })) in
      rw (lt→ltb _ _ over) (
        appended {mem = mem} (str []) (rw (e, span_attr_made)) (
          filled mem (record_at + 16) (str_attr nil) (attr_view (str [])) (λ o h. ground arith)
            (change_attr typed_mem record_at (λ a. record a { val = nil }) typed-record)
            (refl, refl) (omega arith) (omega (arith, v.aligned.aligned)) refl
            (refl, absent refl refl)))

  -- the string that the setter of an attribute keeps of `raw`: all of it, or none
  abbrev pub kept : List ℕ → List ℕ
  kept raw = if ltb span_arena (record_at + 16 + rounded (length raw + 1)) then [] else c_string raw

  before_value-IsAligned : IsAligned before_value
  before_value-IsAligned =
      rw span_attr_made (record { within = room; aligned = omega (arith, v.aligned.aligned) })

  span_attr_str-append :
      (value : List ℕ)
      → strlen value < 2 ^ 62
      → IsSpan
          (give own record_at nil)
          (span_attr_str s (some key) (some value))
          (add_attr_view m (attr_view (str (kept (c_string value)))))
  unfolding span_attr_str
  span_attr_str-append value small =
      rw span_attr_made
        (rw span_attr_made at (text-append (put_cases value before_value-IsAligned small)))

  span_attr_strn-append :
      (value : List ℕ) (len : ℕ)
      → len ≤ length value
      → len < 2 ^ 62
      → IsSpan
          (give own record_at nil)
          (span_attr_strn s (some key) (some value) len)
          (add_attr_view m (attr_view (str (kept (take len value)))))
  unfolding span_attr_strn
  span_attr_strn-append value len h small =
      rw span_attr_made
        (rw span_attr_made at (text-append (putn_cases value len before_value-IsAligned h small)))

  -- If a recording span holds m and key and record fit into the arena, then span_attr_str and
  -- span_attr_strn (of a value and of a length no greater than it, both below 2^62) append to the
  -- attributes of the span one with the key and the stored value, which is "" when the value no
  -- longer fits; all else that the span holds is as before.
  pub attr_texts-IsSpan :
      (value : List ℕ) (len : ℕ)
      → strlen value < 2 ^ 62
      → len ≤ length value
      → len < 2 ^ 62
      → IsSpan
          (give own record_at nil)
          (span_attr_str s (some key) (some value))
          (add_attr_view m (attr_view (str (kept (c_string value)))))
        × IsSpan
            (give own record_at nil)
            (span_attr_strn s (some key) (some value) len)
            (add_attr_view m (attr_view (str (kept (take len value)))))
  attr_texts-IsSpan value len short h small =
      (span_attr_str-append value short, span_attr_strn-append value len h small)

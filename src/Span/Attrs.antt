-- ===== src/Span/Attrs.antt =====
-- The operations of oteltracing.h that annotate a span: name, status and attributes.
pub mod Room
pub mod Append
pub mod Dropped
pub mod Texts
use oteltracing_c.Base.{ℕ, ◌+◌, ◌%◌, ◌^◌, Bool, ◌||◌, Option, none, some, List}
use oteltracing_c.Base.Tests.{ltb, ◌==◌, if◌then◌else◌}
use oteltracing_c.Base.Int.{ℤ}
use oteltracing_c.Span.{
  Span, Attr, Num, unset, signed, unsigned, int, attr, nil, sizeof_attr, at_attr, change, recording,
}
use oteltracing_c.Span.Arena.{alloc, store, putn, put}
use oteltracing_c.Span.AttrType

-- `otel_span_set_name`
pub set_name : Span → Option (List ℕ) → Span
set_name s name =
    let (s', n) = put s name in
    if recording s then (if n == nil then s' else record s' { name = n }) else s

-- `otel_span_set_status`
pub set_status : Span → ℕ → Option (List ℕ) → Span
set_status s status message =
    let (s', m) = put (record s { status = status }) message in
    if recording s then record s' { status_message = m } else s

-- A record as `otel_span_attr_` and `otel_event_attr_` leave it; `v` is not written.
abbrev pub blank : ℕ → Attr
blank koff = record { next = nil; key = koff; val = nil; type = AttrType.str; v = unset }

-- The allocations that `otel_span_attr_` and `otel_event_attr_` begin with, and the new record.
unfoldable pub alloc_attr : Span → Option (List ℕ) → Span × Option ℕ
alloc_attr s key =
    let (s1, koff) = put s key in
    let (s2, roff) = alloc s1 sizeof_attr in
    if (koff == nil) || (roff == nil)
    then (s2, none)
    else (store s2 roff (attr (blank koff)), some roff)

-- `a->next = roff` of the attribute at `tail`
abbrev pub set_next : Span → ℕ → ℕ → Span
set_next s tail roff = record s {
  arena = change s.arena tail (at_attr (λ a. record a { next = roff }));
}

-- The end of `otel_span_attr_`: append the record at `roff`.
unfoldable pub link_attr : Span → ℕ → Span
link_attr s roff =
    let s' =
      if s.attr_tail == nil then record s { attr_head = roff } else set_next s s.attr_tail roff in
    record s' { attr_tail = roff; num_attrs = (s.num_attrs + 1) % 2 ^ 16 }

-- `if (n < 255) n++;`
abbrev pub saturate : ℕ → ℕ
saturate n = if ltb n 255 then n + 1 else n

-- `otel_span_attr_`; the result is the offset of the record, or `none` for NULL.
unfoldable pub span_attr : Span → Option (List ℕ) → Span × Option ℕ
span_attr s key =
    let (s', a) = alloc_attr s key in
    if recording s
    then elim a [
      | none ↦ (record s' { dropped_attrs = saturate s'.dropped_attrs }, none)
      | some roff ↦ (link_attr s' roff, some roff)
    ]
    else (s, none)

-- The stores through the record that an operation got back.
abbrev pub set_num : Span → ℕ → ℕ → Num → Span
set_num s o t v = record s {
  arena = change s.arena o (at_attr (λ a. record a { type = t; v = v }));
}

abbrev pub set_type : Span → ℕ → ℕ → Span
set_type s o t = record s { arena = change s.arena o (at_attr (λ a. record a { type = t })) }

abbrev pub set_val : Span → ℕ → ℕ → Span
set_val s o off = record s { arena = change s.arena o (at_attr (λ a. record a { val = off })) }

-- `if (a) { a->type = t; a->v = v; }` of the numeric setters
abbrev pub fill_num : Span × Option ℕ → ℕ → Num → Span
fill_num (s, none) t v = s
fill_num (s, some o) t v = set_num s o t v

-- `if (a) { a->type = OTEL_ATTR_STR; a->val = otel_arena_putn(s, value, len); }`
abbrev pub fill_strn : Span × Option ℕ → Option (List ℕ) → ℕ → Span
fill_strn (s, none) value len = s
fill_strn (s, some o) value len =
    let (s', off) = putn (set_type s o AttrType.str) value len in set_val s' o off

-- the same by `otel_arena_put`
abbrev pub fill_str : Span × Option ℕ → Option (List ℕ) → Span
fill_str (s, none) value = s
fill_str (s, some o) value =
    let (s', off) = put (set_type s o AttrType.str) value in set_val s' o off

unfoldable pub span_attr_str : Span → Option (List ℕ) → Option (List ℕ) → Span
span_attr_str s key value = fill_str (span_attr s key) value

unfoldable pub span_attr_strn : Span → Option (List ℕ) → Option (List ℕ) → ℕ → Span
span_attr_strn s key value len = fill_strn (span_attr s key) value len

unfoldable pub span_attr_i64 : Span → Option (List ℕ) → ℤ → Span
span_attr_i64 s key value = fill_num (span_attr s key) AttrType.i64 (signed value)

unfoldable pub span_attr_u64 : Span → Option (List ℕ) → ℕ → Span
span_attr_u64 s key value = fill_num (span_attr s key) AttrType.u64 (unsigned value)

-- The C argument is an `int`: its test against 0 is the Boolean here.
unfoldable pub span_attr_bool : Span → Option (List ℕ) → Bool → Span
span_attr_bool s key value = fill_num (span_attr s key) AttrType.bool (int (if value then 1 else 0))

-- ===== src/Span/Attrs/Room.antt =====
-- The allocations that an attribute begins with: its key and its record.
use oteltracing_c.Base.{ℕ, ◌+◌, ◌^◌, ◌≤◌, ◌<◌, ◌≡◌, refl, Option, some, none, List, arith}
use oteltracing_c.Base.Lists.{strlen, c_string}
use oteltracing_c.Span.{Span, text, attr, nil, span_arena}
use oteltracing_c.Span.Arena.{put, store}
use oteltracing_c.Span.Arena.Alloc.{rounded, fits, full, alloc_cases}
use oteltracing_c.Span.View.{SpanView, IsSpan}
use oteltracing_c.Span.View.Grow.{
  Fits, with_cell, stored, refused, put_cases, Kept, IsSpan-alloc, IsSpan-with_cell,
}
use oteltracing_c.Span.Attrs.{alloc_attr, blank}

-- the arena's end after a key
abbrev pub after_key : Span → List ℕ → ℕ
after_key s key = s.arena_used + rounded (strlen key + 1)

-- There is room for the key and the record.
abbrev pub AttrFits : Span → List ℕ → Type 0
AttrFits s key = after_key s key + 16 ≤ span_arena

abbrev pub with_key : Span → List ℕ → Span
with_key s key = with_cell s (strlen key + 1) (text (c_string key))

abbrev pub with_blank : Span → List ℕ → Span
with_blank s key = with_cell (with_key s key) 16 (attr (blank s.arena_used))

pub data AttrAlloc (own : ℕ → ℕ) (s : Span) (m : SpanView) (key : List ℕ) (r : Span × Option ℕ)
    : Type 0 where
  made : AttrFits s key → r ≡ (with_blank s key, some (after_key s key)) → AttrAlloc own s m key r
  failed :
      (s' : Span)
      → span_arena < after_key s key + 16
      → r ≡ (s', none)
      → Kept own s m s'
      → AttrAlloc own s m key r

module _ {own : ℕ → ℕ} {s : Span} {m : SpanView} (v : IsSpan own s m) where
  Kept-self : Kept own s m s
  Kept-self = record {
    mem = s.arena;
    hi = s.arena_used;
    shape = refl;
    grown = omega arith;
    span = v;
  }

  -- With no key the record is allocated all the same, and left.
  pub alloc_attr-no_key :
      (key : Option (List ℕ))
      → put s key ≡ (s, nil)
      → (s' : Span) × (alloc_attr s key ≡ (s', none)) × Kept own s m s'
  unfolding alloc_attr
  alloc_attr-no_key key e = elim (alloc_cases 16 v.aligned (omega arith)) [
    | fits room q ↦ (
      record s { arena_used = s.arena_used + rounded 16 },
      rw (e, q),
      record {
        mem = s.arena;
        hi = s.arena_used + rounded 16;
        shape = refl;
        grown = omega arith;
        span = IsSpan-alloc v 16 room;
      },
    )
    | full over q ↦ (s, rw (e, q), Kept-self)
  ]

  alloc_attr_stored :
      (key : List ℕ)
      → strlen key < 2 ^ 62
      → Fits s (strlen key + 1)
      → put s (some key) ≡ (with_key s key, s.arena_used)
      → AttrAlloc own s m key (alloc_attr s (some key))
  unfolding alloc_attr store
  alloc_attr_stored key small room e =
      let w = IsSpan-with_cell v (strlen key + 1) (text (c_string key)) room in
      elim (alloc_cases 16 w.aligned (omega arith)) [
        | fits h q ↦ made (omega arith) (rw (e, q) (ground (arith, v.aligned.within)))
        | full h q ↦ failed (with_key s key) (omega arith) (rw (e, q) (ground arith)) (record {
          mem = (with_key s key).arena;
          hi = after_key s key;
          shape = refl;
          grown = omega arith;
          span = w;
        })
      ]

  pub alloc_attr_cases :
      (key : List ℕ) → strlen key < 2 ^ 62 → AttrAlloc own s m key (alloc_attr s (some key))
  alloc_attr_cases key small = elim (put_cases key v.aligned small) [
    | stored room e ↦ alloc_attr_stored key small room e
    | refused over e ↦
        let (s', q, k) = alloc_attr-no_key (some key) e in failed s' (omega arith) q k
  ]

-- ===== src/Span/Attrs/Dropped.antt =====
-- An attribute that does not fit is dropped and counted, and an unsampled span is left alone.
use oteltracing_c.Base.{
  ℕ, ◌≡◌, Option, none, some, List, arith, true, ◌<◌, ◌+◌, Bool, ◌^◌, false, ap, refl,
}
use oteltracing_c.Base.Lists.{strlen}
use oteltracing_c.Span.{Span, span_arena, recording, ℤ}
use oteltracing_c.Span.Arena.{put}
use oteltracing_c.Span.View.Grow.{Kept}
use oteltracing_c.Span.View.{SpanView, IsSpan}
use oteltracing_c.Span.Attrs.{
  span_attr, saturate, span_attr_str, span_attr_strn, span_attr_i64, span_attr_u64, span_attr_bool,
  put, set_name, alloc_attr, set_status,
}
use oteltracing_c.Span.Attrs.Room.{made, failed, alloc_attr_cases, alloc_attr-no_key, after_key}

-- The fields of the counters are no part of what a span holds.
pub IsSpan-counters :
    {own : ℕ → ℕ} {s : Span} {m : SpanView} (a e : ℕ)
    → IsSpan own s m
    → IsSpan own (record s { dropped_attrs = a; dropped_events = e }) m
IsSpan-counters a e v = record {
  aligned = record { within = v.aligned.within; aligned = v.aligned.aligned };
  name = v.name;
  message = v.message;
  attrs = v.attrs;
  events = v.events;
  num_attrs = v.num_attrs;
  num_events = v.num_events;
  budget = v.budget;
  weight = v.weight;
}

-- NULL, or a key that leaves no room for the attribute
abbrev pub NoRoom : Span → Option (List ℕ) → Type 0
NoRoom s none = Unit {0}
NoRoom s (some key) = (span_arena < after_key s key + 16) × (strlen key < 2 ^ 62)

-- `s'` holds what `s` holds, and counts one more dropped attribute, up to 255.
pub record IsDrop (own : ℕ → ℕ) (s : Span) (m : SpanView) (s' : Span) : Type 0 where
  pub span : IsSpan own s' m
  pub counted : s'.dropped_attrs ≡ saturate s.dropped_attrs
  pub others : s'.dropped_events ≡ s.dropped_events

module _ {own : ℕ → ℕ} {s : Span} {m : SpanView} (v : IsSpan own s m) where
  span_attr_counts :
      (key : Option (List ℕ))
      → recording s ≡ true
      → (s' : Span) × (alloc_attr s key ≡ (s', none)) × Kept own s m s'
      → (s' : Span) × (span_attr s key ≡ (s', none)) × IsDrop own s m s'
  unfolding span_attr
  span_attr_counts key live (s', e, k) = (
    record s' { dropped_attrs = saturate s'.dropped_attrs },
    rw live (ground arith),
    record {
      span = IsSpan-counters (saturate s'.dropped_attrs) s'.dropped_events k.span;
      counted = ap (λ x. saturate x.dropped_attrs) k.shape;
      others = ap (λ x. x.dropped_events) k.shape;
    },
  )

  pub span_attr-IsDrop :
      (key : Option (List ℕ))
      → recording s ≡ true
      → NoRoom s key
      → (s' : Span) × (span_attr s key ≡ (s', none)) × IsDrop own s m s'
  unfolding put
  span_attr-IsDrop none live h = span_attr_counts none live (alloc_attr-no_key v none refl)
  span_attr-IsDrop (some key) live h = elim (alloc_attr_cases v key h.1) [
    | made fits e ↦ absurd (omega arith)
    | failed s' over e k ↦ span_attr_counts (some key) live (s', e, k)
  ]

  -- If a recording span holds m and the key is NULL, or is shorter than 2^62 bytes and leaves no
  -- room for itself and the record, then each of the five setters of a span attribute leaves a
  -- span that still holds m, counts one more dropped attribute (up to 255) and as many dropped
  -- events as before.
  pub setters-IsDrop :
      (key : Option (List ℕ))
      → recording s ≡ true
      → NoRoom s key
      → (value : Option (List ℕ)) (len n : ℕ) (i : ℤ) (b : Bool)
      → IsDrop own s m (span_attr_str s key value)
        × IsDrop own s m (span_attr_strn s key value len)
        × IsDrop own s m (span_attr_i64 s key i)
        × IsDrop own s m (span_attr_u64 s key n)
        × IsDrop own s m (span_attr_bool s key b)
  unfolding span_attr_str span_attr_strn span_attr_i64 span_attr_u64 span_attr_bool
  setters-IsDrop key live h value len n i b =
      let (s', e, d) = span_attr-IsDrop key live h in (rw e d, rw e d, rw e d, rw e d, rw e d)

-- On a span that is not recording the five setters of a span attribute, set_name and set_status
-- return the span exactly as it was.
pub not_recording :
    (s : Span)
    → recording s ≡ false
    → (key value : Option (List ℕ)) (len n : ℕ) (i : ℤ) (b : Bool)
    → (span_attr_str s key value ≡ s)
      × (span_attr_strn s key value len ≡ s)
      × (span_attr_i64 s key i ≡ s)
      × (span_attr_u64 s key n ≡ s)
      × (span_attr_bool s key b ≡ s)
      × (set_name s value ≡ s)
      × (set_status s n value ≡ s)
unfolding span_attr span_attr_str span_attr_strn span_attr_i64 span_attr_u64 span_attr_bool set_name
    set_status
not_recording s off key value len n i b = (rw off, rw off, rw off, rw off, rw off, rw off, rw off)

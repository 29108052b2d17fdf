-- ===== src/Span/View/Grow.antt =====
-- Growing the arena: a span holds what it held after an allocation, and a stored string can be read.
use oteltracing_c.Base.{
  ℕ, ◌+◌, ◌^◌, ◌≤◌, ◌<◌, ◌≡◌, refl, ◌≢◌, some, List, arith, subst, ◌%◌, inl, inr,
}
use oteltracing_c.Base.Lists.{
  length, take, strlen, c_string, length-take, take-strlen, strlen-le-length,
}
use oteltracing_c.Span.{Span, Arena, Cell, text, nil, span_arena, write}
use oteltracing_c.Span.Arena.{store, putn, put}
use oteltracing_c.Span.Arena.Alloc.{IsAligned, rounded, alloc_fits, alloc_full}
use oteltracing_c.Base.Tests.{ltb, ltb→lt, Bool-cases}
use oteltracing_c.Span.View.{IsSpan, SpanView, IsText}
use oteltracing_c.Span.View.Frame.{Frame, IsStr-frame, attrs-frame, events-frame}

-- The allocation of `n` bytes filled with `c`.
abbrev pub with_cell : Span → ℕ → Cell → Span
with_cell s n c = record s {
  arena_used = s.arena_used + rounded n;
  arena = write s.arena s.arena_used c;
}

abbrev pub Fits : Span → ℕ → Type 0
Fits s n = s.arena_used + rounded n ≤ span_arena

-- The two outcomes of storing the bytes `raw` and a NUL.
pub data Stored (s : Span) (raw : List ℕ) (r : Span × ℕ) : Type 0 where
  stored :
      Fits s (length raw + 1)
      → r ≡ (with_cell s (length raw + 1) (text raw), s.arena_used)
      → Stored s raw r
  refused : span_arena < s.arena_used + rounded (length raw + 1) → r ≡ (s, nil) → Stored s raw r

small_len : (len : ℕ) → len < 2 ^ 62 → (len + 1) % 2 ^ 64 ≡ len + 1
small_len len h = omega arith

putn-Fits :
    {s : Span} (bs : List ℕ) (len : ℕ)
    → IsAligned s
    → len < 2 ^ 62
    → Fits s (len + 1)
    → putn s (some bs) len ≡ (with_cell s (len + 1) (text (take len bs)), s.arena_used)
unfolding putn store
putn-Fits {s} bs len v small room =
    let ne : s.arena_used ≢ nil = omega (arith, v.within) in
    rw (small_len len small, alloc_fits (len + 1) v (omega arith) room) (ground arith)

putn_full :
    {s : Span} (bs : List ℕ) (len : ℕ)
    → IsAligned s
    → len < 2 ^ 62
    → span_arena < s.arena_used + rounded (len + 1)
    → putn s (some bs) len ≡ (s, nil)
unfolding putn
putn_full {s} bs len v small over =
    rw (small_len len small, alloc_full (len + 1) v (omega arith) over) refl

-- `otel_arena_putn` of bytes that the caller has.
pub putn_cases :
    {s : Span} (bs : List ℕ) (len : ℕ)
    → IsAligned s
    → len ≤ length bs
    → len < 2 ^ 62
    → Stored s (take len bs) (putn s (some bs) len)
putn_cases {s} bs len v h small =
    elim (Bool-cases (ltb span_arena (s.arena_used + rounded (len + 1)))) [
      | inl over ↦
          let o : span_arena < s.arena_used + rounded (len + 1) = ltb→lt _ _ over in
          refused (rw (length-take len bs h) o) (putn_full bs len v small o)
      | inr room ↦
          let o : Fits s (len + 1) = ground arith in
          stored (rw (length-take len bs h) o)
            (rw (length-take len bs h) (putn-Fits bs len v small o))
    ]

-- `otel_arena_put` of a string.
pub put_cases :
    {s : Span} (bs : List ℕ)
    → IsAligned s
    → strlen bs < 2 ^ 62
    → Stored s (c_string bs) (put s (some bs))
unfolding put
put_cases {s} bs v small =
    subst (λ raw. Stored s raw (putn s (some bs) (strlen bs))) (take-strlen bs)
      (putn_cases bs (strlen bs) v (strlen-le-length bs) small)

module _ {own : ℕ → ℕ} {s : Span} {m : SpanView} (v : IsSpan own s m) where
  -- What lies at the new end of the arena or beyond is not part of what the span holds.
  pub IsSpan-Frame :
      {mem' : Arena} {own' : ℕ → ℕ} {hi' : ℕ}
      → Frame s.arena mem' own own' s.arena_used hi' nil nil
      → hi' ≤ span_arena
      → hi' % 8 ≡ 0
      → IsSpan own' (record s { arena = mem'; arena_used = hi' }) m
  IsSpan-Frame f within aligned =
      let below : (o : ℕ) → o < s.arena_used → o ≢ nil = λ o h. omega (arith, v.aligned.within) in
      record {
        aligned = record { within = within; aligned = aligned };
        name = IsStr-frame f v.name;
        message = IsStr-frame f v.message;
        attrs = attrs-frame f (λ o h k. below o h) v.attrs;
        events = events-frame f below (λ o p h k e. below p k) v.events;
        num_attrs = v.num_attrs;
        num_events = v.num_events;
        budget = omega (arith, v.budget, f.grow);
        weight = omega (arith, v.weight, f.grow);
      }

  pub IsSpan-with_cell : (n : ℕ) (c : Cell) → Fits s n → IsSpan own (with_cell s n c) m
  IsSpan-with_cell n c room =
      IsSpan-Frame
        (record {
          grow = omega arith;
          texts = λ o bs h e. ground arith;
          attrs = λ o a h k e. ground arith;
          events = λ o x h k e. ground arith;
          owners = λ o h. refl;
        })
        room (omega (arith, v.aligned.aligned))

  pub IsSpan-alloc :
      (n : ℕ) → Fits s n → IsSpan own (record s { arena_used = s.arena_used + rounded n }) m
  IsSpan-alloc n room =
      IsSpan-Frame
        (record {
          grow = omega arith;
          texts = λ o bs h e. e;
          attrs = λ o a h k e. e;
          events = λ o x h k e. e;
          owners = λ o h. refl;
        })
        room (omega (arith, v.aligned.aligned))

-- `s'` is `s` after allocations that left nothing behind: it holds what `s` holds.
pub record Kept (own : ℕ → ℕ) (s : Span) (m : SpanView) (s' : Span) : Type 0 where
  pub mem : Arena
  pub hi : ℕ
  pub shape : s' ≡ record s { arena = mem; arena_used = hi }
  pub grown : s.arena_used ≤ hi
  pub span : IsSpan own s' m

-- A stored string reads as the C string that was stored.
pub IsText-with_cell :
    (s : Span) (raw : List ℕ)
    → IsText
        (with_cell s (length raw + 1) (text raw)).arena
        (with_cell s (length raw + 1) (text raw)).arena_used
        s.arena_used
        (c_string raw)
IsText-with_cell s raw = record {
  raw = raw;
  cell = ground arith;
  shown = refl;
  region = omega arith;
}

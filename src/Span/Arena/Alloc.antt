-- ===== src/Span/Arena/Alloc.antt =====
-- What an allocation gives: an aligned region of its own inside the arena, or nothing.
use oteltracing_c.Base.{
  ℕ, ◌+◌, ◌*◌, ◌/◌, ◌%◌, ◌^◌, ◌≤◌, ◌<◌, ◌≡◌, inl, inr, arith, Option, List, some, none, refl,
}
use oteltracing_c.Base.Tests.{ltb, Bool-cases}
use oteltracing_c.Span.{Span, span_arena, nil}
use oteltracing_c.Span.Arena.{align_up, alloc, putn, put, store, strlen}

-- `s->arena_used` stays in the arena and aligned.
pub record IsAligned (s : Span) : Type 0 where
  pub within : s.arena_used ≤ span_arena
  pub aligned : s.arena_used % 8 ≡ 0

-- the bytes that an allocation of `n` takes
abbrev pub rounded : ℕ → ℕ
rounded n = (n + 7) / 8 * 8

-- The two outcomes of an allocation of `n` bytes.
pub data Alloc (s : Span) (n : ℕ) (r : Span × ℕ) : Type 0 where
  fits :
      s.arena_used + rounded n ≤ span_arena
      → r ≡ (record s { arena_used = s.arena_used + rounded n }, s.arena_used)
      → Alloc s n r
  full : span_arena < s.arena_used + rounded n → r ≡ (s, nil) → Alloc s n r

align_up_small : (n : ℕ) → n < 2 ^ 63 → align_up n ≡ rounded n
unfolding align_up
align_up_small n h = omega arith

align_up_aligned : (n : ℕ) → n ≤ span_arena → n % 8 ≡ 0 → align_up n ≡ n
unfolding align_up
align_up_aligned n h e = omega arith

pub alloc_fits :
    {s : Span} (n : ℕ)
    → IsAligned s
    → n < 2 ^ 63
    → s.arena_used + rounded n ≤ span_arena
    → alloc s n ≡ (record s { arena_used = s.arena_used + rounded n }, s.arena_used)
unfolding alloc
alloc_fits {s} n v h room =
    ground (arith, align_up_small n h, align_up_aligned s.arena_used v.within v.aligned)

pub alloc_full :
    {s : Span} (n : ℕ)
    → IsAligned s
    → n < 2 ^ 63
    → span_arena < s.arena_used + rounded n
    → alloc s n ≡ (s, nil)
unfolding alloc
alloc_full {s} n v h over =
    ground (arith, align_up_small n h, align_up_aligned s.arena_used v.within v.aligned)

-- If the used part of the arena is aligned and at most 4024 bytes, then alloc of n bytes, n below
-- 2^63, either gives the offset of the old end and moves the end by n rounded up to a multiple of
-- 8, which still lies in the arena, or that does not fit, and it gives OTEL_NIL and leaves the
-- span as it was.
pub alloc_cases : {s : Span} (n : ℕ) → IsAligned s → n < 2 ^ 63 → Alloc s n (alloc s n)
alloc_cases {s} n v h = elim (Bool-cases (ltb span_arena (s.arena_used + rounded n))) [
  | inl over ↦
      let o : span_arena < s.arena_used + rounded n = ground arith in full o (alloc_full n v h o)
  | inr room ↦
      let o : s.arena_used + rounded n ≤ span_arena = ground arith in fits o (alloc_fits n v h o)
]

-- Allocations and copies change only the arena and its end.
abbrev pub SameBut : Span → Span → Type 0
SameBut s s' = s' ≡ record s { arena = s'.arena; arena_used = s'.arena_used }

alloc-SameBut : (s : Span) (n : ℕ) → SameBut s (alloc s n).0
unfolding alloc
alloc-SameBut s n = ground arith

putn-SameBut : (s : Span) (bs : List ℕ) (len : ℕ) → SameBut s (putn s (some bs) len).0
unfolding putn store
putn-SameBut s bs len = ground (arith, alloc-SameBut s ((len + 1) % 2 ^ 64))

pub put-SameBut : (s : Span) (str : Option (List ℕ)) → SameBut s (put s str).0
unfolding put putn
put-SameBut s none = refl
put-SameBut s (some bs) = putn-SameBut s bs (strlen bs)

-- ===== src/Span/Arena.antt =====
-- `otel_arena_alloc`, `otel_arena_putn`, `otel_arena_put` of oteltracing.h.
pub mod Alloc
use oteltracing_c.Base.{ℕ, ◌+◌, ◌*◌, ◌/◌, ◌%◌, ◌^◌, Option, none, some, List}
use oteltracing_c.Base.Tests.{ltb, ◌==◌, if◌then◌else◌}
use oteltracing_c.Base.Lists.{take, strlen}
use oteltracing_c.Span.{Span, Cell, text, span_arena, nil, write}

-- `(n + (OTEL_ARENA_ALIGN - 1)) & ~(size_t) (OTEL_ARENA_ALIGN - 1)`
unfoldable pub align_up : ℕ → ℕ
align_up n = (n + 7) % 2 ^ 64 / 8 * 8

-- `otel_arena_alloc`
unfoldable pub alloc : Span → ℕ → Span × ℕ
unfolding align_up
alloc s n =
    let off = align_up s.arena_used in
    let end = (off + align_up n) % 2 ^ 64 in
    if ltb span_arena end then (s, nil) else (record s { arena_used = end % 2 ^ 16 }, off % 2 ^ 16)

-- The `memcpy` into a fresh allocation.
unfoldable pub store : Span → ℕ → Cell → Span
store s off c = record s { arena = write s.arena off c }

-- `otel_arena_putn`; the string is `none` for NULL, else the bytes that it points to.
unfoldable pub putn : Span → Option (List ℕ) → ℕ → Span × ℕ
putn s none len = (s, nil)
putn s (some str) len =
    let (s', off) = alloc s ((len + 1) % 2 ^ 64) in
    if off == nil then (s', nil) else (store s' off (text (take len str)), off)

-- `otel_arena_put`
unfoldable pub put : Span → Option (List ℕ) → Span × ℕ
unfolding putn
put s none = (s, nil)
put s (some str) = putn s (some str) (strlen str)

-- ===== src/Tracer/Ring.antt =====
-- The ring of a thread: `struct otel_thread_ctx` of oteltracing.c, `otel_span_end_` and the drain.
pub mod Queue
pub mod Register
pub mod Safe
pub mod Steps
pub mod Threads
use oteltracing_c.Base.{
  ℕ, zero, suc, ◌+◌, ◌-◌, ◌%◌, ◌^◌, Bool, Option, none, some, List, [], ◌∷◌, ◌++◌, true, false,
}
use oteltracing_c.Base.Tests.{leb, ◌==◌, if◌then◌else◌}
use oteltracing_c.Span.{Span, recording}

-- `mask` is `capacity - 1`, with `capacity` a power of two: `x & mask` is `x % capacity`.
pub record Ring : Type 0 where
  pub capacity : ℕ
  pub head : ℕ
  pub tail : ℕ
  pub dropped : ℕ
  pub slots : ℕ → Span

-- `head - tail` of two `uint64_t`
unfoldable pub used : Ring → ℕ
used r = (r.head + 2 ^ 64 - r.tail) % 2 ^ 64

-- `slot = &ctx->ring[head & ctx->mask]; *slot = *s;`
abbrev pub set_slot : Ring → Span → Ring
set_slot r s = record r { slots = λ i. if i == (r.head % r.capacity) then s else r.slots i }

-- the store of `head`
abbrev pub publish : Ring → Ring
publish r = record r { head = (r.head + 1) % 2 ^ 64 }

-- The end of `otel_span_end_`: the ring, and whether the span was dropped.
unfoldable pub enqueue : Ring → Span → Ring × Bool
enqueue r s =
    if leb r.capacity (used r)
    then (record r { dropped = (r.dropped + 1) % 2 ^ 64 }, true)
    else (publish (set_slot r s), false)

-- What a thread has: its ring if it is registered, and the dropped spans of all threads.
pub record Home : Type 0 where
  pub ctx : Option Ring
  pub dropped_spans : ℕ

-- `otel_span_end_` on a registered thread
abbrev pub end_on : Home → Ring × Bool → Home
end_on h (r, lost) = record {
  ctx = some r;
  dropped_spans = if lost then (h.dropped_spans + 1) % 2 ^ 64 else h.dropped_spans;
}

-- `otel_span_end_`; `now` is what the clock returns.
unfoldable pub span_end_slow : Home → Span → ℕ → Home × Span
span_end_slow h s now =
    let ended = record s { end_unix_ns = now } in
    elim h.ctx [
      | none ↦ (record h { dropped_spans = (h.dropped_spans + 1) % 2 ^ 64 }, ended)
      | some r ↦ (end_on h (enqueue r ended), ended)
    ]

-- `otel_span_end`
unfoldable pub span_end : Home → Span → ℕ → Home × Span
span_end h s now = let r = span_end_slow h s now in if recording s then r else (h, s)

-- The loop of `otel_drain_ctx`: the indices of the slots that it emits, from `tail` to `head`.
unfoldable pub drained : ℕ → Ring → ℕ → List ℕ
drained zero r tail = []
drained (suc f) r tail =
    let rest = drained f r ((tail + 1) % 2 ^ 64) in
    if tail == r.head then [] else (tail % r.capacity) ∷ rest

-- the store of `tail` at its end
abbrev pub emptied : Ring → Ring
emptied r = record r { tail = r.head }

-- What `calloc` leaves in a slot.
abbrev pub zero_span : Span
zero_span = record {
  trace_id = 0 ∷ 0 ∷ 0 ∷ 0 ∷ 0 ∷ 0 ∷ 0 ∷ 0 ∷ 0 ∷ 0 ∷ 0 ∷ 0 ∷ 0 ∷ 0 ∷ 0 ∷ 0 ∷ [];
  span_id = 0;
  parent_id = 0;
  start_unix_ns = 0;
  end_unix_ns = 0;
  name = 0;
  status_message = 0;
  attr_head = 0;
  attr_tail = 0;
  event_head = 0;
  event_tail = 0;
  arena_used = 0;
  num_attrs = 0;
  num_events = 0;
  kind = 0;
  flags = 0;
  status = 0;
  dropped_attrs = 0;
  dropped_events = 0;
  arena = λ o. none;
}

-- The context that `otel_thread_register` makes.
abbrev pub new_ring : ℕ → Ring
new_ring ring_capacity = record {
  capacity = ring_capacity;
  head = 0;
  tail = 0;
  dropped = 0;
  slots = λ i. zero_span;
}

-- `otel_thread_register`: a thread that has a ring keeps it; another gets an empty one. The
-- generator that it seeds is the `Thread` of Span/Start; the registry list is left out, and both
-- calls of `calloc` succeed.
unfoldable pub thread_register : (ring_capacity : ℕ) → Home → Home
thread_register ring_capacity h = record h {
  ctx = elim h.ctx [ some r ↦ some r | none ↦ some (new_ring ring_capacity) ];
}

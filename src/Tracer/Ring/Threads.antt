-- ===== src/Tracer/Ring/Threads.antt =====
-- The owner of a ring and the drain run at the same time: the steps of `otel_span_end_` and of
-- `otel_drain_ctx` on the shared `struct otel_thread_ctx`, in any order.
use oteltracing_c.Base.{ℕ, ◌+◌, ◌%◌, ◌^◌, ◌≡◌, true, false, List, [], ◌∷◌, ◌++◌}
use oteltracing_c.Base.Tests.{leb, ◌==◌}
use oteltracing_c.Span.{Span}
use oteltracing_c.Tracer.Ring.{Ring, used, set_slot, publish}

-- Where `otel_span_end_` is: outside, past the test of the cursors, or past the copy into the slot.
pub data Producer : Type 0 where
  outside : Producer
  ready : Span → Producer
  written : Span → Producer

-- Where `otel_drain_ctx` is: outside, or in its loop with its `tail` and the `head` that it loaded.
pub data Consumer : Type 0 where
  away : Consumer
  looping : (tail head : ℕ) → Consumer

-- `accepted` and `emitted` record the spans that the producer published and the consumer emitted.
pub record Shared : Type 0 where
  pub ring : Ring
  pub producer : Producer
  pub consumer : Consumer
  pub accepted : List Span
  pub emitted : List Span

pub data Step (t : Shared) : Shared → Type 0 where
  check :
      (s : Span)
      → t.producer ≡ outside
      → leb t.ring.capacity (used t.ring) ≡ false
      → Step t (record t { producer = ready s })
  refuse :
      t.producer ≡ outside
      → leb t.ring.capacity (used t.ring) ≡ true
      → Step t (record t { ring = record (t.ring) { dropped = (t.ring.dropped + 1) % 2 ^ 64 } })
  copy :
      (s : Span)
      → t.producer ≡ ready s
      → Step t (record t { ring = set_slot t.ring s; producer = written s })
  store_head :
      (s : Span)
      → t.producer ≡ written s
      → Step t (record t {
        ring = publish t.ring;
        producer = outside;
        accepted = t.accepted ++ (s ∷ []);
      })
  load : t.consumer ≡ away → Step t (record t { consumer = looping t.ring.tail t.ring.head })
  emit :
      (tail head : ℕ)
      → t.consumer ≡ looping tail head
      → (tail == head) ≡ false
      → Step t (record t {
        consumer = looping ((tail + 1) % 2 ^ 64) head;
        emitted = t.emitted ++ (t.ring.slots (tail % t.ring.capacity) ∷ []);
      })
  store_tail :
      (tail head : ℕ)
      → t.consumer ≡ looping tail head
      → (tail == head) ≡ true
      → Step t (record t { ring = record (t.ring) { tail = tail }; consumer = away })

-- any number of steps
pub data Steps (t : Shared) : Shared → Type 0 where
  stop : Steps t t
  then_step : {u v : Shared} → Steps t u → Step u v → Steps t v

-- a ring that `otel_thread_register` made, before anything ran
abbrev pub start : Ring → Shared
start r = record { ring = r; producer = outside; consumer = away; accepted = []; emitted = [] }

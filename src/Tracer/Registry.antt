-- ===== src/Tracer/Registry.antt =====
-- The registry of threads: `otel_thread_register`, `otel_thread_unregister`, `otel_span_end_`,
-- `otel_drain` and `otel_shutdown` of oteltracing.c on the contexts in memory. An operation gives
-- `none` where it reads a context that was freed.
pub mod Balance
pub mod Delivery
pub mod Empty
pub mod Heap
pub mod Isolation
pub mod Keep
pub mod Owned
pub mod Queues
pub mod Run
pub mod Safe
pub mod Shutdown
pub mod Steps
pub mod Tests
use oteltracing_c.Base.{
  ℕ, zero, suc, ◌+◌, ◌%◌, ◌^◌, Bool, true, false, Option, none, some, List, [], ◌∷◌,
}
use oteltracing_c.Base.Int.{ℤ, pos}
use oteltracing_c.Base.Tests.{◌==◌, if◌then◌else◌}
use oteltracing_c.Span.{Span, recording}
use oteltracing_c.Otlp.{Slot, Rings}
use oteltracing_c.Otlp.Batch.{otlp_flush}
use oteltracing_c.Tracer.{Switches, stopped}
use oteltracing_c.Tracer.Ring.{Ring, new_ring, zero_span, enqueue}
use oteltracing_c.Tracer.Drain.{begin, end, Out, at_sink, call_if, drain_ctx, drain}

-- `heap` has the contexts that are allocated, by address; `next` is an address that no context
-- had. `threads` are the contexts of the list `OT.threads`; `tls` is `otel_tls` of each thread.
pub record Process : Type 0 where
  pub heap : ℕ → Option Ring
  pub next : ℕ
  pub threads : List ℕ
  pub tls : ℕ → Option ℕ
  pub switches : Switches
  pub out : Out
  pub dropped_spans : ℕ
  pub ring_capacity : ℕ

abbrev pub update {ℓ} : {A : Type ℓ} → (ℕ → A) → ℕ → A → ℕ → A
update f c x j = if j == c then x else f j

-- `otel_thread_register`, by `otel_tls` of the thread, where both of its calls of `calloc` succeed;
-- it does not look at what they return.
abbrev pub register_of : Process → ℕ → Option ℕ → Process
register_of p t (some c) = p
register_of p t none = record p {
  heap = update p.heap p.next (some (new_ring p.ring_capacity));
  next = suc p.next;
  threads = p.next ∷ p.threads;
  tls = update p.tls t (some p.next);
}

unfoldable pub register : Process → ℕ → Process
register p t = register_of p t (p.tls t)

-- The end of `otel_span_end_`, with the context of the thread.
abbrev pub stored : Process → ℕ → Ring × Bool → Process
stored p c (r, lost) = record p {
  heap = update p.heap c (some r);
  dropped_spans = if lost then (p.dropped_spans + 1) % 2 ^ 64 else p.dropped_spans;
}

abbrev pub end_in : Process → ℕ → Option Ring → Span → Option Process
end_in p c none s = none
end_in p c (some r) s = some (stored p c (enqueue r s))

abbrev pub end_of : Process → Option ℕ → Span → Option Process
end_of p none s = some (record p { dropped_spans = (p.dropped_spans + 1) % 2 ^ 64 })
end_of p (some c) s = end_in p c (p.heap c) s

-- `otel_span_end` on the thread `t`; `now` is what the clock returns.
unfoldable pub end_span : Process → ℕ → Span → ℕ → Option Process
end_span p t s now =
    if recording s then end_of p (p.tls t) (record s { end_unix_ns = now }) else some p

-- The contexts of a list, each of which is read.
abbrev pub collect_one : Option Ring → Option (List Ring) → Option (List Ring)
collect_one none rest = none
collect_one (some r) none = none
collect_one (some r) (some rs) = some (r ∷ rs)

abbrev pub collect : (ℕ → Option Ring) → List ℕ → Option (List Ring)
collect heap [] = some []
collect heap (c ∷ cs) = collect_one (heap c) (collect heap cs)

-- the slots of these rings, numbered in order
abbrev pub rings_of : List Ring → Rings
rings_of [] slot = zero_span
rings_of (r ∷ rs) (zero, i) = r.slots i
rings_of (r ∷ rs) (suc c, i) = rings_of rs (c, i)

-- the contexts of a list after a drain
abbrev pub write_back : (ℕ → Option Ring) → List ℕ → List Ring → ℕ → Option Ring
write_back heap [] rs = heap
write_back heap (c ∷ cs) [] = heap
write_back heap (c ∷ cs) (r ∷ rs) = write_back (update heap c (some r)) cs rs

abbrev pub handed_over : Process → Out × List Ring × ℤ → Process × ℤ
handed_over p (out', rs, n) = (record p { out = out'; heap = write_back p.heap p.threads rs }, n)

abbrev pub drain_all : Process → Option (List Ring) → Option (Process × ℤ)
drain_all p none = none
drain_all p (some rs) = some (handed_over p (drain true (rings_of rs) p.out rs))

-- `otel_drain`
unfoldable pub tracer_drain : Process → Option (Process × ℤ)
tracer_drain p =
    if p.switches.enabled then drain_all p (collect p.heap p.threads) else some (p, pos 0)

-- What `otel_thread_unregister` does with the ring of the thread while tracing is enabled.
unfoldable pub last_drain : Rings → Out → Ring → Out
last_drain rings out r =
    let out1 = record out { sink = at_sink out.sink (λ k. call_if k.has_begin k (begin ∷ [])) } in
    let out2 = (drain_ctx rings out1 0 r).0 in
    record {
      otlp = otlp_flush rings out2.otlp;
      sink = at_sink out2.sink (λ k. call_if k.has_end k (end ∷ []));
    }

-- The loop that takes a context from the list; the contexts before it are read.
abbrev pub unlink_past : ℕ → Option Ring → Option (List ℕ) → Option (List ℕ)
unlink_past x none rest = none
unlink_past x (some r) none = none
unlink_past x (some r) (some xs) = some (x ∷ xs)

abbrev pub unlink : (ℕ → Option Ring) → ℕ → List ℕ → Option (List ℕ)
unlink heap c [] = some []
unlink heap c (x ∷ xs) =
    let rest = unlink heap c xs in if x == c then some xs else unlink_past x (heap x) rest

-- the end of `otel_thread_unregister`
abbrev pub freed_of : Process → ℕ → ℕ → Out → Option (List ℕ) → Option Process
freed_of p t c out none = none
freed_of p t c out (some cs) =
    some
      (record p { threads = cs; heap = update p.heap c none; tls = update p.tls t none; out = out })

abbrev pub unregister_in : Process → ℕ → ℕ → Option Ring → Option Process
unregister_in p t c none = none
unregister_in p t c (some r) =
    freed_of p t c (if p.switches.enabled then last_drain (rings_of (r ∷ [])) p.out r else p.out)
      (unlink p.heap c p.threads)

abbrev pub unregister_of : Process → ℕ → Option ℕ → Option Process
unregister_of p t none = some p
unregister_of p t (some c) = unregister_in p t c (p.heap c)

-- `otel_thread_unregister`
unfoldable pub unregister : Process → ℕ → Option Process
unregister p t = unregister_of p t (p.tls t)

-- The loop of `otel_shutdown` that frees the contexts of the list.
abbrev pub free_one : Option Ring → Option (ℕ → Option Ring) → Option (ℕ → Option Ring)
free_one none rest = none
free_one (some r) rest = rest

abbrev pub free_all : (ℕ → Option Ring) → List ℕ → Option (ℕ → Option Ring)
free_all heap [] = some heap
free_all heap (c ∷ cs) = free_one (heap c) (free_all (update heap c none) cs)

abbrev pub torn_down : Process → Option (ℕ → Option Ring) → Option Process
torn_down p none = none
torn_down p (some heap) =
    some (record p { heap = heap; threads = []; switches = stopped p.switches })

abbrev pub after_drain : Option (Process × ℤ) → Option Process
after_drain none = none
after_drain (some (p, n)) = torn_down p (free_all p.heap p.threads)

-- `otel_shutdown`; it leaves `otel_tls` of every thread as it is.
unfoldable pub shutdown : Process → Option Process
shutdown p = if p.switches.initialized then after_drain (tracer_drain p) else some p

-- ===== src/Tracer/Ring/Steps.antt =====
-- Whatever the order of the steps, no span is lost, doubled or torn.
use oteltracing_c.Base.{
  ℕ, suc, ◌+◌, ◌%◌, ◌^◌, ◌≤◌, ◌<◌, ◌≡◌, refl, sym, subst, ap, ◌∙◌, false, List, [], ◌∷◌, ◌++◌,
  arith,
}
use native.Mathlib.Nat.{mod-mod_of_dvd}
use mathlib.Core.List.{append_assoc}
use oteltracing_c.Base.Lists.{length}
use oteltracing_c.Base.Tests.{leb, ◌==◌}
use oteltracing_c.Span.{Span}
use oteltracing_c.Tracer.Ring.{Ring, used, set_slot, publish}
use oteltracing_c.Tracer.Ring.Queue.{
  IsRing, items, used_lem, items-snoc, items-set_slot, head_slot, length-items,
}
use oteltracing_c.Tracer.Ring.Threads.{
  outside, ready, written, away, looping, Shared, Step, check, refuse, copy, store_head, load, emit,
  store_tail, Steps, stop, then_step, start,
}
use oteltracing_c.Tracer.Ring.Safe.{
  Held, Reached, Safe, Reached-more, before, Held-moved, Held-dropped, stepped,
}

check-Safe :
    {t : Shared} (s : Span)
    → Safe t
    → leb t.ring.capacity (used t.ring) ≡ false
    → Safe (record t { producer = ready s })
check-Safe s v room = record {
  from = v.from;
  done = v.done;
  rest = v.rest;
  ring = v.ring;
  history = v.history;
  producer = ground (arith, used_lem v.ring, room);
  consumer = v.consumer;
}

refuse-Safe :
    {t : Shared} (n : ℕ) → Safe t → Safe (record t { ring = record (t.ring) { dropped = n } })
refuse-Safe {t} n v = record {
  from = v.from;
  done = v.done;
  rest = v.rest;
  ring = record {
    tail = v.ring.tail;
    head = v.ring.head;
    fits = v.ring.fits;
    some_slot = v.ring.some_slot;
    power = v.ring.power;
  };
  history = v.history;
  producer = Held-dropped t.ring n v.from (v.done + v.rest) t.producer v.producer;
  consumer = v.consumer;
}

copy-Safe :
    {t : Shared} (s : Span)
    → (v : Safe t) → v.done + v.rest < t.ring.capacity
    → Safe (record t { ring = set_slot t.ring s; producer = written s })
copy-Safe {t} s v room = record {
  from = v.from;
  done = v.done;
  rest = v.rest;
  ring = record {
    tail = v.ring.tail;
    head = v.ring.head;
    fits = v.ring.fits;
    some_slot = v.ring.some_slot;
    power = v.ring.power;
  };
  history =
      v.history
      ∙ ap (λ l. t.emitted ++ l)
          (sym (
            items-set_slot t.ring s (v.from + v.done) v.rest (v.from + (v.done + v.rest))
              (head_slot v.ring) (omega arith) (omega arith)));
  producer = (room, ground (arith, head_slot v.ring));
  consumer = v.consumer;
}

store_head-Safe :
    {t : Shared} (s : Span)
    → (v : Safe t) → Held t.ring v.from (v.done + v.rest) (written s)
    → Safe
        (record t { ring = publish t.ring; producer = outside; accepted = t.accepted ++ (s ∷ []) })
store_head-Safe {t} s v held =
    let same : v.from + v.done + v.rest ≡ v.from + (v.done + v.rest) = omega arith in
    let newest : t.ring.slots ((v.from + v.done + v.rest) % t.ring.capacity) ≡ s =
      ap (λ n. t.ring.slots (n % t.ring.capacity)) same ∙ held.1 in
    record {
      from = v.from;
      done = v.done;
      rest = suc v.rest;
      ring = record {
        tail = v.ring.tail;
        head = omega (arith, v.ring.head);
        fits = omega (arith, held.0);
        some_slot = v.ring.some_slot;
        power = v.ring.power;
      };
      history =
          ap (λ l. l ++ (s ∷ [])) v.history
          ∙ append_assoc t.emitted (items t.ring (v.from + v.done) v.rest) (s ∷ [])
          ∙ ap (λ l. t.emitted ++ l)
              (sym (
                items-snoc t.ring (v.from + v.done) v.rest
                ∙ ap (λ x. items t.ring (v.from + v.done) v.rest ++ (x ∷ [])) newest));
      producer = tt;
      consumer = Reached-more v.from v.done v.rest t.consumer v.consumer;
    }

load-Safe :
    {t : Shared}
    → (v : Safe t) → v.done ≡ 0
    → Safe (record t { consumer = looping t.ring.tail t.ring.head })
load-Safe v nothing = record {
  from = v.from;
  done = v.done;
  rest = v.rest;
  ring = v.ring;
  history = v.history;
  producer = v.producer;
  consumer = (omega (arith, v.ring.tail, nothing), v.rest, omega arith, omega (arith, v.ring.head));
}

emit-Safe :
    {t : Shared} {tail head : ℕ}
    → (v : Safe t) → Reached v.from v.done v.rest (looping tail head)
    → (tail == head) ≡ false
    → Safe (record t {
      consumer = looping ((tail + 1) % 2 ^ 64) head;
      emitted = t.emitted ++ (t.ring.slots (tail % t.ring.capacity) ∷ []);
    })
emit-Safe {t} {tail} {head} v (at, todo, few, end) more =
    let left : 0 < todo = ground (arith, at, end) in
    let (m, is) = before v.rest (omega arith) in
    let place : tail % t.ring.capacity ≡ (v.from + v.done) % t.ring.capacity =
      ap (λ n. n % t.ring.capacity) at
      ∙ mod-mod_of_dvd t.ring.capacity (v.from + v.done) v.ring.power in
    let count : v.done + v.rest ≡ suc v.done + m = omega (arith, is) in
    let next : v.from + v.done + 1 ≡ v.from + suc v.done = omega arith in
    let oldest = t.ring.slots (tail % t.ring.capacity) in
    record {
      from = v.from;
      done = suc v.done;
      rest = m;
      ring = subst (λ n. IsRing t.ring v.from n) count v.ring;
      history =
          v.history
          ∙ ap (λ n. t.emitted ++ items t.ring (v.from + v.done) n) is
          ∙ ap
              (λ n.
                t.emitted
                ++ (t.ring.slots ((v.from + v.done) % t.ring.capacity) ∷ items t.ring n m))
              next
          ∙ ap (λ i. t.emitted ++ (t.ring.slots i ∷ items t.ring (v.from + suc v.done) m))
              (sym place)
          ∙ sym (append_assoc t.emitted (oldest ∷ []) (items t.ring (v.from + suc v.done) m));
      producer = subst (λ n. Held t.ring v.from n t.producer) count v.producer;
      consumer = stepped v.from v.done left few at end is;
    }

store_tail-Safe :
    {t : Shared} {tail head : ℕ}
    → (v : Safe t) → Reached v.from v.done v.rest (looping tail head)
    → Safe (record t { ring = record (t.ring) { tail = tail }; consumer = away })
store_tail-Safe {t} {tail} v at =
    let place : v.from + v.done ≡ v.from + v.done + 0 = omega arith in
    record {
      from = v.from + v.done;
      done = 0;
      rest = v.rest;
      ring = record {
        tail = at.0;
        head = omega (arith, v.ring.head);
        fits = omega (arith, v.ring.fits);
        some_slot = v.ring.some_slot;
        power = v.ring.power;
      };
      history = v.history ∙ ap (λ n. t.emitted ++ items t.ring n v.rest) place;
      producer = Held-moved t.ring v.from v.done v.rest tail t.producer v.producer;
      consumer = refl;
    }

Step-Safe : {t u : Shared} → Safe t → Step t u → Safe u
Step-Safe v (check s e room) = check-Safe s v room
Step-Safe v (refuse e full) = refuse-Safe _ v
Step-Safe v (copy s e) = copy-Safe s v (rw e at v.producer)
Step-Safe v (store_head s e) = store_head-Safe s v (rw e at v.producer)
Step-Safe v (load e) = load-Safe v (rw e at v.consumer)
Step-Safe v (emit tail head e more) = emit-Safe v (rw e at v.consumer) more
Step-Safe v (store_tail tail head e same) = store_tail-Safe v (rw e at v.consumer)

-- In every interleaving the spans published are those emitted and then those still in the ring.
pub Steps-Safe : {t u : Shared} → Safe t → Steps t u → Safe u
Steps-Safe v stop = v
Steps-Safe v (then_step steps step) = Step-Safe (Steps-Safe v steps) step

-- a ring that is empty and that nothing runs on
pub start-Safe : {r : Ring} (from : ℕ) → IsRing r from 0 → Safe (start r)
start-Safe from v = record {
  from = from;
  done = 0;
  rest = 0;
  ring = v;
  history = refl;
  producer = tt;
  consumer = refl;
}

-- Take an empty ring whose capacity is at most 2^31 and divides 2^64, wherever its cursors stand,
-- and any interleaving of the steps of the thread that ends spans (test of the cursors, copy into
-- the slot, store of head) with those of a drain (load of the cursors, emission of a slot, store
-- of tail). The spans published are then those emitted, in the same order, followed by some that
-- wait, which are no more than the capacity: none is lost, doubled, reordered or overwritten
-- before it is emitted.
pub Steps-in_order :
    {r : Ring} {u : Shared} (from : ℕ)
    → IsRing r from 0
    → Steps (start r) u
    → (waiting : List Span) × (u.accepted ≡ u.emitted ++ waiting)
      × (length waiting ≤ u.ring.capacity)
Steps-in_order {u = u} from v steps =
    let w = Steps-Safe (start-Safe from v) steps in
    (
      items u.ring (w.from + w.done) w.rest,
      w.history,
      omega (arith, length-items u.ring (w.from + w.done) w.rest, w.ring.fits),
    )

-- ===== src/Tracer/Ring/Queue.antt =====
-- A ring is a queue of at most `capacity` spans, whatever its 64-bit cursors have counted.
use oteltracing_c.Base.{
  ℕ, zero, suc, ◌+◌, ◌*◌, ◌/◌, ◌%◌, ◌^◌, ◌≤◌, ◌<◌, ◌≡◌, ◌≢◌, refl, sym, ap, ap₂, ◌∙◌, inl, inr,
  true, false, List, [], ◌∷◌, ◌++◌, map, arith,
}
use oteltracing_c.Base.Lists.{length}
use oteltracing_c.Base.Tests.{leb, ◌==◌, if◌then◌else◌, Bool-cases}
use Prim.Native.Nat.{◌∣◌}
use oteltracing_c.Span.{Span}
use oteltracing_c.Tracer.Ring.{Ring, used, set_slot, publish, enqueue, drained, emptied}
use native.Mathlib.Nat.{mod-mod_of_dvd, div-add-mod, mul-le-mul_left}

-- The spans in the `n` slots from the cursor `t` on, oldest first.
abbrev pub window : (ℕ → Span) → (capacity : ℕ) → ℕ → ℕ → List Span
window slots capacity t zero = []
window slots capacity t (suc n) = slots (t % capacity) ∷ window slots capacity (t + 1) n

abbrev pub items : Ring → ℕ → ℕ → List Span
items r t n = window r.slots r.capacity t n

-- The cursors are `from` and `from + count`, wrapped to 64 bits, and no more than all slots are used.
pub record IsRing (r : Ring) (from count : ℕ) : Type 0 where
  pub tail : r.tail ≡ from % 2 ^ 64
  pub head : r.head ≡ (from + count) % 2 ^ 64
  pub fits : count ≤ r.capacity
  pub some_slot : (0 < r.capacity) × (r.capacity ≤ 2 ^ 31)
  pub power : r.capacity ∣ 2 ^ 64

-- Two cursors less than `c` apart have different slots.
pub slots_apart : (a b c : ℕ) → a < b → b < a + c → a % c ≢ b % c
slots_apart a b c h k e =
    let da = div-add-mod a c in
    let db = div-add-mod b c in
    elim (Bool-cases (leb (b / c) (a / c))) [
      | inl le ↦
          let m : c * (b / c) ≤ c * (a / c) = mul-le-mul_left c (ground arith) in
          omega (arith, da, db, m, e)
      | inr gt ↦
          let m : c * (a / c + 1) ≤ c * (b / c) = mul-le-mul_left c (ground arith) in
          omega (arith, da, db, m, e)
    ]

pub used_lem : {r : Ring} {from count : ℕ} → IsRing r from count → used r ≡ count
unfolding used
used_lem {r} {from} {count} v = omega (arith, v.tail, v.head, v.fits, v.some_slot)

pub items-snoc :
    (r : Ring) (t n : ℕ) → items r t (suc n) ≡ items r t n ++ (r.slots ((t + n) % r.capacity) ∷ [])
items-snoc r t zero = let e : t ≡ t + 0 = omega arith in ap (λ x. r.slots (x % r.capacity) ∷ []) e
items-snoc r t (suc n) =
    ap (λ l. r.slots (t % r.capacity) ∷ l) (items-snoc r (t + 1) n)
    ∙ (let e : t + 1 + n ≡ t + suc n = omega arith in
        ap (λ x. items r t (suc n) ++ (r.slots (x % r.capacity) ∷ [])) e)

pub items-set_slot :
    (r : Ring) (s : Span) (t n at : ℕ)
    → r.head % r.capacity ≡ at % r.capacity
    → t + n ≤ at
    → at < t + r.capacity
    → items (set_slot r s) t n ≡ items r t n
items-set_slot r s t zero at h k l = refl
items-set_slot r s t (suc n) at h k l =
    let miss : (t % r.capacity == (r.head % r.capacity)) ≡ false =
      ground (arith, slots_apart t at r.capacity, h) in
    ap₂ ◌∷◌ (ground (arith, miss)) (items-set_slot r s (t + 1) n at h (omega arith) (omega arith))

pub head_slot :
    {r : Ring} {from count : ℕ}
    → IsRing r from count
    → r.head % r.capacity ≡ (from + count) % r.capacity
head_slot {r} {from} {count} v =
    ap (λ x. x % r.capacity) v.head ∙ mod-mod_of_dvd r.capacity (from + count) v.power

tail_slot :
    {r : Ring} {from count : ℕ} → IsRing r from count → r.tail % r.capacity ≡ from % r.capacity
tail_slot {r} {from} {count} v =
    ap (λ x. x % r.capacity) v.tail ∙ mod-mod_of_dvd r.capacity from v.power

-- A write to the slot at the head leaves the spans in the ring, and then is the span behind them.
pub items-written :
    {r : Ring} {from count : ℕ} (s : Span)
    → IsRing r from count
    → count < r.capacity
    → items (set_slot r s) from (suc count) ≡ items r from count ++ (s ∷ [])
items-written {r} {from} {count} s v room =
    let hit : (set_slot r s).slots ((from + count) % r.capacity) ≡ s =
      ground (arith, head_slot v) in
    items-snoc (set_slot r s) from count
    ∙ ap₂ (λ l x. l ++ (x ∷ []))
        (items-set_slot r s from count (from + count) (head_slot v) (omega arith) (omega arith)) hit

published :
    {r : Ring} {from count : ℕ} (s : Span)
    → IsRing r from count
    → count < r.capacity
    → IsRing (publish (set_slot r s)) from (suc count)
published s v room = record {
  tail = v.tail;
  head = omega (arith, v.head);
  fits = omega arith;
  some_slot = v.some_slot;
  power = v.power;
}

kept :
    {r : Ring} {n from count : ℕ}
    → IsRing r from count
    → IsRing (record r { dropped = n }) from count
kept v = record {
  tail = v.tail;
  head = v.head;
  fits = v.fits;
  some_slot = v.some_slot;
  power = v.power;
}

-- a ring that holds these spans
pub record Holds (r : Ring) (xs : List Span) : Type 0 where
  pub from : ℕ
  pub count : ℕ
  pub ring : IsRing r from count
  pub content : items r from count ≡ xs

pub length-items : (r : Ring) (t n : ℕ) → length (items r t n) ≡ n
length-items r t zero = refl
length-items r t (suc n) = ap suc (length-items r (t + 1) n)

pub Holds-le : {r : Ring} {xs : List Span} → Holds r xs → length xs ≤ r.capacity
Holds-le {r} h = omega (arith, ap length h.content, length-items r h.from h.count, h.ring.fits)

-- If a ring holds the spans xs, enqueue reports a loss exactly when xs is as long as the capacity;
-- then the ring still holds xs and counts one more dropped span modulo 2^64, and otherwise it
-- holds xs followed by the span, with the same count.
pub enqueue-Holds :
    (r : Ring) (xs : List Span) (s : Span)
    → Holds r xs
    → let (r', lost) = enqueue r s in
      (lost ≡ leb r.capacity (length xs))
      × Holds r' (if lost then xs else xs ++ (s ∷ []))
      × (r'.dropped ≡ (if lost then (r.dropped + 1) % 2 ^ 64 else r.dropped))
unfolding enqueue
enqueue-Holds r xs s h =
    let u = used_lem h.ring in
    let n : length xs ≡ h.count = sym (ap length h.content) ∙ length-items r h.from h.count in
    elim (Bool-cases (leb r.capacity h.count)) [
      | inl full ↦
          rw (u, n, full)
            (
              refl,
              record { from = h.from; count = h.count; ring = kept h.ring; content = h.content },
              refl,
            )
      | inr room ↦
          let fits : h.count < r.capacity = ground arith in
          rw (u, n, room)
            (
              refl,
              record {
                from = h.from;
                count = suc h.count;
                ring = published s h.ring fits;
                content = items-written s h.ring fits ∙ ap (λ l. l ++ (s ∷ [])) h.content;
              },
              refl,
            )
    ]

drained-items :
    (f : ℕ) {r : Ring} {from count : ℕ} (t n : ℕ)
    → IsRing r from count
    → t + n ≡ from + count
    → n ≤ count
    → n < f
    → map r.slots (drained f r (t % 2 ^ 64)) ≡ items r t n
unfolding drained
drained-items zero t n v e le h = absurd (omega arith)
drained-items (suc f) {r} t zero v e le h =
    let stop : (t % 2 ^ 64 == r.head) ≡ true = ground (arith, v.head) in rw stop refl
drained-items (suc f) {r} t (suc n) v e le h =
    let more : (t % 2 ^ 64 == r.head) ≡ false = ground (arith, v.head, v.fits, v.some_slot) in
    let next : (t % 2 ^ 64 + 1) % 2 ^ 64 ≡ (t + 1) % 2 ^ 64 = omega arith in
    rw (more, next)
      (ap₂ (λ x l. r.slots x ∷ l) (mod-mod_of_dvd r.capacity t v.power)
        (drained-items f (t + 1) n v (omega arith) (omega arith) (omega arith)))

-- If a ring holds the spans xs, then with fuel greater than the length of xs the loop of the drain
-- visits the slots of exactly these spans in their order, and with tail set to head the ring holds
-- none.
pub drained-Holds :
    (f : ℕ) (r : Ring) (xs : List Span)
    → Holds r xs
    → length xs < f
    → (map r.slots (drained f r r.tail) ≡ xs) × Holds (emptied r) []
drained-Holds f r xs h enough =
    let n : length xs ≡ h.count = sym (ap length h.content) ∙ length-items r h.from h.count in
    (
      ap (λ c. map r.slots (drained f r c)) h.ring.tail
          ∙ drained-items f h.from h.count h.ring refl (omega arith) (omega (arith, n))
          ∙ h.content,
      record {
        from = h.from + h.count;
        count = 0;
        ring = record {
          tail = h.ring.head;
          head = omega (arith, h.ring.head);
          fits = omega arith;
          some_slot = h.ring.some_slot;
          power = h.ring.power;
        };
        content = refl;
      },
    )

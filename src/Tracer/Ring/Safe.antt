-- ===== src/Tracer/Ring/Safe.antt =====
-- What is true of a shared ring between any two steps, and what the producer and the consumer may
-- rely on.
use oteltracing_c.Base.{ℕ, zero, suc, ◌+◌, ◌%◌, ◌^◌, ◌≤◌, ◌<◌, ◌≡◌, refl, ap, ◌∙◌, ◌++◌, arith}
use oteltracing_c.Tracer.Ring.{Ring}
use oteltracing_c.Tracer.Ring.Queue.{IsRing, items}
use oteltracing_c.Tracer.Ring.Threads.{
  Producer, outside, ready, written, Consumer, away, looping, Shared,
}

-- What the producer may rely on.
abbrev pub Held : Ring → ℕ → ℕ → Producer → Type 0
Held r from count outside = Unit {0}
Held r from count (ready s) = count < r.capacity
Held r from count (written s) = (count < r.capacity) × (r.slots ((from + count) % r.capacity) ≡ s)

-- Where the consumer is: `done` spans past `tail`, with `rest` behind them.
abbrev pub Reached : ℕ → ℕ → ℕ → Consumer → Type 0
Reached from done rest away = done ≡ 0
Reached from done rest (looping tail head) =
    (tail ≡ (from + done) % 2 ^ 64)
    × (todo : ℕ) × (todo ≤ rest)
    × (head ≡ (from + done + todo) % 2 ^ 64)

-- The spans published are those emitted and then those that wait in the ring, in order.
pub record Safe (t : Shared) : Type 0 where
  pub from : ℕ
  pub done : ℕ
  pub rest : ℕ
  pub ring : IsRing t.ring from (done + rest)
  pub history : t.accepted ≡ t.emitted ++ items t.ring (from + done) rest
  pub producer : Held t.ring from (done + rest) t.producer
  pub consumer : Reached from done rest t.consumer

pub Reached-more :
    (from done rest : ℕ) (c : Consumer) → Reached from done rest c → Reached from done (suc rest) c
Reached-more from done rest away h = h
Reached-more from done rest (looping tail head) h = (h.0, h.1, omega (arith, h.2), h.3)

pub before : (n : ℕ) → 0 < n → (m : ℕ) × (n ≡ suc m)
before zero h = absurd (omega arith)
before (suc m) h = (m, refl)

-- The producer does not see that spans left the ring.
pub Held-moved :
    (r : Ring) (from done rest tail : ℕ) (p : Producer)
    → Held r from (done + rest) p
    → Held (record r { tail = tail }) (from + done) (0 + rest) p
Held-moved r from done rest tail outside h = tt
Held-moved r from done rest tail (ready s) h = omega (arith, h)
Held-moved r from done rest tail (written s) h =
    let same : from + done + (0 + rest) ≡ from + (done + rest) = omega arith in
    (omega (arith, h.0), ap (λ n. r.slots (n % r.capacity)) same ∙ h.1)

pub Held-dropped :
    (r : Ring) (n from count : ℕ) (p : Producer)
    → Held r from count p
    → Held (record r { dropped = n }) from count p
Held-dropped r n from count outside h = tt
Held-dropped r n from count (ready s) h = h
Held-dropped r n from count (written s) h = h

-- The consumer went one span on.
pub stepped :
    (from done : ℕ) {rest m tail head todo : ℕ}
    → 0 < todo
    → todo ≤ rest
    → tail ≡ (from + done) % 2 ^ 64
    → head ≡ (from + done + todo) % 2 ^ 64
    → rest ≡ suc m
    → Reached from (suc done) m (looping ((tail + 1) % 2 ^ 64) head)
stepped from done {todo = todo} left few at end is =
    let (k, more) = before todo left in
    (omega (arith, at), k, omega (arith, more, few, is), omega (arith, end, more))

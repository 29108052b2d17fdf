-- ===== src/Tracer/Ring/Register.antt =====
-- The ring of a newly registered thread is empty and has a capacity that its cursors can count with.
use oteltracing_c.Base.{
  zero, suc, ◌≤◌, ℕ, ◌+◌, ◌-◌, ◌*◌, ◌^◌, ◌≡◌, refl, sym, subst, ap, ◌∙◌, none, some, [], arith,
}
use Prim.Native.Nat.{◌∣◌}
use native.Mathlib.Nat.{dvd_refl, dvd-mul_right_of_dvd, pow-suc, pow-le-pow_right}
use oteltracing_c.Tracer.Capacity.{IsCapacity}
use oteltracing_c.Tracer.Ring.{Ring, Home, new_ring, thread_register}
use oteltracing_c.Tracer.Ring.Queue.{Holds, IsRing}

dvd_more : (k j : ℕ) → 2 ^ k ∣ 2 ^ (k + j)
dvd_more k zero = let e : k ≡ k + 0 = omega arith in subst (λ n. 2 ^ k ∣ 2 ^ n) e (dvd_refl (2 ^ k))
dvd_more k (suc j) =
    let e : 2 ^ (k + j) * 2 ≡ 2 ^ (k + suc j) =
      sym (pow-suc 2 (k + j)) ∙ ap (λ n. 2 ^ n) (omega arith) in
    subst (λ n. 2 ^ k ∣ n) e (dvd-mul_right_of_dvd (2 ^ k) (dvd_more k j) 2)

dvd_64 : (k : ℕ) → k ≤ 31 → 2 ^ k ∣ 2 ^ 64
dvd_64 k h =
    let e : k + (64 - k) ≡ 64 = omega arith in subst (λ n. 2 ^ k ∣ 2 ^ n) e (dvd_more k (64 - k))

pub new_ring-IsRing : (spans size : ℕ) → IsCapacity spans size → IsRing (new_ring size) 0 0
new_ring-IsRing spans size v =
    let small : 2 ^ v.exponent ≤ 2 ^ 31 = pow-le-pow_right (omega arith) (v.bounds.1) in
    record {
      tail = refl;
      head = refl;
      fits = omega arith;
      some_slot = omega (arith, v.least, v.power, small);
      power = subst (λ n. n ∣ 2 ^ 64) (sym v.power) (dvd_64 v.exponent v.bounds.1);
    }

pub new_ring-Holds : (spans size : ℕ) → IsCapacity spans size → Holds (new_ring size) []
new_ring-Holds spans size v = record {
  from = 0;
  count = 0;
  ring = new_ring-IsRing spans size v;
  content = refl;
}

-- If a capacity is a power of two as set_ring_capacity chooses it, then thread_register gives a
-- thread that was not registered a ring of that capacity that holds no spans.
pub thread_register-Holds :
    (spans size : ℕ) (h : Home)
    → IsCapacity spans size
    → h.ctx ≡ none
    → (r : Ring) × ((thread_register size h).ctx ≡ some r) × (r.capacity ≡ size) × Holds r []
unfolding thread_register
thread_register-Holds spans size h v e =
    (new_ring size, rw e refl, refl, new_ring-Holds spans size v)

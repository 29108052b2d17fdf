-- ===== src/Sqlite/Flusher/Joins.antt =====
-- The close ends, and what it leaves is what `sqlite_close` takes for the stop of the thread.
use oteltracing_c.Base.{
  inr, inl, ◌⊎◌, ℕ, ◌≡◌, refl, sym, ◌∙◌, ap, Bool, true, false, List, [], ◌+◌, ◌≤◌, suc, arith,
}
use oteltracing_c.Tracer.Drain.{SinkCall}
use oteltracing_c.Sqlite.{Sqlite}
use oteltracing_c.Sqlite.Open.{World, stop_thread}
use oteltracing_c.Sqlite.Flusher.{
  Lock, nobody, of_flusher, of_closer, Flusher, locking, testing, waiting, woken, draining, leaving,
  returned, Closer, away, locked, cleared, signalled, joining, joined, Shared, Step, lock, wait,
  wake, unlock, drain, leave, finish, close_lock, close_clear, close_signal, close_unlock,
  close_join, Run, stay, more, created,
}
use oteltracing_c.Sqlite.Flusher.Measure.{
  inside, closing, by_flusher, by_closer, runs, flusher_left, closer_left, mark, drain_all, Sound,
  drain_all-thread, Sound-running,
}
use oteltracing_c.Sqlite.Flusher.Safe.{alone, created-Sound, Run-Sound}

-- past `otel_mutex_lock` of the close
called : Closer → Bool
called away = false
called locked = true
called cleared = true
called signalled = true
called joining = true
called joined = true

cleared_by : (c : Closer) → called c ≡ true → closing c ≡ false → runs c ≡ false
unfolding called closing runs
cleared_by away h k = sym h
cleared_by locked h k = k
cleared_by cleared h k = refl
cleared_by signalled h k = refl
cleared_by joining h k = refl
cleared_by joined h k = refl

empty_lock : (l : Lock) → by_flusher l ≡ false → by_closer l ≡ false → l ≡ nobody
unfolding by_flusher by_closer
empty_lock nobody h k = refl
empty_lock of_flusher h k = absurd (cc h)
empty_lock of_closer h k = absurd (cc k)

module _ (q : Sqlite) (w : World q) (on : w.s.running ≡ true) where
  abbrev left : Shared q → ℕ
  left t = flusher_left t.flusher + closer_left t.closer

  -- Once the closing thread had the lock, each step is one less to do.
  step-left :
      (t u : Shared q)
      → Sound q w t
      → called t.closer ≡ true
      → Step q t u
      → (called u.closer ≡ true) × (left t ≡ suc (left u))
  unfolding called flusher_left closer_left inside
  step-left t u v h (lock e f) = (h, omega (arith, ap flusher_left e))
  step-left t u v h (wait e run) =
      let off = cleared_by t.closer h ((alone q w t v).0 (ap inside e)) in
      let x : true ≡ false = sym run ∙ Sound-running q w t on v ∙ off in absurd (cc x)
  step-left t u v h (wake e f) = (h, omega (arith, ap flusher_left e))
  step-left t u v h (unlock e) = (h, omega (arith, ap flusher_left e))
  step-left t u v h (drain cs e) = (h, omega (arith, ap flusher_left e))
  step-left t u v h (leave e off) = (h, omega (arith, ap flusher_left e))
  step-left t u v h (finish e) = (h, omega (arith, ap flusher_left e))
  step-left t u v h (close_lock e have f) = (refl, omega (arith, ap closer_left e))
  step-left t u v h (close_clear e) = (refl, omega (arith, ap closer_left e))
  step-left t u v h (close_signal e) = (refl, omega (arith, ap closer_left e))
  step-left t u v h (close_unlock e) = (refl, omega (arith, ap closer_left e))
  step-left t u v h (close_join e r) = (refl, omega (arith, ap closer_left e))

  Run-left :
      (t : Shared q) (n : ℕ) (u : Shared q)
      → Sound q w t
      → called t.closer ≡ true
      → Run q t n u
      → (called u.closer ≡ true) × (left t ≡ n + left u)
  Run-left t n u v h stay = (h, omega arith)
  Run-left t (suc n) u v h (more {u = m} r s) =
      let (k, so_far) = Run-left t n m v h r in
      let (k', one) = step-left m u (Run-Sound q w t n m v r) k s in
      (k', omega (arith, so_far, one))

  next :
      (t : Shared q)
      → Sound q w t
      → (f : Flusher) (c : Closer) → t.flusher ≡ f
      → t.closer ≡ c
      → called c ≡ true
      → ((u : Shared q) × Step q t u) ⊎ (t.closer ≡ joined)
  unfolding called inside closing runs
  next t v f away e d h = absurd (cc h)
  next t v f locked e d h = inl (_, close_clear d)
  next t v f cleared e d h = inl (_, close_signal d)
  next t v f signalled e d h = inl (_, close_unlock d)
  next t v f joined e d h = inr d
  next t v locking joining e d h =
      inl (_, lock e (empty_lock t.lock (v.flusher ∙ ap inside e) (v.closer ∙ ap closing d)))
  next t v testing joining e d h = inl (_, leave e (Sound-running q w t on v ∙ ap runs d))
  next t v waiting joining e d h =
      inl (_, wake e (empty_lock t.lock (v.flusher ∙ ap inside e) (v.closer ∙ ap closing d)))
  next t v woken joining e d h = inl (_, unlock e)
  next t v draining joining e d h = inl (_, drain [] e)
  next t v leaving joining e d h = inl (_, finish e)
  next t v returned joining e d h = inl (_, close_join d e)

  most : (f : Flusher) → flusher_left f ≤ 6
  unfolding flusher_left
  most locking = omega arith
  most testing = omega arith
  most waiting = omega arith
  most woken = omega arith
  most draining = omega arith
  most leaving = omega arith
  most returned = omega arith

  stopped :
      w.s.have_thread ≡ true
      → (bs : List (List SinkCall))
      → mark q joined (drain_all q w bs) ≡ stop_thread q (drain_all q w bs)
  unfolding mark stop_thread
  stopped have bs = let yes = (drain_all-thread q w bs).1 ∙ have in rw yes refl

  called_locked : (c : Closer) → c ≡ locked → called c ≡ true
  unfolding called
  called_locked c e = ap called e

  bound : (t : Shared q) (m k : ℕ) → t.closer ≡ locked → left t ≡ m + k → m ≤ 10
  unfolding closer_left
  bound t m k e h = omega (arith, h, ap closer_left e, most t.flusher)

  -- Take a store whose flusher thread was created and runs, any interleaving of the steps of the
  -- flusher and of a close up to a state in which the close has just taken the lock, and any m
  -- steps from there. Then m is at most 10, and after them either one of the two can step, or the
  -- close is past the join, the flusher has returned, and S is what stop_thread makes of the store
  -- after some whole drains, one after the other.
  pub close-Joins :
      w.s.have_thread ≡ true
      → (n m : ℕ) (t u : Shared q) → Run q (created q w) n t
      → t.closer ≡ locked
      → Run q t m u
      → m ≤ 10
        × (((u' : Shared q) × Step q u u')
            ⊎ ((u.closer ≡ joined)
                × (u.flusher ≡ returned)
                × (drains : List (List SinkCall)) × (u.world
                    ≡ stop_thread q (drain_all q w drains))))
  close-Joins have n m t u before at run =
      let v = Run-Sound q w (created q w) n t (created-Sound q w) before in
      let z = Run-Sound q w t m u v run in
      let yes : called t.closer ≡ true = called_locked t.closer at in
      let (still, steps) = Run-left t m u v yes run in
      (
        bound t m (left u) at steps,
        elim (next u z u.flusher u.closer refl refl still) [
          | inl s ↦ inl s
          | inr j ↦ inr (
            j,
            z.ended j,
            z.drains,
            z.world ∙ ap (λ c. mark q c (drain_all q w z.drains)) j ∙ stopped have z.drains,
          )
        ],
      )

-- ===== src/Sqlite/Flusher.antt =====
-- The flusher thread of otel_sqlite.c next to the part of `otel_sqlite_close` that stops it: the
-- steps of `otel_sqlite_flusher` and of the closing thread between two looks at `S.lock`, in any
-- order. What the lock, the condition and the join of the system do is in the guards of the steps.
pub mod Measure
pub mod Joins
pub mod Safe
mod Tests
use oteltracing_c.Base.{◌≡◌, zero, suc, ℕ, true, false, List, []}
use oteltracing_c.Tracer.Drain.{SinkCall}
use oteltracing_c.Sqlite.{Sqlite}
use oteltracing_c.Sqlite.Open.{World, drain_into}

-- who holds `S.lock`
pub data Lock : Type 0 where
  nobody : Lock
  of_flusher : Lock
  of_closer : Lock

-- Where `otel_sqlite_flusher` is: about to take the lock, at the test of its loop, in
-- `otel_cond_wait_ms`, past it, in `otel_drain` with the lock given back, past the loop, and
-- returned.
pub data Flusher : Type 0 where
  locking : Flusher
  testing : Flusher
  waiting : Flusher
  woken : Flusher
  draining : Flusher
  leaving : Flusher
  returned : Flusher

-- Where `otel_sqlite_close` is: not called, past `otel_mutex_lock`, past `S.running = 0`, past the
-- signal, in `otel_thread_join`, and past it.
pub data Closer : Type 0 where
  away : Closer
  locked : Closer
  cleared : Closer
  signalled : Closer
  joining : Closer
  joined : Closer

module _ (q : Sqlite) where
  pub record Shared : Type 0 where
    pub world : World q
    pub lock : Lock
    pub flusher : Flusher
    pub closer : Closer

  -- `S.running = 0`
  abbrev pub clear : World q → World q
  clear w = record w { s = record w.s { running = false } }

  -- `S.have_thread = 0`
  abbrev pub forget : World q → World q
  forget w = record w { s = record w.s { have_thread = false } }

  -- The wait may end at any time, by the signal or by itself; `cs` are the calls of a drain.
  pub data Step (t : Shared) : Shared → Type 0 where
    lock :
        t.flusher ≡ locking
        → t.lock ≡ nobody
        → Step t (record t { lock = of_flusher; flusher = testing })
    wait :
        t.flusher ≡ testing
        → t.world.s.running ≡ true
        → Step t (record t { lock = nobody; flusher = waiting })
    wake :
        t.flusher ≡ waiting
        → t.lock ≡ nobody
        → Step t (record t { lock = of_flusher; flusher = woken })
    unlock : t.flusher ≡ woken → Step t (record t { lock = nobody; flusher = draining })
    drain :
        (cs : List SinkCall)
        → t.flusher ≡ draining
        → Step t (record t { world = drain_into q t.world cs; flusher = locking })
    leave :
        t.flusher ≡ testing → t.world.s.running ≡ false → Step t (record t { flusher = leaving })
    finish : t.flusher ≡ leaving → Step t (record t { lock = nobody; flusher = returned })
    close_lock :
        t.closer ≡ away
        → t.world.s.have_thread ≡ true
        → t.lock ≡ nobody
        → Step t (record t { lock = of_closer; closer = locked })
    close_clear : t.closer ≡ locked → Step t (record t { world = clear t.world; closer = cleared })
    close_signal : t.closer ≡ cleared → Step t (record t { closer = signalled })
    close_unlock : t.closer ≡ signalled → Step t (record t { lock = nobody; closer = joining })
    close_join :
        t.closer ≡ joining
        → t.flusher ≡ returned
        → Step t (record t { world = forget t.world; closer = joined })

  -- runs of a given number of steps
  pub data Run (t : Shared) : ℕ → Shared → Type 0 where
    stay : Run t zero t
    more : {n : ℕ} {u v : Shared} → Run t n u → Step u v → Run t (suc n) v

  -- after `otel_thread_create`
  abbrev pub created : World q → Shared
  created w = record { world = w; lock = nobody; flusher = locking; closer = away }

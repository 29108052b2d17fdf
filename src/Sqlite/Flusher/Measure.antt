-- ===== src/Sqlite/Flusher/Measure.antt =====
-- The lock and the flag between any two steps of the flusher and of the closing thread, and how
-- many steps are left.
use oteltracing_c.Base.{
  [], ◌∷◌, ◌++◌, ℕ, ◌≡◌, refl, ◌∙◌, ap, Bool, true, false, Option, some, none, List,
}
use oteltracing_c.Base.Tests.{if◌then◌else◌}
use oteltracing_c.Tracer.Drain.{SinkCall}
use oteltracing_c.Sqlite.{Sqlite}
use oteltracing_c.Sqlite.Open.{World, drain_into, drain_at}
use oteltracing_c.Sqlite.Flusher.{
  Lock, nobody, of_flusher, of_closer, Flusher, locking, testing, waiting, woken, draining, leaving,
  returned, Closer, away, locked, cleared, signalled, joining, joined, Shared, clear, forget,
}

-- whether the flusher holds the lock there, and the closing thread
unfoldable pub inside : Flusher → Bool
inside locking = false
inside testing = true
inside waiting = false
inside woken = true
inside draining = false
inside leaving = true
inside returned = false

unfoldable pub closing : Closer → Bool
closing away = false
closing locked = true
closing cleared = true
closing signalled = true
closing joining = false
closing joined = false

unfoldable pub by_flusher : Lock → Bool
by_flusher nobody = false
by_flusher of_flusher = true
by_flusher of_closer = false

unfoldable pub by_closer : Lock → Bool
by_closer nobody = false
by_closer of_flusher = false
by_closer of_closer = true

-- `S.running` while the closing thread is there
unfoldable pub runs : Closer → Bool
runs away = true
runs locked = true
runs cleared = false
runs signalled = false
runs joining = false
runs joined = false

-- the steps that each has left
unfoldable pub flusher_left : Flusher → ℕ
flusher_left locking = 3
flusher_left testing = 2
flusher_left waiting = 6
flusher_left woken = 5
flusher_left draining = 4
flusher_left leaving = 1
flusher_left returned = 0

unfoldable pub closer_left : Closer → ℕ
closer_left away = 5
closer_left locked = 4
closer_left cleared = 3
closer_left signalled = 2
closer_left joining = 1
closer_left joined = 0

module _ (q : Sqlite) where
  -- the drains of the flusher, one after the other
  unfoldable pub drain_all : World q → List (List SinkCall) → World q
  drain_all w [] = w
  drain_all w (cs ∷ rest) = drain_all (drain_into q w cs) rest

  -- what the closing thread did to `S` by then
  unfoldable pub mark : Closer → World q → World q
  mark away w = w
  mark locked w = w
  mark cleared w = clear q w
  mark signalled w = clear q w
  mark joining w = clear q w
  mark joined w = forget q (clear q w)

  -- The lock is where the places say, and `S` is what some drains and the closing thread made of
  -- it; the thread is joined when it has returned.
  pub record Sound (w : World q) (t : Shared q) : Type 0 where
    pub flusher : by_flusher t.lock ≡ inside t.flusher
    pub closer : by_closer t.lock ≡ closing t.closer
    pub drains : List (List SinkCall)
    pub world : t.world ≡ mark t.closer (drain_all w drains)
    pub ended : t.closer ≡ joined → t.flusher ≡ returned

  -- A drain goes by the connection and the sink, and leaves the thread of `S` as it is.
  drained :
      (b : Bool) (o : Option q.Db) (w : World q) (cs : List SinkCall)
      → ((if b then drain_at q o (clear q w) cs else clear q w)
          ≡ clear q (if b then drain_at q o w cs else w))
        × ((if b then drain_at q o (forget q w) cs else forget q w)
            ≡ forget q (if b then drain_at q o w cs else w))
        × ((if b then drain_at q o w cs else w).s.running ≡ w.s.running)
        × ((if b then drain_at q o w cs else w).s.have_thread ≡ w.s.have_thread)
  drained false o w cs = (refl, refl, refl, refl)
  drained true none w cs = (refl, refl, refl, refl)
  drained true (some db) w cs = (refl, refl, refl, refl)

  pub mark-drain :
      (c : Closer) (w : World q) (cs : List SinkCall)
      → drain_into q (mark c w) cs ≡ mark c (drain_into q w cs)
  unfolding mark drain_into
  mark-drain away w cs = refl
  mark-drain locked w cs = refl
  mark-drain cleared w cs = (drained w.attached w.s.db w cs).0
  mark-drain signalled w cs = (drained w.attached w.s.db w cs).0
  mark-drain joining w cs = (drained w.attached w.s.db w cs).0
  mark-drain joined w cs =
      (drained w.attached w.s.db (clear q w) cs).1
      ∙ ap (forget q) ((drained w.attached w.s.db w cs).0)

  pub drain_all-snoc :
      (w : World q) (bs : List (List SinkCall)) (cs : List SinkCall)
      → drain_all w (bs ++ (cs ∷ [])) ≡ drain_into q (drain_all w bs) cs
  unfolding drain_all
  drain_all-snoc w [] cs = refl
  drain_all-snoc w (b ∷ bs) cs = drain_all-snoc (drain_into q w b) bs cs

  pub drain_all-thread :
      (w : World q) (bs : List (List SinkCall))
      → ((drain_all w bs).s.running ≡ w.s.running)
        × ((drain_all w bs).s.have_thread ≡ w.s.have_thread)
  unfolding drain_all drain_into
  drain_all-thread w [] = (refl, refl)
  drain_all-thread w (b ∷ bs) =
      let rest = drain_all-thread (drain_into q w b) bs in
      let one = drained w.attached w.s.db w b in (rest.0 ∙ one.2, rest.1 ∙ one.3)

  pub mark-running : (c : Closer) (w : World q) → w.s.running ≡ true → (mark c w).s.running ≡ runs c
  unfolding mark runs
  mark-running away w on = on
  mark-running locked w on = on
  mark-running cleared w on = refl
  mark-running signalled w on = refl
  mark-running joining w on = refl
  mark-running joined w on = refl

  pub Sound-running :
      (w : World q) (t : Shared q)
      → w.s.running ≡ true
      → Sound w t
      → t.world.s.running ≡ runs t.closer
  Sound-running w t on v =
      ap (λ x. x.s.running) v.world
      ∙ mark-running t.closer (drain_all w v.drains) ((drain_all-thread w v.drains).0 ∙ on)

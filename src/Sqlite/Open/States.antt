-- ===== src/Sqlite/Open/States.antt =====
-- The two states that a store is in between calls, whatever SQLite and the system return.
use oteltracing_c.Base.{
  ℕ, ◌≡◌, ◌⊎◌, inl, inr, refl, sym, ap, subst, ◌∙◌, Bool, Option, none, some, List, [], ◌∷◌,
}
use oteltracing_c.Base.Tests.{if◌then◌else◌, if_ind}
use oteltracing_c.Tracer.Drain.{SinkCall}
use oteltracing_c.Sqlite.{Sqlite}
use oteltracing_c.Sqlite.Open.{
  Host, State, World, zeroed, drain_at, drain_into, sqlite_close, set_max_spans, sqlite_open,
}
use oteltracing_c.Sqlite.Open.Kept.{Counted, IsClosed, sqlite_close-IsClosed, drain_at-Counted}
use oteltracing_c.Sqlite.Open.Outcome.{
  IsOpen, IsIdle, IsIdle-Counted, Outcome, already, failed, opened, sqlite_open-Outcome,
}

module _ (q : Sqlite) where
  -- The calls on a store.
  pub data Op : Type 0 where
    open_call : Host q → (path : List ℕ) → (ms : ℕ) → List SinkCall → Op
    close_call : List SinkCall → Op
    cap_call : ℕ → Op
    drain_call : List SinkCall → Op

  unfoldable pub run_op : World q → Op → World q
  run_op w (open_call h path ms cs) = (sqlite_open q w h path ms cs).0
  run_op w (close_call cs) = sqlite_close q w cs
  run_op w (cap_call n) = set_max_spans q w n
  run_op w (drain_call cs) = drain_into q w cs

  unfoldable pub run_ops : World q → List Op → World q
  run_ops w [] = w
  run_ops w (o ∷ os) = run_ops (run_op w o) os

  -- A store between calls.
  abbrev pub IsStore : World q → Type 0
  IsStore w = IsIdle q w ⊎ IsOpen q w

  IsStore-Counted : (w : World q) → IsStore w → Counted q w
  IsStore-Counted w (inl idle) = IsIdle-Counted q w idle
  IsStore-Counted w (inr v) = v.counted

  IsClosed-IsIdle : (w : World q) → IsClosed q w → IsIdle q w
  IsClosed-IsIdle w c = record {
    zero_state =
        c.zero_state
        ∙ sym (ap (λ (s : State q). record (zeroed q) { max_spans = s.max_spans }) c.zero_state);
    connections = c.connections;
    statements = c.statements;
    sink = c.sink;
    attached = c.attached;
  }

  Outcome-IsStore :
      (w : World q) (ms : ℕ) (r : World q × Bool) → Outcome q w ms r → IsStore w → IsStore r.0
  Outcome-IsStore w ms _ (already e) v = v
  Outcome-IsStore w ms _ (failed u c) v = inl (IsClosed-IsIdle u c)
  Outcome-IsStore w ms _ (opened u o) v = inr o.is_open

  set_max_spans-IsStore : (w : World q) (n : ℕ) → IsStore w → IsStore (set_max_spans q w n)
  unfolding set_max_spans
  set_max_spans-IsStore w n (inl v) = inl (record {
    zero_state = ap (λ (s : State q). record s { max_spans = n }) v.zero_state;
    connections = v.connections;
    statements = v.statements;
    sink = v.sink;
    attached = v.attached;
  })
  set_max_spans-IsStore w n (inr v) = inr (record {
    connected = v.connected;
    prepared = v.prepared;
    flusher = v.flusher;
    interval = v.interval;
    attached = v.attached;
    sink = v.sink;
    counted = record { connections = v.counted.connections; statements = v.counted.statements };
  })

  drain_at-IsOpen :
      (o : Option q.Db) (w : World q) (cs : List SinkCall)
      → w.s.db ≡ o
      → IsOpen q w
      → IsOpen q (drain_at q o w cs)
  drain_at-IsOpen none w cs e v = v
  drain_at-IsOpen (some db) w cs e v = record {
    connected = refl;
    prepared = v.prepared;
    flusher = v.flusher;
    interval = v.interval;
    attached = v.attached;
    sink = v.sink;
    counted = drain_at-Counted q (some db) w cs e v.counted;
  }

  drain_into-IsStore : (w : World q) (cs : List SinkCall) → IsStore w → IsStore (drain_into q w cs)
  unfolding drain_into
  drain_into-IsStore w cs (inl v) =
      inl (subst (λ b. IsIdle q (if b then drain_at q w.s.db w cs else w)) (sym v.attached) v)
  drain_into-IsStore w cs (inr v) =
      inr (if_ind (IsOpen q) w.attached (λ on. drain_at-IsOpen w.s.db w cs refl v) (λ off. v))

  run_op-IsStore : (w : World q) (o : Op) → IsStore w → IsStore (run_op w o)
  unfolding run_op
  run_op-IsStore w (open_call h path ms cs) v =
      Outcome-IsStore w ms (sqlite_open q w h path ms cs) (sqlite_open-Outcome q w h path ms cs v) v
  run_op-IsStore w (close_call cs) v =
      inl
        (IsClosed-IsIdle (sqlite_close q w cs) (sqlite_close-IsClosed q w cs (IsStore-Counted w v)))
  run_op-IsStore w (cap_call n) v = set_max_spans-IsStore w n v
  run_op-IsStore w (drain_call cs) v = drain_into-IsStore w cs v

  -- Any sequence of calls of sqlite_open, sqlite_close, set_max_spans and drains, whatever SQLite
  -- and the system return to each, leads from a store that is closed or open to one that is closed
  -- or open: closed means that of S at most the cap is set, no connection and no statement is
  -- held, and the tracer has no sink; open means that there are a connection, four prepared
  -- statements and a running flusher with an interval that is not 0, that the sink is attached to
  -- the tracer, and that each connection opened is closed or in S and each statement prepared is
  -- in S.
  pub run_ops-IsStore : (w : World q) (os : List Op) → IsStore w → IsStore (run_ops w os)
  unfolding run_ops
  run_ops-IsStore w [] v = v
  run_ops-IsStore w (o ∷ os) v = run_ops-IsStore (run_op w o) os (run_op-IsStore w o v)

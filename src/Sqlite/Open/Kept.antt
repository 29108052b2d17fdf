-- ===== src/Sqlite/Open/Kept.antt =====
-- Opening and closing keep count of the handles: no connection and no statement is lost.
use oteltracing_c.Tracer.{recompute_enabled, set_span_sink}
use oteltracing_c.Sqlite.Open.{
  close_db, drain_at, Host, State, World, zeroed, drain_into, stop_thread, release, sqlite_close,
  prepare_all,
}
use oteltracing_c.Sqlite.Schema.{insert_sql}
use oteltracing_c.Base.{
  ℕ, suc, ◌+◌, ◌≡◌, refl, sym, ap, ◌∙◌, Bool, false, Option, none, some, List, [], ◌∷◌, arith,
}
use oteltracing_c.Base.Tests.{if_ind}
use oteltracing_c.Base.Lists.{length, length-append}
use oteltracing_c.Tracer.Drain.{SinkCall}
use oteltracing_c.Sqlite.{Sqlite, Insert}

-- The connections that are open.
abbrev pub held {ℓ} : {A : Type ℓ} → Option A → ℕ
held none = 0
held (some x) = 1

module _ (q : Sqlite) where
  -- Each handle is closed or in `S`.
  pub record Counted (w : World q) : Type 0 where
    pub connections : w.opened ≡ length w.closed + held w.s.db
    pub statements : w.statements ≡ length w.s.prepared

  -- Nothing is open, and the tracer has no sink.
  pub record IsClosed (w : World q) : Type 0 where
    pub zero_state : w.s ≡ zeroed q
    pub connections : w.opened ≡ length w.closed
    pub statements : w.statements ≡ 0
    pub sink : w.switches.sink_present ≡ false
    pub attached : w.attached ≡ false

  pub drain_at-Counted :
      (o : Option q.Db) (w : World q) (cs : List SinkCall)
      → w.s.db ≡ o
      → Counted w
      → Counted (drain_at q o w cs)
  drain_at-Counted none w cs e c = c
  drain_at-Counted (some db) w cs e c = record {
    connections = c.connections ∙ ap (λ o. length w.closed + held o) e;
    statements = c.statements;
  }

  pub drain_into-Counted :
      (w : World q) (cs : List SinkCall) → Counted w → Counted (drain_into q w cs)
  unfolding drain_into
  drain_into-Counted w cs c =
      if_ind Counted w.attached (λ on. drain_at-Counted w.s.db w cs refl c) (λ off. c)

  stop_thread-Counted : (w : World q) → Counted w → Counted (stop_thread q w)
  unfolding stop_thread
  stop_thread-Counted w c =
      if_ind Counted w.s.have_thread
        (λ on. record { connections = c.connections; statements = c.statements }) (λ off. c)

  length-close_db :
      (o : Option q.Db) (closed : List q.Db) → length (close_db q o closed) ≡ length closed + held o
  length-close_db none closed = omega arith
  length-close_db (some db) closed =
      omega (arith, length-append closed (q.close (q.wal_checkpoint db) ∷ []))

  pub sqlite_close-IsClosed :
      (w : World q) (cs : List SinkCall) → Counted w → IsClosed (sqlite_close q w cs)
  unfolding sqlite_close release set_span_sink recompute_enabled
  sqlite_close-IsClosed w cs c =
      let u = drain_into q (stop_thread q w) cs in
      let d = drain_into-Counted (stop_thread q w) cs (stop_thread-Counted w c) in
      record {
        zero_state = refl;
        connections = d.connections ∙ sym (length-close_db u.s.db u.closed);
        statements = omega (arith, d.statements);
        sink = refl;
        attached = refl;
      }

  pub IsClosed-Counted : (w : World q) → IsClosed w → Counted w
  IsClosed-Counted w c = record {
    connections = omega (arith, c.connections, ap (λ (s : State q). held s.db) c.zero_state);
    statements = omega (arith, c.statements, ap (λ (s : State q). length s.prepared) c.zero_state);
  }

  pub prepare_all-Counted :
      (w : World q) (h : Host q) (db : q.Db) (sts : List Insert)
      → Counted w
      → Counted (prepare_all q w h db sts).0
  unfolding prepare_all
  prepare_all-Counted w h db [] c = c
  prepare_all-Counted w h db (st ∷ sts) c =
      if_ind (λ (x : World q × Bool). Counted x.0) (h.prepare db (insert_sql st))
        (λ done.
          prepare_all-Counted
            (record w {
              s = record w.s { prepared = st ∷ w.s.prepared };
              statements = suc w.statements;
            })
            h db sts (record { connections = c.connections; statements = ap suc c.statements }))
        (λ failed. c)

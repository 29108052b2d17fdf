-- ===== src/Sqlite/Open/Outcome.antt =====
-- What `otel_sqlite_open` comes to, and the two states that a store is in between calls.
use oteltracing_c.Base.{
  ℕ, suc, ◌≡◌, ◌≢◌, ◌⊎◌, inl, inr, refl, sym, ap, subst, Bool, true, false, Option, none, some,
  List, [], ◌∷◌, arith,
}
use oteltracing_c.Base.Tests.{◌==◌, if◌then◌else◌, if_ind, Bool-cases}
use oteltracing_c.Base.Lists.{length}
use oteltracing_c.Tracer.{set_span_sink, recompute_enabled}
use oteltracing_c.Tracer.Drain.{SinkCall}
use oteltracing_c.Sqlite.{Sqlite, Insert, ins_span, ins_attr, ins_event, ins_event_attr}
use oteltracing_c.Sqlite.Schema.{schema, version_sql, pragmas, insert_sql}
use oteltracing_c.Sqlite.Open.{
  Host, State, World, zeroed, sqlite_close, exec_all, prepare_all, all_inserts, default_interval_ms,
  start, prepared_start, set_up, opened_with, open_at, sqlite_open,
}
use oteltracing_c.Sqlite.Open.Kept.{
  held, Counted, IsClosed, sqlite_close-IsClosed, prepare_all-Counted,
}

-- `S.ins_event_attr`, `S.ins_event`, `S.ins_attr` and `S.ins_span`
abbrev pub all_prepared : List Insert
all_prepared = ins_event_attr ∷ ins_event ∷ ins_attr ∷ ins_span ∷ []

module _ (q : Sqlite) where
  -- The store is open: there is a connection, each statement is prepared, the flusher runs, the
  -- sink is the tracer's, and each handle is accounted for.
  pub record IsOpen (w : World q) : Type 0 where
    pub connected : held w.s.db ≡ 1
    pub prepared : w.s.prepared ≡ all_prepared
    pub flusher : (w.s.have_thread ≡ true) × (w.s.running ≡ true)
    pub interval : w.s.interval_ms ≢ 0
    pub attached : w.attached ≡ true
    pub sink : w.switches.sink_present ≡ true
    pub counted : Counted q w

  -- The store is closed: nothing is held, and of `S` nothing but the cap is set.
  pub record IsIdle (w : World q) : Type 0 where
    pub zero_state : w.s ≡ record (zeroed q) { max_spans = w.s.max_spans }
    pub connections : w.opened ≡ length w.closed
    pub statements : w.statements ≡ 0
    pub sink : w.switches.sink_present ≡ false
    pub attached : w.attached ≡ false

  -- A call that returned 0: the store is open with the interval and the cap that were asked for.
  pub record Opened (w w' : World q) (ms : ℕ) : Type 0 where
    pub is_open : IsOpen w'
    pub closed : w'.closed ≡ w.closed
    pub interval : w'.s.interval_ms ≡ (if ms == 0 then default_interval_ms else ms)
    pub max_spans : w'.s.max_spans ≡ w.s.max_spans
    pub switches : w'.switches ≡ set_span_sink w.switches true

  -- The outcomes of `otel_sqlite_open`.
  pub data Outcome (w : World q) (ms : ℕ) : World q × Bool → Type 0 where
    already : held w.s.db ≡ 1 → Outcome w ms (w, false)
    failed : (w' : World q) → IsClosed q w' → Outcome w ms (w', false)
    opened : (w' : World q) → Opened w w' ms → Outcome w ms (w', true)

  -- all statements of a list prepared
  abbrev marked : List Insert → World q → World q
  marked [] w = w
  marked (st ∷ sts) w =
      marked sts (record w {
        s = record w.s { prepared = st ∷ w.s.prepared };
        statements = suc w.statements;
      })

  prepare_all-marked :
      (w : World q) (h : Host q) (db : q.Db) (sts : List Insert)
      → (prepare_all q w h db sts).1 ≡ true
      → (prepare_all q w h db sts).0 ≡ marked sts w
  unfolding prepare_all
  prepare_all-marked w h db [] ok = refl
  prepare_all-marked w h db (st ∷ sts) ok = elim (Bool-cases (h.prepare db (insert_sql st))) [
    | inl done ↦ rw done (
        prepare_all-marked
          (record w {
            s = record w.s { prepared = st ∷ w.s.prepared };
            statements = suc w.statements;
          })
          h db sts (rw done at ok))
    | inr refused ↦ absurd (let e : false ≡ true = rw refused at ok in (cc e))
  ]

  pub IsIdle-Counted : (w : World q) → IsIdle w → Counted q w
  IsIdle-Counted w c = record {
    connections = omega (arith, c.connections, ap (λ (s : State q). held s.db) c.zero_state);
    statements = omega (arith, c.statements, ap (λ (s : State q). length s.prepared) c.zero_state);
  }

  closes :
      {w : World q} (ms : ℕ) (u : World q) (cs : List SinkCall)
      → Counted q u
      → Outcome w ms (sqlite_close q u cs, false)
  closes ms u cs c = failed (sqlite_close q u cs) (sqlite_close-IsClosed q u cs c)

  module _ (w : World q) (idle : IsIdle w) (h : Host q) (ms : ℕ) (cs : List SinkCall) where
    interval_positive : (if ms == 0 then default_interval_ms else ms) ≢ 0
    interval_positive = ground arith

    no_statement : w.s.prepared ≡ []
    no_statement = ap (λ (s : State q). s.prepared) idle.zero_state

    abbrev connected_to : q.Db → World q
    connected_to db = record w { s = record w.s { db = some db }; opened = suc w.opened }

    connected_to-Counted : (db : q.Db) → Counted q (connected_to db)
    connected_to-Counted db = record {
      connections = omega (arith, idle.connections);
      statements = omega (arith, idle.statements, ap length no_statement);
    }

    start-Outcome :
        (db : q.Db) → Outcome w ms (start q (marked all_inserts (connected_to db)) h ms cs)
    unfolding start set_span_sink recompute_enabled
    start-Outcome db =
        let c = connected_to-Counted db in
        if_ind (Outcome w ms) h.thread_create
          (λ made. opened _ (record {
            is_open = record {
              connected = refl;
              prepared =
                  ap (λ l. ins_event_attr ∷ ins_event ∷ ins_attr ∷ ins_span ∷ l) no_statement;
              flusher = (refl, refl);
              interval = interval_positive;
              attached = refl;
              sink = refl;
              counted = record {
                connections = c.connections;
                statements = ap (λ n. suc (suc (suc (suc n)))) c.statements;
              };
            };
            closed = refl;
            interval = refl;
            max_spans = refl;
            switches = refl;
          }))
          (λ failed. closes ms _ cs (record {
            connections = c.connections;
            statements = ap (λ n. suc (suc (suc (suc n)))) c.statements;
          }))

    prepared-Outcome :
        (db : q.Db) (r : World q × Bool)
        → (r.1 ≡ true → r.0 ≡ marked all_inserts (connected_to db))
        → Counted q r.0
        → Outcome w ms (prepared_start q r h ms cs)
    unfolding prepared_start
    prepared-Outcome db (u, true) whole c =
        subst (λ x. Outcome w ms (start q x h ms cs)) (sym (whole refl)) (start-Outcome db)
    prepared-Outcome db (u, false) whole c = closes ms u cs c

    set_up-Outcome : (db : q.Db) → Outcome w ms (set_up q (connected_to db) h db ms cs)
    unfolding set_up
    set_up-Outcome db =
        let made = q.exec (exec_all q db pragmas) schema in
        let versioned = (q.exec made.0 version_sql).0 in
        if_ind (Outcome w ms) made.1
          (λ ok.
            prepared-Outcome versioned
              (prepare_all q (connected_to versioned) h versioned all_inserts)
              (prepare_all-marked (connected_to versioned) h versioned all_inserts)
              (prepare_all-Counted q (connected_to versioned) h versioned all_inserts
                (connected_to-Counted versioned)))
          (λ refused. closes ms (connected_to made.0) cs (connected_to-Counted made.0))

    opened_with-Outcome : (r : Option q.Db × Bool) → Outcome w ms (opened_with q w h r ms cs)
    unfolding opened_with
    opened_with-Outcome (none, ok) = closes ms w cs (IsIdle-Counted w idle)
    opened_with-Outcome (some db, ok) =
        if_ind (Outcome w ms) ok (λ good. set_up-Outcome db)
          (λ bad. closes ms (connected_to db) cs (connected_to-Counted db))

  held_already :
      (o : Option q.Db)
      → held o ≡ 1
      → (w : World q) (h : Host q) (path : List ℕ) (ms : ℕ) (cs : List SinkCall) → held w.s.db ≡ 1
      → Outcome w ms (open_at q o w h path ms cs)
  held_already none e w h path ms cs there = absurd (omega (arith, e))
  held_already (some db) e w h path ms cs there = already there

  -- Whatever sqlite3_open, the schema, each sqlite3_prepare_v2 and the creation of the thread
  -- return, sqlite_open on a store that is closed or open has one of three outcomes. The store was
  -- open: -1, and nothing is changed. Some call failed: -1, S is zeroed, every connection opened
  -- was closed, every statement finalized, and the tracer has no sink. Or 0: the store has a
  -- connection, its four statements and the flusher, the sink is the tracer's, the interval is the
  -- one asked for or 250, the cap is kept, the switches are those after set_span_sink, no
  -- connection was closed, and all handles are accounted for.
  pub sqlite_open-Outcome :
      (w : World q) (h : Host q) (path : List ℕ) (ms : ℕ) (cs : List SinkCall)
      → IsIdle w ⊎ IsOpen w
      → Outcome w ms (sqlite_open q w h path ms cs)
  unfolding sqlite_open
  sqlite_open-Outcome w h path ms cs (inl idle) =
      subst (λ o. Outcome w ms (open_at q o w h path ms cs))
        (sym (ap (λ (s : State q). s.db) idle.zero_state))
        (opened_with-Outcome w idle h ms cs (h.sqlite3_open path))
  sqlite_open-Outcome w h path ms cs (inr v) =
      held_already w.s.db v.connected w h path ms cs v.connected

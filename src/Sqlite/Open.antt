-- ===== src/Sqlite/Open.antt =====
-- The life of a store: `otel_sqlite_open`, `otel_sqlite_close` and `otel_sqlite_set_max_spans` of
-- otel_sqlite.c, with what they leave in `S` and in the tracer.
pub mod Bound
pub mod Kept
pub mod Outcome
pub mod States
pub mod Flush
use oteltracing_c.Base.{
  ℕ, zero, suc, ◌+◌, ◌-◌, Bool, true, false, Option, none, some, List, [], ◌∷◌, ◌++◌,
}
use oteltracing_c.Base.Tests.{◌==◌, if◌then◌else◌}
use oteltracing_c.Base.Lists.{length}
use oteltracing_c.Tracer.{Switches, set_span_sink}
use oteltracing_c.Tracer.Drain.{SinkCall}
use oteltracing_c.Sqlite.{Sqlite, Insert, ins_span, ins_attr, ins_event, ins_event_attr}
use oteltracing_c.Sqlite.Schema.{schema, version_sql, pragmas, insert_sql}
use oteltracing_c.Sqlite.Sink.{Store, sink_calls}

-- in the order in which they are prepared
abbrev pub all_inserts : List Insert
all_inserts = ins_span ∷ ins_attr ∷ ins_event ∷ ins_event_attr ∷ []

-- OTEL_SQLITE_DEFAULT_INTERVAL_MS
abbrev pub default_interval_ms : ℕ
default_interval_ms = 250

module _ (q : Sqlite) where
  -- What the calls of one `otel_sqlite_open` return: `sqlite3_open` with the handle that it leaves
  -- and whether it is SQLITE_OK, `sqlite3_prepare_v2`, and whether `otel_thread_create` is 0.
  pub record Host : Type 0 where
    pub sqlite3_open : List ℕ → Option q.Db × Bool
    pub prepare : q.Db → List ℕ → Bool
    pub thread_create : Bool

  -- `S`, with the statements that are not NULL; `sink` says that `S.sink` has its callbacks.
  pub record State : Type 0 where
    pub db : Option q.Db
    pub prepared : List Insert
    pub in_txn : Bool
    pub commits : ℕ
    pub max_spans : ℕ
    pub running : Bool
    pub have_thread : Bool
    pub interval_ms : ℕ
    pub sink : Bool

  -- `memset(&S, 0, sizeof(S))`
  abbrev pub zeroed : State
  zeroed = record {
    db = none;
    prepared = [];
    in_txn = false;
    commits = 0;
    max_spans = 0;
    running = false;
    have_thread = false;
    interval_ms = 0;
    sink = false;
  }

  -- `S` and what is around it: the switches of the tracer, whether its sink is `S.sink`, its
  -- service name, and the handles: how many connections were opened, those as they were
  -- closed, and
  -- how many statements were prepared and not finalized.
  pub record World : Type 0 where
    pub s : State
    pub switches : Switches
    pub attached : Bool
    pub service : List ℕ
    pub opened : ℕ
    pub closed : List q.Db
    pub statements : ℕ

  abbrev pub store_of : World → q.Db → Store q
  store_of w db = record {
    db = db;
    in_txn = w.s.in_txn;
    commits = w.s.commits;
    max_spans = w.s.max_spans;
    service = w.service;
  }

  -- the sink's side of a drain, with the connection `S.db`
  abbrev pub drain_at : Option q.Db → World → List SinkCall → World
  drain_at none w cs = w
  drain_at (some db) w cs =
      let k = sink_calls q (store_of w db) cs in
      record w { s = record w.s { db = some k.db; in_txn = k.in_txn; commits = k.commits } }

  -- `otel_drain`, which makes the calls `cs` if the tracer's sink is `S.sink`
  unfoldable pub drain_into : World → List SinkCall → World
  drain_into w cs = if w.attached then drain_at w.s.db w cs else w

  -- the flusher ends and is joined
  unfoldable pub stop_thread : World → World
  stop_thread w =
      if w.s.have_thread
      then record w { s = record w.s { running = false; have_thread = false } }
      else w

  -- `otel_set_span_sink(NULL)`
  abbrev pub detach : World → World
  detach w = record w { switches = set_span_sink w.switches false; attached = false }

  -- the last checkpoint and `sqlite3_close`
  abbrev pub close_db : Option q.Db → List q.Db → List q.Db
  close_db none closed = closed
  close_db (some db) closed = closed ++ (q.close (q.wal_checkpoint db) ∷ [])

  -- the end of `otel_sqlite_close`: the statements, the connection and the `memset`
  unfoldable pub release : World → World
  release w = record w {
    s = zeroed;
    statements = w.statements - length w.s.prepared;
    closed = close_db w.s.db w.closed;
  }

  -- `otel_sqlite_close`; `cs` are the calls that its drain makes.
  unfoldable pub sqlite_close : World → List SinkCall → World
  sqlite_close w cs = release (detach (drain_into (stop_thread w) cs))

  -- `otel_sqlite_set_max_spans`
  unfoldable pub set_max_spans : World → ℕ → World
  set_max_spans w max_spans = record w { s = record w.s { max_spans = max_spans } }

  -- the calls of `otel_sqlite_exec` whose results are not looked at
  unfoldable pub exec_all : q.Db → List (List ℕ) → q.Db
  exec_all db [] = db
  exec_all db (sql ∷ rest) = exec_all (q.exec db sql).0 rest

  -- the chain of `sqlite3_prepare_v2`, up to the first that fails
  unfoldable pub prepare_all : World → Host → q.Db → List Insert → World × Bool
  prepare_all w h db [] = (w, true)
  prepare_all w h db (st ∷ sts) =
      let rest =
        prepare_all
          (record w {
            s = record w.s { prepared = st ∷ w.s.prepared };
            statements = suc w.statements;
          })
          h db sts in
      if h.prepare db (insert_sql st) then rest else (w, false)

  -- The rest of `otel_sqlite_open` once the statements are prepared.
  unfoldable pub start : World → Host → (flush_interval_ms : ℕ) → List SinkCall → World × Bool
  start w h ms cs =
      let registered = record w {
        s = record w.s {
          sink = true;
          interval_ms = if ms == 0 then default_interval_ms else ms;
          running = true;
        };
        switches = set_span_sink w.switches true;
        attached = true;
      } in
      if h.thread_create
      then (record registered { s = record registered.s { have_thread = true } }, true)
      else (
        sqlite_close (record registered { s = record registered.s { running = false } }) cs,
        false,
      )

  unfoldable pub prepared_start : World × Bool → Host → ℕ → List SinkCall → World × Bool
  prepared_start (w, ok) h ms cs = if ok then start w h ms cs else (sqlite_close w cs, false)

  -- The setting up of a connection that is open.
  unfoldable pub set_up : World → Host → q.Db → ℕ → List SinkCall → World × Bool
  set_up w h db ms cs =
      let (made, ok) = q.exec (exec_all db pragmas) schema in
      let versioned = (q.exec made version_sql).0 in
      if ok
      then prepared_start
          (prepare_all (record w { s = record w.s { db = some versioned } }) h versioned
            all_inserts)
          h ms cs
      else (sqlite_close (record w { s = record w.s { db = some made } }) cs, false)

  -- What follows `sqlite3_open`; SQLITE_OK comes with a handle.
  unfoldable pub opened_with : World → Host → Option q.Db × Bool → ℕ → List SinkCall → World × Bool
  opened_with w h (none, ok) ms cs = (sqlite_close w cs, false)
  opened_with w h (some db, ok) ms cs =
      let w1 = record w { s = record w.s { db = some db }; opened = suc w.opened } in
      if ok then set_up w1 h db ms cs else (sqlite_close w1 cs, false)

  -- the part of `otel_sqlite_open` behind its first test
  abbrev pub open_at :
      Option q.Db → World → Host → (path : List ℕ) → ℕ → List SinkCall → World × Bool
  open_at (some db) w h path ms cs = (w, false)
  open_at none w h path ms cs = opened_with w h (h.sqlite3_open path) ms cs

  -- `otel_sqlite_open`, whose result is `true` for 0 and `false` for -1; `cs` are the calls that
  -- the drain of `otel_sqlite_close` makes where it comes to that.
  unfoldable pub sqlite_open :
      World → Host → (path : List ℕ) → (flush_interval_ms : ℕ) → List SinkCall → World × Bool
  sqlite_open w h path ms cs = open_at w.s.db w h path ms cs

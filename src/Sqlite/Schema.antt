-- ===== src/Sqlite/Schema.antt =====
-- The texts that otel_sqlite.c gives to SQLite when it opens a store: the schema of
-- otel_sqlite_schema.h, the pragmas and the four INSERT statements.
use oteltracing_c.Base.{ℕ, suc, List, [], ◌∷◌, ◌++◌}
use oteltracing_c.Base.Tests.{◌==◌, if◌then◌else◌}
use oteltracing_c.Base.Text.{codes, digits}
use oteltracing_c.Sqlite.{Insert, ins_span, ins_attr, ins_event, ins_event_attr}

-- texts one behind the other
abbrev pub concat : List (List ℕ) → List ℕ
concat [] = []
concat (t ∷ ts) = t ++ concat ts

-- OTEL_SQLITE_SCHEMA, line by line
unfoldable pub schema : List ℕ
schema = concat (
    codes "CREATE TABLE IF NOT EXISTS spans ("
    ∷ codes "  id              INTEGER PRIMARY KEY,"
    ∷ codes "  trace_id        TEXT NOT NULL,"
    ∷ codes "  span_id         TEXT NOT NULL,"
    ∷ codes "  parent_id       TEXT,"
    ∷ codes "  service         TEXT,"
    ∷ codes "  name            TEXT,"
    ∷ codes "  kind            INTEGER,"
    ∷ codes "  status_code     INTEGER,"
    ∷ codes "  status_message  TEXT,"
    ∷ codes "  start_unix_ns   INTEGER,"
    ∷ codes "  end_unix_ns     INTEGER,"
    ∷ codes "  duration_ns     INTEGER,"
    ∷ codes "  dropped_attrs   INTEGER,"
    ∷ codes "  dropped_events  INTEGER"
    ∷ codes ");"
    ∷ codes "CREATE TABLE IF NOT EXISTS span_attrs ("
    ∷ codes "  span    INTEGER NOT NULL,"
    ∷ codes "  key     TEXT,"
    ∷ codes "  type    INTEGER,"
    ∷ codes "  s_val   TEXT,"
    ∷ codes "  i_val   INTEGER,"
    ∷ codes "  d_val   REAL"
    ∷ codes ");"
    ∷ codes "CREATE TABLE IF NOT EXISTS span_events ("
    ∷ codes "  id           INTEGER PRIMARY KEY,"
    ∷ codes "  span         INTEGER NOT NULL,"
    ∷ codes "  name         TEXT,"
    ∷ codes "  time_unix_ns INTEGER"
    ∷ codes ");"
    ∷ codes "CREATE TABLE IF NOT EXISTS span_event_attrs ("
    ∷ codes "  event   INTEGER NOT NULL,"
    ∷ codes "  key     TEXT,"
    ∷ codes "  type    INTEGER,"
    ∷ codes "  s_val   TEXT,"
    ∷ codes "  i_val   INTEGER,"
    ∷ codes "  d_val   REAL"
    ∷ codes ");"
    ∷ codes "CREATE INDEX IF NOT EXISTS idx_spans_trace    ON spans(trace_id);"
    ∷ codes "CREATE INDEX IF NOT EXISTS idx_spans_start    ON spans(start_unix_ns);"
    ∷ codes "CREATE INDEX IF NOT EXISTS idx_spans_name     ON spans(name);"
    ∷ codes "CREATE INDEX IF NOT EXISTS idx_spans_duration ON spans(duration_ns);"
    ∷ codes "CREATE INDEX IF NOT EXISTS idx_attrs_span     ON span_attrs(span);"
    ∷ codes "CREATE INDEX IF NOT EXISTS idx_events_span    ON span_events(span);"
    ∷ codes "CREATE INDEX IF NOT EXISTS idx_event_attrs_event ON span_event_attrs(event);"
    ∷ [])

abbrev pub schema_version : ℕ
schema_version = 2

-- `buf`, "PRAGMA user_version=%d"
unfoldable pub version_sql : List ℕ
version_sql = codes "PRAGMA user_version=" ++ digits 10 schema_version

-- the pragmas, in order
unfoldable pub pragmas : List (List ℕ)
pragmas =
    codes "PRAGMA page_size=8192"
    ∷ codes "PRAGMA journal_mode=WAL"
    ∷ codes "PRAGMA synchronous=NORMAL"
    ∷ codes "PRAGMA temp_store=MEMORY"
    ∷ codes "PRAGMA cache_size=-16384"
    ∷ codes "PRAGMA busy_timeout=5000"
    ∷ codes "PRAGMA wal_autocheckpoint=0"
    ∷ []

-- what `otel_sqlite_open` prepares
unfoldable pub insert_sql : Insert → List ℕ
insert_sql ins_span = concat (
    codes "INSERT INTO spans(trace_id,span_id,parent_id,service,name,kind,"
    ∷ codes "status_code,status_message,start_unix_ns,end_unix_ns,duration_ns,"
    ∷ codes "dropped_attrs,dropped_events) "
    ∷ codes "VALUES(?,?,?,?,?,?,?,?,?,?,?,?,?)"
    ∷ [])
insert_sql ins_attr =
    codes "INSERT INTO span_attrs(span,key,type,s_val,i_val,d_val) " ++ codes "VALUES(?,?,?,?,?,?)"
insert_sql ins_event =
    codes "INSERT INTO span_events(span,name,time_unix_ns) " ++ codes "VALUES(?,?,?)"
insert_sql ins_event_attr =
    codes "INSERT INTO span_event_attrs(event,key,type,s_val,i_val,d_val) "
    ++ codes "VALUES(?,?,?,?,?,?)"

-- how often a byte occurs in a text
abbrev pub count : ℕ → List ℕ → ℕ
count c [] = 0
count c (x ∷ xs) = let rest = count c xs in if x == c then suc rest else rest

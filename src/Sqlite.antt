-- ===== src/Sqlite.antt =====
-- The span store of otel_sqlite.c. SQLite itself is not part of the repository: it is a record of
-- the calls that the sink makes.
pub mod Flusher
pub mod Hex
mod Lite
pub mod Open
pub mod Schema
pub mod Sink
pub mod Tables
mod Tests
use oteltracing_c.Base.{ℕ, Bool, Option, List}
use oteltracing_c.Base.Int.{ℤ}

-- A value bound to a parameter of a statement. A `double` is its 64-bit pattern.
pub data Datum : Type 0 where
  null : Datum
  integer : ℤ → Datum
  real : ℕ → Datum
  text : List ℕ → Datum

-- The four prepared statements, `ins_span`, `ins_attr`, `ins_event`, `ins_event_attr` of `S`.
pub data Insert : Type 0 where
  ins_span : Insert
  ins_attr : Insert
  ins_event : Insert
  ins_event_attr : Insert

-- A connection. `exec` is `sqlite3_exec` and whether it returned SQLITE_OK; `insert` resets, binds
-- and steps a statement, and whether that returned SQLITE_DONE; `max_span_id` runs
-- "SELECT MAX(id) FROM spans", and gives `none` when the statement cannot be prepared. `close`
-- is `sqlite3_close`: the database as a connection that is opened after it finds it.
pub record Sqlite : Type 1 where
  pub Db : Type 0
  pub exec : Db → List ℕ → Db × Bool
  pub insert : Db → Insert → List Datum → Db × Bool
  pub last_insert_rowid : Db → ℕ
  pub max_span_id : Db → Option ℕ
  pub wal_checkpoint : Db → Db
  pub close : Db → Db

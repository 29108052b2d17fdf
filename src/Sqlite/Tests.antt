-- ===== src/Sqlite/Tests.antt =====
-- The theorems about the span store at work on a small database.
use oteltracing_c.Span.Read.{walk_events, walk_attrs}
use oteltracing_c.Sqlite.Sink.{
  insert_events, insert_attrs, sqlite_begin, sqlite_span, Store, sink_calls, sqlite_end, prune,
}
use oteltracing_c.Base.{ap, ◌≡◌, ◌++◌, ◌≤◌, ◌+◌, inl, refl, true, false, some, [], ◌∷◌, arith}
use oteltracing_c.Base.Lists.{length}
use oteltracing_c.Base.Int.{pos}
use oteltracing_c.Base.Tests.{ltb, if◌then◌else◌}
use oteltracing_c.Base.Text.{codes}
use oteltracing_c.Span.Tests.{event_span}
use oteltracing_c.Tracer.Tests.{finished, one_span, one_span-Holds, rings, out, out-IsBatch}
use oteltracing_c.Tracer.Drain.{begin, span, end, drain}
use oteltracing_c.Span.{Attr, Event, signed}
use oteltracing_c.Sqlite.Lite.{Lite, lite, lite-Stores, lite-accepts}
use oteltracing_c.Sqlite.Tables.{Tables, SpanRow, keep}
use oteltracing_c.Sqlite.Sink.Keeps.{IsLinked}
use oteltracing_c.Sqlite.Sink.Integrity.{sink_calls-IsLinked}
use oteltracing_c.Sqlite.Sink.Retention.{prune-retention, prune-huge}
use oteltracing_c.Sqlite.Sink.Stuck.{Nests, sink_calls-stuck}
use oteltracing_c.Sqlite.Sink.Drained.{AllStored, calls_of}
use oteltracing_c.Sqlite.Open.{World, Host, zeroed, sqlite_open, sqlite_close}
use oteltracing_c.Sqlite.Open.Outcome.{IsIdle, Outcome, sqlite_open-Outcome}
use oteltracing_c.Sqlite.Open.States.{
  open_call, close_call, cap_call, drain_call, run_ops, IsStore, run_ops-IsStore,
}
use oteltracing_c.Sqlite.Open.Flush.{sqlite_close-AllStored}

-- three spans, the second with an attribute
abbrev three_rows : Tables
three_rows = record {
  spans =
      record { id = 3; columns = [] }
      ∷ record { id = 5; columns = [] }
      ∷ record { id = 6; columns = [] }
      ∷ [];
  attrs = record { owner = 5; columns = [] } ∷ [];
  events = [];
  event_attrs = [];
}

abbrev three_spans : Lite
three_spans = record {
  tables = three_rows;
  saved = three_rows;
  last = 6;
  busy = false;
  locked = false;
}

three_rows-IsLinked : IsLinked three_rows
three_rows-IsLinked = record {
  keyed = omega arith;
  attrs = (refl, tt);
  events = tt;
  event_attrs = tt;
}

abbrev store : Store lite
store = record {
  db = three_spans;
  in_txn = false;
  commits = 62;
  max_spans = 2;
  service = codes "shop";
}

sink_calls-IsLinked_example :
    IsLinked (sink_calls lite store (begin ∷ span event_span ∷ end ∷ begin ∷ end ∷ [])).db.tables
sink_calls-IsLinked_example =
    sink_calls-IsLinked lite lite-Stores store (begin ∷ span event_span ∷ end ∷ begin ∷ end ∷ [])
      three_rows-IsLinked

prune-retention_example :
    ((prune lite three_spans 2).tables.spans
      ≡ keep (λ (r : SpanRow). ltb 6 (r.id + 2)) three_rows.spans)
    × length (prune lite three_spans 2).tables.spans ≤ 2
prune-retention_example =
    prune-retention lite lite-Stores three_spans 6 2 refl (omega arith) (omega arith) (omega arith)
      three_rows-IsLinked.keyed (lite-accepts three_spans)

prune-huge_example : (prune lite three_spans 18446744073709551615).tables.spans ≡ []
prune-huge_example =
    prune-huge lite lite-Stores three_spans 6 18446744073709551615 refl (omega arith) (omega arith)
      (lite-accepts three_spans)

-- a connection that is in a transaction and whose COMMIT fails
abbrev locked_store : Store lite
locked_store = record store {
  db = record three_spans { busy = true; locked = true };
  in_txn = true;
}

lite-Nests : Nests lite (λ db. db.busy)
lite-Nests = record {
  refused = λ db busy. ap (λ b. if b then (db, false) else (record db { busy = true }, true)) busy;
}

sink_calls-stuck_example :
    sink_calls lite (sqlite_end lite locked_store) (begin ∷ span event_span ∷ end ∷ [])
    ≡ record locked_store { in_txn = false; commits = 63 }
sink_calls-stuck_example =
    sink_calls-stuck lite lite-Nests locked_store refl refl refl refl
      (begin ∷ span event_span ∷ end ∷ [])

-- A world with no store, one with the small database open, and a host on which all goes well.
abbrev no_store : World lite
no_store = record {
  s = zeroed lite;
  switches = record {
    initialized = true;
    transport_present = false;
    sink_present = false;
    runtime_on = true;
    enabled = false;
  };
  attached = false;
  service = codes "shop";
  opened = 0;
  closed = [];
  statements = 0;
}

no_store-IsIdle : IsIdle lite no_store
no_store-IsIdle = record {
  zero_state = refl;
  connections = refl;
  statements = refl;
  sink = refl;
  attached = refl;
}

abbrev host : Host lite
host = record {
  sqlite3_open = λ path. (some three_spans, true);
  prepare = λ db sql. true;
  thread_create = true;
}

sqlite_open-Outcome_example :
    Outcome lite no_store 0 (sqlite_open lite no_store host (codes "spans.db") 0 [])
sqlite_open-Outcome_example =
    sqlite_open-Outcome lite no_store host (codes "spans.db") 0 [] (inl no_store-IsIdle)

run_ops-IsStore_example : IsStore lite (
    run_ops lite no_store (
      cap_call 9
      ∷ open_call host (codes "spans.db") 100 []
      ∷ drain_call (begin ∷ end ∷ [])
      ∷ close_call (begin ∷ end ∷ [])
      ∷ []))
run_ops-IsStore_example =
    run_ops-IsStore lite no_store
      (cap_call 9
        ∷ open_call host (codes "spans.db") 100 []
        ∷ drain_call (begin ∷ end ∷ [])
        ∷ close_call (begin ∷ end ∷ [])
        ∷ [])
      (inl no_store-IsIdle)

abbrev open_store : World lite
open_store = record no_store { s = record (zeroed lite) { db = some three_spans }; attached = true }

sqlite_close-AllStored_example :
    (last : Lite) × ((sqlite_close lite open_store
        (calls_of (drain true rings out (one_span ∷ [])).0.sink)).closed
      ≡ [] ++ (last ∷ []))
    × AllStored (codes "shop") three_rows (finished ∷ []) last.tables
unfolding sink_calls sqlite_span sqlite_begin insert_events insert_attrs walk_events walk_attrs
sqlite_close-AllStored_example =
    sqlite_close-AllStored lite lite-Stores (λ db st cs. refl) rings out (one_span ∷ [])
      ((finished ∷ []) ∷ []) (one_span-Holds, λ i. refl, tt) out-IsBatch refl refl open_store
      three_spans refl refl refl refl refl

abbrev note : Attr
note = record { next = 0; key = 0; val = 0; type = 1; v = signed (pos 7) }

abbrev seen : Event
seen = record {
  next = 0;
  name = 0;
  attr_head = 0;
  attr_tail = 0;
  num_attrs = 0;
  dropped_attrs = 0;
  time_unix_ns = 8;
}

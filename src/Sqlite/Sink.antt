-- ===== src/Sqlite/Sink.antt =====
-- The sink of otel_sqlite.c: `otel_sqlite_insert_attr` and the callbacks `otel_sqlite_begin`,
-- `otel_sqlite_span`, `otel_sqlite_end` with `otel_sqlite_prune`.
pub mod Attrs
pub mod PruneText
pub mod Stored
pub mod Keys
pub mod Keeps
pub mod Integrity
pub mod Retention
pub mod Stuck
pub mod Drained
use oteltracing_c.Base.{
  ℕ, zero, suc, ◌+◌, ◌-◌, ◌%◌, ◌^◌, Bool, true, false, Option, none, some, List, [], ◌∷◌, ◌++◌,
}
use oteltracing_c.Base.Tests.{◌==◌, if◌then◌else◌}
use oteltracing_c.Base.Lists.{take}
use oteltracing_c.Base.Text.{codes, digits}
use oteltracing_c.Base.Int.{ℤ, pos, negsuc, to_int64}
use oteltracing_c.Span.{Span, Attr, Event, nil}
use oteltracing_c.Span.AttrType
use oteltracing_c.Span.Read.{text_of, walk_attrs, walk_events, walk_fuel}
use oteltracing_c.Span.Start.{le_bytes}
use oteltracing_c.Otlp.{num_i, num_u, num_d, num_b}
use oteltracing_c.Tracer.Drain.{SinkCall, begin, span, end}
use oteltracing_c.Sqlite.{
  Sqlite, Datum, null, integer, real, text, Insert, ins_span, ins_attr, ins_event, ins_event_attr,
}
use oteltracing_c.Sqlite.Hex.{hex}

-- `otel_span_strv`, as the C string that SQLite copies
abbrev pub strv : Span → ℕ → List ℕ
strv s off = if off == nil then [] else text_of (s.arena off)

-- The bindings of `s_val`, `i_val` and `d_val` in `otel_sqlite_insert_attr`.
unfoldable pub value_columns : Span → Attr → List Datum
value_columns s a =
    if a.type == AttrType.str
    then text (strv s a.val) ∷ null ∷ null ∷ []
    else if a.type == AttrType.i64
    then null ∷ integer (num_i a.v) ∷ null ∷ []
    else if a.type == AttrType.u64
    then null ∷ integer (to_int64 (num_u a.v)) ∷ null ∷ []
    else if a.type == AttrType.f64
    then null ∷ null ∷ real (num_d a.v) ∷ []
    else if a.type == AttrType.bool
    then null ∷ integer (pos (if num_b a.v == 0 then 0 else 1)) ∷ null ∷ []
    else null ∷ null ∷ null ∷ []

-- the columns of an attribute behind its owner
unfoldable pub attr_columns : Span → Attr → List Datum
attr_columns s a = text (strv s a.key) ∷ integer (pos a.type) ∷ value_columns s a

-- The bindings of `ins_span`; `service` is what `otel_service_name` returns.
unfoldable pub span_columns : List ℕ → Span → List Datum
span_columns service s =
    text (hex s.trace_id)
    ∷ text (hex (le_bytes 8 s.span_id))
    ∷ (if s.parent_id == 0 then null else text (hex (le_bytes 8 s.parent_id)))
    ∷ text service
    ∷ text (strv s s.name)
    ∷ integer (pos s.kind)
    ∷ integer (pos s.status)
    ∷ text (strv s s.status_message)
    ∷ integer (to_int64 s.start_unix_ns)
    ∷ integer (to_int64 s.end_unix_ns)
    ∷ integer (to_int64 ((s.end_unix_ns + 2 ^ 64 - s.start_unix_ns) % 2 ^ 64))
    ∷ integer (pos s.dropped_attrs)
    ∷ integer (pos s.dropped_events)
    ∷ []

-- the columns of an event behind its span
unfoldable pub event_columns : Span → Event → List Datum
event_columns s e = text (strv s e.name) ∷ integer (to_int64 e.time_unix_ns) ∷ []

-- OTEL_SQLITE_MAINT_EVERY
abbrev pub maint_every : ℕ
maint_every = 64

-- The text that `otel_sqlite_prune` builds, before it is cut to its buffer of 512 bytes.
abbrev pub prune_text : ℕ → List ℕ
prune_text cutoff =
    codes "DELETE FROM span_event_attrs WHERE event IN (SELECT id FROM span_events WHERE span <= "
    ++ (digits 19 cutoff
        ++ (codes ");DELETE FROM span_attrs WHERE span <= "
            ++ (digits 19 cutoff
                ++ (codes ";DELETE FROM span_events WHERE span <= "
                    ++ (digits 19 cutoff
                        ++ (codes ";DELETE FROM spans WHERE id <= "
                            ++ (digits 19 cutoff ++ codes ";")))))))

unfoldable pub prune_sql : ℕ → List ℕ
prune_sql cutoff = take 511 (prune_text cutoff)

module _ (q : Sqlite) where
  -- The parts of `S` that the callbacks use; the statements are always prepared when they run.
  pub record Store : Type 0 where
    pub db : q.Db
    pub in_txn : Bool
    pub commits : ℕ
    pub max_spans : ℕ
    pub service : List ℕ

  -- `otel_sqlite_insert_attr` for each attribute of a list; its result is not looked at.
  unfoldable pub insert_attrs : q.Db → Insert → (owner : ℕ) → Span → List Attr → q.Db
  insert_attrs db st owner s [] = db
  insert_attrs db st owner s (a ∷ xs) =
      insert_attrs (q.insert db st (integer (pos owner) ∷ attr_columns s a)).0 st owner s xs

  -- One round of the loop over the events; `stored` is what the step of `ins_event` returned.
  abbrev pub insert_event_attrs : q.Db × Bool → Span → Event → q.Db
  insert_event_attrs (db, stored) s e =
      if stored
      then insert_attrs db ins_event_attr (q.last_insert_rowid db) s
          (walk_attrs walk_fuel s.arena e.attr_head)
      else db

  unfoldable pub insert_events : q.Db → (cur_span : ℕ) → Span → List Event → q.Db
  insert_events db cur_span s [] = db
  insert_events db cur_span s (e ∷ es) =
      insert_events
        (insert_event_attrs (q.insert db ins_event (integer (pos cur_span) ∷ event_columns s e)) s
          e)
        cur_span s es

  -- the rest of `otel_sqlite_span` after the step of `ins_span`
  abbrev pub insert_children : q.Db × Bool → Span → q.Db
  insert_children (db, stored) s =
      if stored
      then insert_events
          (insert_attrs db ins_attr (q.last_insert_rowid db) s
            (walk_attrs walk_fuel s.arena s.attr_head))
          (q.last_insert_rowid db) s (walk_events walk_fuel s.arena s.event_head)
      else db

  -- `otel_sqlite_begin`
  unfoldable pub sqlite_begin : Store → Store
  sqlite_begin k = let (db, ok) = q.exec k.db (codes "BEGIN") in record k { db = db; in_txn = ok }

  -- `otel_sqlite_span`
  unfoldable pub sqlite_span : Store → Span → Store
  sqlite_span k s =
      let stored = q.insert k.db ins_span (span_columns k.service s) in
      if k.in_txn then record k { db = insert_children stored s } else k

  -- The deletion in `otel_sqlite_prune`; `cutoff` is the difference as a 64-bit integer.
  abbrev pub prune_to : q.Db → ℤ → q.Db
  prune_to db (pos zero) = db
  prune_to db (pos (suc c)) = (q.exec db (prune_sql (suc c))).0
  prune_to db (negsuc n) = db

  -- `maxid - (sqlite3_int64) S.max_spans`, in two's complement
  abbrev pub cutoff_of : ℕ → ℕ → ℤ
  cutoff_of maxid max_spans = to_int64 ((maxid + 2 ^ 64 - max_spans) % 2 ^ 64)

  -- `otel_sqlite_prune`
  unfoldable pub prune : q.Db → (max_spans : ℕ) → q.Db
  prune db max_spans = if max_spans == 0 then db else elim (q.max_span_id db) [
    | none ↦ db
    | some maxid ↦ prune_to db (cutoff_of maxid max_spans)
  ]

  -- `otel_sqlite_end`
  unfoldable pub sqlite_end : Store → Store
  sqlite_end k =
      let db = (q.exec k.db (codes "COMMIT")).0 in
      let commits = (k.commits + 1) % 2 ^ 64 in
      if k.in_txn
      then record k {
        db = if commits % maint_every == 0 then q.wal_checkpoint (prune db k.max_spans) else db;
        in_txn = false;
        commits = commits;
      }
      else k

  -- the callbacks of `S.sink`, as the drain calls them
  abbrev pub sink_call : Store → SinkCall → Store
  sink_call k begin = sqlite_begin k
  sink_call k (span s) = sqlite_span k s
  sink_call k end = sqlite_end k

  unfoldable pub sink_calls : Store → List SinkCall → Store
  sink_calls k [] = k
  sink_calls k (c ∷ cs) = sink_calls (sink_call k c) cs

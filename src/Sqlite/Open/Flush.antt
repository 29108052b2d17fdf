-- ===== src/Sqlite/Open/Flush.antt =====
-- What `otel_sqlite_close` leaves in the database.
use oteltracing_c.Tracer.Drain.Deliver.{spans_of, Finished, AllHold, all_spans}
use oteltracing_c.Base.{map, ◌≡◌, refl, sym, ap, subst, ◌∙◌, true, some, List, [], ◌∷◌, ◌++◌}
use oteltracing_c.Tracer.Drain.{begin, SinkCall, span, Out, drain}
use oteltracing_c.Base.Tests.{if◌then◌else◌, if_ind}
use oteltracing_c.Base.Text.{codes}
use oteltracing_c.Otlp.{Rings}
use oteltracing_c.Otlp.Spans.{IsBatch}
use oteltracing_c.Tracer.Ring.{Ring}
use oteltracing_c.Sqlite.{Sqlite}
use oteltracing_c.Sqlite.Tables.{Stores}
use oteltracing_c.Sqlite.Sink.{sink_calls}
use oteltracing_c.Sqlite.Sink.Stored.{TakesRows}
use oteltracing_c.Sqlite.Sink.Drained.{AllStored, fresh_sink, calls_of, drain-AllStored}
use oteltracing_c.Sqlite.Open.{
  World, store_of, stop_thread, drain_at, drain_into, release, sqlite_close, close_db,
}

module _ (q : Sqlite) where
  -- stopping the flusher leaves what a drain uses
  stopped_store :
      (w : World q) (db : q.Db)
      → (stop_thread q w).s.db ≡ w.s.db
        × (stop_thread q w).attached ≡ w.attached
        × (stop_thread q w).closed ≡ w.closed
        × store_of q (stop_thread q w) db ≡ store_of q w db
  unfolding stop_thread
  stopped_store w db =
      if_ind
        (λ (x : World q).
          (x.s.db ≡ w.s.db)
          × (x.attached ≡ w.attached)
          × (x.closed ≡ w.closed)
          × (store_of q x db ≡ store_of q w db))
        w.s.have_thread (λ on. (refl, refl, refl, refl)) (λ off. (refl, refl, refl, refl))

  -- the connection that a close gives back
  closed_db :
      (w : World q) (db : q.Db) (cs : List SinkCall)
      → w.s.db ≡ some db
      → w.attached ≡ true
      → (sqlite_close q w cs).closed
        ≡ w.closed ++ (q.close (q.wal_checkpoint (sink_calls q (store_of q w db) cs).db) ∷ [])
  unfolding sqlite_close release drain_into
  closed_db w db cs there on =
      let u = stop_thread q w in
      let (same_db, same_attached, same_closed, same_store) = stopped_store w db in
      let drained : drain_into q u cs ≡ drain_at q (some db) u cs =
        ap (λ b. if b then drain_at q u.s.db u cs else u) (same_attached ∙ on)
        ∙ ap (λ o. drain_at q o u cs) (same_db ∙ there) in
      ap (λ (x : World q). close_db q x.s.db x.closed) drained ∙ (λ i.
        same_closed i ++ (q.close (q.wal_checkpoint (sink_calls q (same_store i) cs).db) ∷ []))

  module _ (v : Stores q) (takes : TakesRows q v) where
    -- Take a connection that behaves as the documentation of SQLite says, that takes every row and
    -- accepts the BEGIN, and the COMMIT after the rows of the drain, is open in S with no cap on
    -- the spans, and whose sink is attached to the tracer; and a drain with a transport set and a
    -- well-formed batch over rings that hold finished spans of known content. Then sqlite_close,
    -- with the calls that this drain makes to the sink, closes one connection more, in which the
    -- tables that are left after sqlite3_close are those from before followed, span after span, by
    -- exactly one row of spans with the columns of the span, one row for each of its attributes in
    -- order, and for each of its events in order a row and the rows of the attributes of that
    -- event; each row belongs to the key of its span or event.
    pub sqlite_close-AllStored :
        (rings : Rings) (out : Out) (threads : List Ring) (fss : List (List Finished))
        → AllHold rings 0 threads fss
        → IsBatch out.otlp
        → out.otlp.transport ≡ true
        → out.sink ≡ some fresh_sink
        → (w : World q) (db : q.Db) → w.s.db ≡ some db
        → w.attached ≡ true
        → w.s.max_spans ≡ 0
        → (q.exec db (codes "BEGIN")).1 ≡ true
        → (q.exec
            (sink_calls q (store_of q w db) (begin ∷ map span (spans_of (all_spans fss)))).db
            (codes "COMMIT")).1
          ≡ true
        → (last : q.Db) × ((sqlite_close q w
              (calls_of (drain true rings out threads).0.sink)).closed
            ≡ w.closed ++ (last ∷ []))
          × AllStored w.service (v.contents db) (all_spans fss) (v.contents last)
    sqlite_close-AllStored rings out threads fss h b on fresh w db there attached unbounded ok
          commits =
        let cs = calls_of (drain true rings out threads).0.sink in
        let k = sink_calls q (store_of q w db) cs in
        (
          q.close (q.wal_checkpoint k.db),
          closed_db w db cs there attached,
          subst (AllStored w.service (v.contents db) (all_spans fss))
              (sym (v.closes (q.wal_checkpoint k.db) ∙ v.checkpoints_saved k.db))
              (drain-AllStored q v takes rings out threads fss h b on fresh (store_of q w db) ok
                unbounded commits),
        )

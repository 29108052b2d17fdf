-- ===== src/Sqlite/Sink/Stuck.antt =====
-- What a COMMIT that fails does to `otel_sqlite_begin` and `otel_sqlite_end`.
use oteltracing_c.Base.{◌+◌, ◌%◌, ◌^◌, ◌≡◌, refl, ap, sym, Bool, true, false, List, [], ◌∷◌}
use oteltracing_c.Base.Tests.{◌==◌}
use oteltracing_c.Base.Text.{codes}
use oteltracing_c.Tracer.Drain.{SinkCall, begin, span, end}
use oteltracing_c.Sqlite.{Sqlite}
use oteltracing_c.Sqlite.Sink.{
  Store, sqlite_begin, sqlite_span, sqlite_end, sink_call, sink_calls, maint_every,
}

-- SQLite refuses a BEGIN while a transaction is open, and leaves the connection as it is.
pub record Nests (q : Sqlite) (in_transaction : q.Db → Bool) : Type 0 where
  pub refused : (db : q.Db) → in_transaction db ≡ true → q.exec db (codes "BEGIN") ≡ (db, false)

module _ (q : Sqlite) {in_transaction : q.Db → Bool} (nests : Nests q in_transaction) where
  call_stuck :
      (k : Store q) (c : SinkCall)
      → in_transaction k.db ≡ true
      → k.in_txn ≡ false
      → sink_call q k c ≡ k
  unfolding sqlite_begin sqlite_span sqlite_end
  call_stuck k begin busy off =
      rw (nests.refused k.db busy) (ap (λ b. record k { in_txn = b }) (sym off))
  call_stuck k (span s) busy off = rw off refl
  call_stuck k end busy off = rw off refl

  calls_stuck :
      (k : Store q) (cs : List SinkCall)
      → in_transaction k.db ≡ true
      → k.in_txn ≡ false
      → sink_calls q k cs ≡ k
  unfolding sink_calls
  calls_stuck k [] busy off = refl
  calls_stuck k (c ∷ cs) busy off = rw (call_stuck k c busy off) (calls_stuck k cs busy off)

  -- If SQLite refuses a BEGIN while a transaction is open, and the COMMIT of sqlite_end fails and
  -- leaves its transaction open, and no maintenance is due, then after that sqlite_end no sequence
  -- of calls of the sink changes the connection or anything else of the store: every later span is
  -- lost.
  pub sink_calls-stuck :
      (k : Store q) {db : q.Db}
      → k.in_txn ≡ true
      → q.exec k.db (codes "COMMIT") ≡ (db, false)
      → in_transaction db ≡ true
      → ((k.commits + 1) % 2 ^ 64 % maint_every == 0) ≡ false
      → (cs : List SinkCall)
      → sink_calls q (sqlite_end q k) cs
        ≡ record k { db = db; in_txn = false; commits = (k.commits + 1) % 2 ^ 64 }
  unfolding sqlite_end
  sink_calls-stuck k {db} on failed busy quiet cs =
      let ended : sqlite_end q k
          ≡ record k { db = db; in_txn = false; commits = (k.commits + 1) % 2 ^ 64 } =
        rw (failed, quiet, on) refl in
      rw ended (
        calls_stuck (record k { db = db; in_txn = false; commits = (k.commits + 1) % 2 ^ 64 }) cs
          busy refl)

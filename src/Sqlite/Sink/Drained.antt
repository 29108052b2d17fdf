-- ===== src/Sqlite/Sink/Drained.antt =====
-- A drain into the sink: what `otel_drain` takes from the rings is in the tables.
use oteltracing_c.Base.{
  false, ◌^◌, ◌%◌, none, ◌+◌, Option, ℕ, ◌≡◌, refl, sym, ap, subst, ◌∙◌, true, some, List, [], ◌∷◌,
  ◌++◌, map,
}
use oteltracing_c.Sqlite.Sink.{
  maint_every, Store, sqlite_begin, sqlite_span, sqlite_end, sink_call, sink_calls, prune,
}
use oteltracing_c.Tracer.Drain.{call_if, at_sink, SinkCall, begin, span, end, Sink, Out, drain}
use oteltracing_c.Base.Tests.{if_ind, ◌==◌}
use oteltracing_c.Base.Text.{codes}
use oteltracing_c.Span.{Span}
use oteltracing_c.Otlp.{Rings}
use oteltracing_c.Otlp.Spans.{IsBatch}
use oteltracing_c.Tracer.Ring.{Ring}
use oteltracing_c.Tracer.Drain.Deliver.{Finished, AllHold, all_spans, spans_of, drain-handed}
use oteltracing_c.Sqlite.{Sqlite}
use oteltracing_c.Sqlite.Tables.{Tables, Stores}
use oteltracing_c.Sqlite.Sink.Stored.{SpanStored, TakesRows, sqlite_span-SpanStored}

-- `t'` is `t` with the rows of these spans added, span after span.
pub data AllStored (service : List ℕ) : Tables → List Finished → Tables → Type 0 where
  none_stored : {t : Tables} → AllStored service t [] t
  one_stored :
      {t u w : Tables} (f : Finished) {fs : List Finished}
      → SpanStored service f.s f.m t u
      → AllStored service u fs w
      → AllStored service t (f ∷ fs) w

-- a sink with all three functions set and no call yet
abbrev pub fresh_sink : Sink
fresh_sink = record { has_begin = true; has_span = true; has_end = true; calls = [] }

-- the calls that a sink got
abbrev pub calls_of : Option Sink → List SinkCall
calls_of none = []
calls_of (some k) = k.calls

module _ (q : Sqlite) (v : Stores q) where
  prune-unbounded : (db : q.Db) (max : ℕ) → max ≡ 0 → prune q db max ≡ db
  unfolding prune
  prune-unbounded db max e = rw e refl

  -- Where no bound is set the end of a batch saves what is in the transaction, if COMMIT succeeds.
  end_saved :
      (k : Store q)
      → k.in_txn ≡ true
      → k.max_spans ≡ 0
      → (q.exec k.db (codes "COMMIT")).1 ≡ true
      → v.saved (sqlite_end q k).db ≡ v.contents k.db
  unfolding sqlite_end
  end_saved k on unbounded ok =
      let db = (q.exec k.db (codes "COMMIT")).0 in
      let pruned : v.saved (q.wal_checkpoint (prune q db k.max_spans)) ≡ v.contents k.db =
        v.checkpoints_saved (prune q db k.max_spans)
        ∙ ap v.saved (prune-unbounded db k.max_spans unbounded)
        ∙ v.commits_saved k.db ok in
      if_ind (λ (x : Store q). v.saved x.db ≡ v.contents k.db) k.in_txn
        (λ yes.
          if_ind (λ x. v.saved x ≡ v.contents k.db) ((k.commits + 1) % 2 ^ 64 % maint_every == 0)
            (λ due. pruned) (λ early. v.commits_saved k.db ok))
        (λ off. let x : true ≡ false = sym on ∙ off in absurd (cc x))

  sink_calls-append :
      (k : Store q) (cs ds : List SinkCall)
      → sink_calls q k (cs ++ ds) ≡ sink_calls q (sink_calls q k cs) ds
  unfolding sink_calls
  sink_calls-append k [] ds = refl
  sink_calls-append k (c ∷ cs) ds = sink_calls-append (sink_call q k c) cs ds

  -- `sqlite_span` touches nothing but the connection.
  span_rest :
      (k : Store q) (s : Span) → sqlite_span q k s ≡ record k { db = (sqlite_span q k s).db }
  unfolding sqlite_span
  span_rest k s =
      if_ind (λ (x : Store q). x ≡ record k { db = x.db }) k.in_txn (λ on. refl) (λ off. refl)

  -- The spans of a batch leave the flag of the transaction and the bound.
  spans_rest :
      (k : Store q) (fs : List Span)
      → ((sink_calls q k (map span fs)).in_txn ≡ k.in_txn)
        × ((sink_calls q k (map span fs)).max_spans ≡ k.max_spans)
  unfolding sink_calls
  spans_rest k [] = (refl, refl)
  spans_rest k (s ∷ ss) =
      let same = span_rest k s in
      let rest = spans_rest (sqlite_span q k s) ss in
      (
        rest.0 ∙ ap (λ (x : Store q). x.in_txn) same,
        rest.1 ∙ ap (λ (x : Store q). x.max_spans) same,
      )

  module _ (takes : TakesRows q v) where
    spans_stored :
        (k : Store q) (fs : List Finished)
        → k.in_txn ≡ true
        → AllStored k.service
            (v.contents k.db)
            fs
            (v.contents (sink_calls q k (map span (spans_of fs))).db)
    unfolding sink_calls
    spans_stored k [] on = none_stored
    spans_stored k (f ∷ fs) on =
        let k' = sqlite_span q k f.s in
        let same = span_rest k f.s in
        one_stored f (sqlite_span-SpanStored q v takes k f.s on f.holds) (
          subst
            (λ service.
              AllStored service (v.contents k'.db) fs
                (v.contents (sink_calls q k' (map span (spans_of fs))).db))
            (ap (λ (x : Store q). x.service) same)
            (spans_stored k' fs (ap (λ (x : Store q). x.in_txn) same ∙ on)))

    -- what is saved after a batch
    begun :
        (k : Store q) (fs : List Finished)
        → (q.exec k.db (codes "BEGIN")).1 ≡ true
        → k.max_spans ≡ 0
        → (q.exec (sink_calls q k (begin ∷ map span (spans_of fs))).db (codes "COMMIT")).1 ≡ true
        → AllStored k.service
            (v.contents k.db)
            fs
            (v.saved (sink_calls q k (begin ∷ (map span (spans_of fs) ++ (end ∷ [])))).db)
    unfolding sink_calls sqlite_begin
    begun k fs ok unbounded commits =
        let b = sqlite_begin q k in
        let m = sink_calls q b (map span (spans_of fs)) in
        let (txn, bound) = spans_rest b (spans_of fs) in
        subst (AllStored k.service (v.contents k.db) fs)
          (sym (
            ap (λ (x : Store q). v.saved x.db)
              (sink_calls-append b (map span (spans_of fs)) (end ∷ []))
            ∙ end_saved m (txn ∙ ok) (bound ∙ unbounded) commits))
          (subst (λ t. AllStored k.service t fs (v.contents m.db)) (v.begins k.db)
            (spans_stored b fs ok))

    -- What a drain takes from the rings is saved, if the COMMIT of its end succeeds.
    pub drain-AllStored :
        (rings : Rings) (out : Out) (threads : List Ring) (fss : List (List Finished))
        → AllHold rings 0 threads fss
        → IsBatch out.otlp
        → out.otlp.transport ≡ true
        → out.sink ≡ some fresh_sink
        → (k : Store q) → (q.exec k.db (codes "BEGIN")).1 ≡ true
        → k.max_spans ≡ 0
        → (q.exec
            (sink_calls q k (begin ∷ map span (spans_of (all_spans fss)))).db
            (codes "COMMIT")).1
          ≡ true
        → AllStored k.service
            (v.contents k.db)
            (all_spans fss)
            (v.saved (sink_calls q k (calls_of (drain true rings out threads).0.sink)).db)
    drain-AllStored rings out threads fss h b on fresh k ok unbounded commits =
        let d = (drain-handed rings out threads fss h b on).0 in
        subst
          (λ cs.
            AllStored k.service (v.contents k.db) (all_spans fss) (v.saved (sink_calls q k cs).db))
          (sym (
            ap calls_of (
              d.sink
              ∙ ap
                  (λ k. at_sink k (λ k.
                    call_if k.has_end
                      (call_if k.has_span (call_if k.has_begin k (begin ∷ []))
                        (map span (spans_of (all_spans fss))))
                      (end ∷ [])))
                  fresh)))
          (begun k (all_spans fss) ok unbounded commits)

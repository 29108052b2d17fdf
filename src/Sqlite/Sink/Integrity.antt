-- ===== src/Sqlite/Sink/Integrity.antt =====
-- The sink keeps the rows of the store linked, whichever statements SQLite refuses.
use oteltracing_c.Base.Tests.{ltb→lt, ltb, if_ind, ◌==◌, Bool-cases}
use oteltracing_c.Base.{
  ◌-◌, ◌<◌, ◌^◌, ◌%◌, ◌+◌, zero, ℕ, suc, ◌≡◌, refl, sym, subst, inl, inr, true, none, some, List,
  [], ◌∷◌, Option,
}
use oteltracing_c.Base.Int.{to_int64, ℤ, pos, negsuc}
use oteltracing_c.Sqlite.Sink.{
  maint_every, Store, attr_columns, event_columns, span_columns, insert_attrs, insert_event_attrs,
  insert_events, insert_children, sqlite_begin, sqlite_span, sqlite_end, sink_call, sink_calls,
  prune, prune_to, walk_attrs, codes, cutoff_of, walk_fuel, walk_events,
}
use oteltracing_c.Sqlite.Sink.PruneText.{prune_sql_lem}
use oteltracing_c.Span.{Span, Attr, Event}
use oteltracing_c.Tracer.Drain.{SinkCall, begin, span, end}
use oteltracing_c.Sqlite.{
  Sqlite, Datum, integer, Insert, ins_span, ins_attr, ins_event, ins_event_attr,
}
use oteltracing_c.Sqlite.Tables.{SpanRow, EventRow, has, span_ids, event_ids, Stores}
use oteltracing_c.Sqlite.Sink.Keeps.{
  IsLinked, Grown-trans, Owned, Owned-Grown, Kept, Kept-self, inserted_span, inserted-Kept,
  Pruned-IsLinked,
}
use oteltracing_c.Sqlite.Sink.Keys.{has-last}

-- An `int64_t` that is not negative is below 2 ^ 63.
to_int64-pos : (u c : ℕ) → to_int64 u ≡ pos c → c < 2 ^ 63
unfolding to_int64
to_int64-pos u c e = elim (Bool-cases (ltb u (2 ^ 63))) [
  | inl low ↦
      let e' : pos u ≡ pos c = rw low at e in
      let same : u ≡ c = cc e' in subst (λ n. n < 2 ^ 63) same (ltb→lt u (2 ^ 63) low)
  | inr high ↦ let e' : negsuc (2 ^ 64 - u - 1) ≡ pos c = rw high at e in absurd (cc e')
]

module _ (q : Sqlite) (v : Stores q) where
  -- The tables of a connection stay linked and keep their keys.
  abbrev Keeps : q.Db → q.Db → Type 0
  Keeps db db' = Kept (v.contents db) (v.contents db')

  Keeps-trans : {a b c : q.Db} → Keeps a b → (IsLinked (v.contents b) → Keeps b c) → Keeps a c
  Keeps-trans x f = let y = f x.0 in (y.0, Grown-trans x.1 y.1)

  insert-Keeps :
      (db : q.Db) (st : Insert) (o : ℕ) (cs : List Datum)
      → IsLinked (v.contents db)
      → Owned (v.contents db) st o
      → Keeps db (q.insert db st (integer (pos o) ∷ cs)).0
  insert-Keeps db st o cs w h = elim (Bool-cases (q.insert db st (integer (pos o) ∷ cs)).1) [
    | inl done ↦
        subst (Kept (v.contents db)) (sym (v.inserts db st (integer (pos o) ∷ cs) done)) (
          inserted-Kept st (q.last_insert_rowid (q.insert db st (integer (pos o) ∷ cs)).0) o cs w h)
    | inr failed ↦
        subst (Kept (v.contents db)) (sym (v.refuses db st (integer (pos o) ∷ cs) failed))
          (Kept-self w)
  ]

  insert_attrs-Keeps :
      (db : q.Db) (st : Insert) (o : ℕ) (s : Span) (xs : List Attr)
      → IsLinked (v.contents db)
      → Owned (v.contents db) st o
      → Keeps db (insert_attrs q db st o s xs)
  unfolding insert_attrs
  insert_attrs-Keeps db st o s [] w h = Kept-self w
  insert_attrs-Keeps db st o s (a ∷ xs) w h =
      let k = insert-Keeps db st o (attr_columns s a) w h in
      Keeps-trans k (λ w'.
        insert_attrs-Keeps (q.insert db st (integer (pos o) ∷ attr_columns s a)).0 st o s xs w'
          (Owned-Grown st o k.1 h))

  event_stored :
      (db : q.Db) (o : ℕ) (cs : List Datum)
      → (q.insert db ins_event (integer (pos o) ∷ cs)).1 ≡ true
      → has
          (q.last_insert_rowid (q.insert db ins_event (integer (pos o) ∷ cs)).0)
          (event_ids (v.contents (q.insert db ins_event (integer (pos o) ∷ cs)).0))
        ≡ true
  event_stored db o cs done =
      subst
        (λ t.
          has (q.last_insert_rowid (q.insert db ins_event (integer (pos o) ∷ cs)).0) (event_ids t)
          ≡ true)
        (sym (v.inserts db ins_event (integer (pos o) ∷ cs) done))
        (has-last (λ (r : EventRow). r.id) (v.contents db).events _)

  span_stored :
      (db : q.Db) (cs : List Datum)
      → (q.insert db ins_span cs).1 ≡ true
      → has
          (q.last_insert_rowid (q.insert db ins_span cs).0)
          (span_ids (v.contents (q.insert db ins_span cs).0))
        ≡ true
  span_stored db cs done =
      subst (λ t. has (q.last_insert_rowid (q.insert db ins_span cs).0) (span_ids t) ≡ true)
        (sym (v.inserts db ins_span cs done))
        (has-last (λ (r : SpanRow). r.id) (v.contents db).spans _)

  insert_events-Keeps :
      (db : q.Db) (o : ℕ) (s : Span) (es : List Event)
      → IsLinked (v.contents db)
      → has o (span_ids (v.contents db)) ≡ true
      → Keeps db (insert_events q db o s es)
  unfolding insert_events
  insert_events-Keeps db o s [] w h = Kept-self w
  insert_events-Keeps db o s (e ∷ es) w h =
      let k = insert-Keeps db ins_event o (event_columns s e) w h in
      let row = q.insert db ins_event (integer (pos o) ∷ event_columns s e) in
      let attrs : Keeps db (insert_event_attrs q row s e) =
        if_ind (λ x. Keeps db x) row.1
          (λ done. Keeps-trans k (λ w'.
            insert_attrs-Keeps row.0 ins_event_attr (q.last_insert_rowid row.0) s
              (walk_attrs walk_fuel s.arena e.attr_head) w'
              (event_stored db o (event_columns s e) done)))
          (λ failed. k) in
      Keeps-trans attrs
        (λ w'. insert_events-Keeps (insert_event_attrs q row s e) o s es w' (attrs.1.spans o h))

  span_rows :
      (k : Store q) (s : Span)
      → IsLinked (v.contents k.db)
      → IsLinked
          (v.contents (insert_children q (q.insert k.db ins_span (span_columns k.service s)) s))
  span_rows k s w =
      let row = q.insert k.db ins_span (span_columns k.service s) in
      elim (Bool-cases row.1) [
        | inl done ↦
            let added : IsLinked (v.contents row.0) =
              subst IsLinked (sym (v.inserts k.db ins_span (span_columns k.service s) done))
                (inserted_span (q.last_insert_rowid row.0) (span_columns k.service s) w
                  (v.new_span_id k.db (span_columns k.service s) done)).0 in
            let here = span_stored k.db (span_columns k.service s) done in
            let a =
              insert_attrs-Keeps row.0 ins_attr (q.last_insert_rowid row.0) s
                (walk_attrs walk_fuel s.arena s.attr_head) added here in
            rw done
              (insert_events-Keeps _ (q.last_insert_rowid row.0) s
                (walk_events walk_fuel s.arena s.event_head) a.0 (a.1.spans _ here)).0
        | inr failed ↦
            rw failed
              (subst IsLinked (sym (v.refuses k.db ins_span (span_columns k.service s) failed)) w)
      ]

  sqlite_span-IsLinked :
      (k : Store q) (s : Span)
      → IsLinked (v.contents k.db)
      → IsLinked (v.contents (sqlite_span q k s).db)
  unfolding sqlite_span
  sqlite_span-IsLinked k s w =
      if_ind (λ (x : Store q). IsLinked (v.contents x.db)) k.in_txn (λ on. span_rows k s w)
        (λ off. w)

  prune_to-IsLinked :
      (db : q.Db) (z : ℤ)
      → ((c : ℕ) → z ≡ pos c → c < 2 ^ 63)
      → IsLinked (v.contents db)
      → IsLinked (v.contents (prune_to q db z))
  prune_to-IsLinked db (pos zero) small w = w
  prune_to-IsLinked db (pos (suc c)) small w =
      subst (λ sql. IsLinked (v.contents (q.exec db sql).0)) (sym (prune_sql_lem (suc c)))
        (Pruned-IsLinked (suc c) w (v.prunes db (suc c) (small (suc c) refl)))
  prune_to-IsLinked db (negsuc n) small w = w

  pruned :
      (db : q.Db) (max_spans : ℕ) (maxid : Option ℕ)
      → IsLinked (v.contents db)
      → IsLinked
          (v.contents (elim maxid [ none ↦ db | some n ↦ prune_to q db (cutoff_of q n max_spans) ]))
  pruned db max_spans none w = w
  pruned db max_spans (some n) w =
      prune_to-IsLinked db (cutoff_of q n max_spans)
        (to_int64-pos ((n + 2 ^ 64 - max_spans) % 2 ^ 64)) w

  prune-IsLinked :
      (db : q.Db) (max_spans : ℕ)
      → IsLinked (v.contents db)
      → IsLinked (v.contents (prune q db max_spans))
  unfolding prune
  prune-IsLinked db max_spans w =
      if_ind (λ x. IsLinked (v.contents x)) (max_spans == 0) (λ off. w)
        (λ on. pruned db max_spans (q.max_span_id db) w)

  call-IsLinked :
      (k : Store q) (c : SinkCall)
      → IsLinked (v.contents k.db)
      → IsLinked (v.contents (sink_call q k c).db)
  unfolding sqlite_begin sqlite_end
  call-IsLinked k begin w = subst IsLinked (sym (v.begins k.db)) w
  call-IsLinked k (span s) w = sqlite_span-IsLinked k s w
  call-IsLinked k end w =
      let db = (q.exec k.db (codes "COMMIT")).0 in
      let committed : IsLinked (v.contents db) = subst IsLinked (sym (v.commits k.db)) w in
      let maintained =
        subst IsLinked (sym (v.checkpoints (prune q db k.max_spans)))
          (prune-IsLinked db k.max_spans committed) in
      if_ind (λ (x : Store q). IsLinked (v.contents x.db)) k.in_txn
        (λ on.
          if_ind (λ x. IsLinked (v.contents x)) ((k.commits + 1) % 2 ^ 64 % maint_every == 0)
            (λ due. maintained) (λ early. committed))
        (λ off. w)

  -- If SQLite behaves as documented, and may refuse any statement, which then changes nothing and
  -- rolls nothing back, and may stop after any of the deletions of a prune, then whatever calls
  -- the sink gets, in any order, the tables stay linked: the keys of spans ascend from 1, each row
  -- of span_attrs and span_events belongs to a row of spans, and each row of span_event_attrs to a
  -- row of span_events.
  pub sink_calls-IsLinked :
      (k : Store q) (cs : List SinkCall)
      → IsLinked (v.contents k.db)
      → IsLinked (v.contents (sink_calls q k cs).db)
  unfolding sink_calls
  sink_calls-IsLinked k [] w = w
  sink_calls-IsLinked k (c ∷ cs) w = sink_calls-IsLinked (sink_call q k c) cs (call-IsLinked k c w)

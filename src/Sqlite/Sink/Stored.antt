-- ===== src/Sqlite/Sink/Stored.antt =====
-- The rows that `otel_sqlite_span` adds when SQLite takes every row: the span, its attributes, its
-- events and their attributes, as a reader of the span sees them.
use oteltracing_c.Span.View.Events.{length-le-event_records}
use oteltracing_c.Base.{
  ◌+◌, ℕ, ◌≤◌, ◌<◌, ◌≡◌, refl, sym, ap, subst, ◌∙◌, true, List, [], ◌∷◌, ◌++◌, map, arith,
}
use oteltracing_c.Span.View.{event_records, AttrView, EventView, SpanView, IsSpan}
use mathlib.Core.List.{append-nil, append_assoc}
use oteltracing_c.Base.Tests.{if◌then◌else◌}
use oteltracing_c.Base.Int.{pos, to_int64}
use oteltracing_c.Base.Lists.{length}
use oteltracing_c.Span.{Span, Attr, Event, span_arena}
use oteltracing_c.Span.Read.{walk_attrs, walk_events, walk_fuel}
use oteltracing_c.Span.Read.Walk.{
  AllShow, AllShowEvents, ShowsEvent, walk_attrs-AllShow, walk_events-AllShow,
}
use oteltracing_c.Sqlite.{
  Sqlite, Datum, text, integer, Insert, ins_span, ins_attr, ins_event, ins_event_attr,
}
use oteltracing_c.Sqlite.Tables.{Tables, AttrRow, EventRow, inserted, Stores}
use oteltracing_c.Sqlite.Sink.{
  Store, insert_attrs, insert_event_attrs, insert_events, sqlite_span, attr_columns, event_columns,
  span_columns,
}
use oteltracing_c.Sqlite.Sink.Attrs.{shown_columns, attr_columns-Shows, strv-IsStr}

-- the rows of a list of attributes
abbrev pub attr_rows : (owner : ℕ) → List AttrView → List AttrRow
attr_rows o vs = map (λ v. record { owner = o; columns = shown_columns v }) vs

abbrev pub add_attrs : Tables → List AttrRow → Tables
add_attrs t rows = record t { attrs = t.attrs ++ rows }

abbrev pub add_event_attrs : Tables → List AttrRow → Tables
add_event_attrs t rows = record t { event_attrs = t.event_attrs ++ rows }

-- the row of an event
abbrev pub event_row : (id span : ℕ) → EventView → EventRow
event_row id o v = record {
  id = id;
  span = o;
  columns = text v.name ∷ integer (to_int64 v.time) ∷ [];
}

-- `t'` is `t` with the rows of these events behind the others, each with a key and its attributes.
pub data EventsStored (o : ℕ) : Tables → List EventView → Tables → Type 0 where
  no_events : {t : Tables} → EventsStored o t [] t
  event_stored :
      {t t' : Tables} (id : ℕ) (v : EventView) {vs : List EventView}
      → EventsStored o
          (add_event_attrs
            (record t { events = t.events ++ (event_row id o v ∷ []) })
            (attr_rows id v.attrs))
          vs
          t'
      → EventsStored o t (v ∷ vs) t'

-- `t'` is `t` with the row of the span, the rows of its attributes and those of its events.
pub record SpanStored (service : List ℕ) (s : Span) (m : SpanView) (t t' : Tables) : Type 0 where
  pub id : ℕ
  pub events :
      EventsStored id
        (add_attrs
          (record t {
            spans = t.spans ++ (record { id = id; columns = span_columns service s } ∷ []);
          })
          (attr_rows id m.attrs))
        m.events
        t'

event_columns_shown :
    {own : ℕ → ℕ} (s : Span) (e : Event) (x : EventView)
    → ShowsEvent s.arena own s.arena_used e x
    → s.arena_used ≤ span_arena
    → event_columns s e ≡ text x.name ∷ integer (to_int64 x.time) ∷ []
unfolding event_columns
event_columns_shown s e x h within =
    λ i. text (strv-IsStr s within h.name i) ∷ integer (to_int64 (h.time i)) ∷ []

module _ (q : Sqlite) (v : Stores q) where
  -- SQLite takes every row.
  abbrev pub TakesRows : Type 0
  TakesRows = (db : q.Db) (st : Insert) (cs : List Datum) → (q.insert db st cs).1 ≡ true

  module _ (takes : TakesRows) where
    -- The rows of a list of attributes go behind those of their table.
    insert_attrs-rows :
        (st : Insert) (add : Tables → List AttrRow → Tables)
        → ((t : Tables) → add t [] ≡ t)
        → ((t : Tables) (xs ys : List AttrRow) → add (add t xs) ys ≡ add t (xs ++ ys))
        → ((t : Tables) (id o : ℕ) (cs : List Datum)
            → inserted t st id (integer (pos o) ∷ cs)
              ≡ add t (record { owner = o; columns = cs } ∷ []))
        → (db : q.Db) (o : ℕ) (s : Span) (xs : List Attr) (vs : List AttrView)
        → AllShow s.arena s.arena_used xs vs
        → s.arena_used ≤ span_arena
        → v.contents (insert_attrs q db st o s xs) ≡ add (v.contents db) (attr_rows o vs)
    unfolding insert_attrs
    insert_attrs-rows st add none more one db o s [] [] h within = sym (none (v.contents db))
    insert_attrs-rows st add none more one db o s [] (x ∷ vs) h within = absurd h
    insert_attrs-rows st add none more one db o s (a ∷ xs) [] h within = absurd h
    insert_attrs-rows st add none more one db o s (a ∷ xs) (x ∷ vs) h within =
        let row = q.insert db st (integer (pos o) ∷ attr_columns s a) in
        let first : v.contents row.0 ≡ add (v.contents db) (attr_rows o (x ∷ [])) =
          v.inserts db st (integer (pos o) ∷ attr_columns s a) (takes db st _)
          ∙ one (v.contents db) (q.last_insert_rowid row.0) o (attr_columns s a)
          ∙ ap (λ cs. add (v.contents db) (record { owner = o; columns = cs } ∷ []))
              (attr_columns-Shows s within a x h.0) in
        insert_attrs-rows st add none more one row.0 o s xs vs h.1 within
        ∙ ap (λ t. add t (attr_rows o vs)) first
        ∙ more (v.contents db) (attr_rows o (x ∷ [])) (attr_rows o vs)

    span_attrs_stored :
        (db : q.Db) (o : ℕ) (s : Span) (xs : List Attr) (vs : List AttrView)
        → AllShow s.arena s.arena_used xs vs
        → s.arena_used ≤ span_arena
        → v.contents (insert_attrs q db ins_attr o s xs)
          ≡ add_attrs (v.contents db) (attr_rows o vs)
    span_attrs_stored db o s xs vs h within =
        insert_attrs-rows ins_attr add_attrs (λ t i. record t { attrs = append-nil t.attrs i })
          (λ t xs ys i. record t { attrs = append_assoc t.attrs xs ys i }) (λ t id o cs. refl) db o
          s xs vs h within

    event_attrs_stored :
        (db : q.Db) (o : ℕ) (s : Span) (xs : List Attr) (vs : List AttrView)
        → AllShow s.arena s.arena_used xs vs
        → s.arena_used ≤ span_arena
        → v.contents (insert_attrs q db ins_event_attr o s xs)
          ≡ add_event_attrs (v.contents db) (attr_rows o vs)
    event_attrs_stored db o s xs vs h within =
        insert_attrs-rows ins_event_attr add_event_attrs
          (λ t i. record t { event_attrs = append-nil t.event_attrs i })
          (λ t xs ys i. record t { event_attrs = append_assoc t.event_attrs xs ys i })
          (λ t id o cs. refl) db o s xs vs h within

    insert_events-EventsStored :
        (own : ℕ → ℕ) (db : q.Db) (o : ℕ) (s : Span) (es : List Event) (vs : List EventView)
        → AllShowEvents s.arena own s.arena_used es vs
        → s.arena_used ≤ span_arena
        → event_records vs < walk_fuel
        → EventsStored o (v.contents db) vs (v.contents (insert_events q db o s es))
    unfolding insert_events
    insert_events-EventsStored own db o s [] [] h within few = no_events
    insert_events-EventsStored own db o s [] (x ∷ vs) h within few = absurd h
    insert_events-EventsStored own db o s (e ∷ es) [] h within few = absurd h
    insert_events-EventsStored own db o s (e ∷ es) (x ∷ vs) h within few =
        let row = q.insert db ins_event (integer (pos o) ∷ event_columns s e) in
        let id = q.last_insert_rowid row.0 in
        let attrs = walk_attrs walk_fuel s.arena e.attr_head in
        let whole : insert_event_attrs q row s e ≡ insert_attrs q row.0 ins_event_attr id s attrs =
          ap (λ b. if b then insert_attrs q row.0 ins_event_attr id s attrs else row.0)
            (takes db ins_event _) in
        let added : v.contents row.0 ≡ record (v.contents db) {
          events = (v.contents db).events ++ (event_row id o x ∷ []);
        } =
          v.inserts db ins_event (integer (pos o) ∷ event_columns s e) (takes db ins_event _)
          ∙ ap
              (λ cs. record (v.contents db) {
                events =
                    (v.contents db).events ++ (record { id = id; span = o; columns = cs } ∷ []);
              })
              (event_columns_shown s e x h.0 within) in
        let stored : v.contents (insert_event_attrs q row s e)
            ≡ add_event_attrs
                (record (v.contents db) {
                  events = (v.contents db).events ++ (event_row id o x ∷ []);
                })
                (attr_rows id x.attrs) =
          ap v.contents whole
          ∙ event_attrs_stored row.0 id s attrs x.attrs
              (walk_attrs-AllShow walk_fuel within (omega (arith, few)) h.0.attrs) within
          ∙ ap (λ t. add_event_attrs t (attr_rows id x.attrs)) added in
        event_stored id x (
          subst
            (λ t.
              EventsStored o t vs
                (v.contents (insert_events q (insert_event_attrs q row s e) o s es)))
            stored
            (insert_events-EventsStored own (insert_event_attrs q row s e) o s es vs h.1 within
              (omega (arith, few))))

    -- With every row taken and inside a transaction, ...
    pub sqlite_span-SpanStored :
        {own : ℕ → ℕ} {m : SpanView} (k : Store q) (s : Span)
        → k.in_txn ≡ true
        → IsSpan own s m
        → SpanStored k.service s m (v.contents k.db) (v.contents (sqlite_span q k s).db)
    unfolding sqlite_span
    sqlite_span-SpanStored {own} {m} k s on w =
        let row = q.insert k.db ins_span (span_columns k.service s) in
        let id = q.last_insert_rowid row.0 in
        let attrs = walk_attrs walk_fuel s.arena s.attr_head in
        let events = walk_events walk_fuel s.arena s.event_head in
        let few : event_records m.events + length m.attrs < walk_fuel =
          omega (arith, w.budget, w.aligned.within) in
        let whole : (sqlite_span q k s).db
            ≡ insert_events q (insert_attrs q row.0 ins_attr id s attrs) id s events =
          rw (on, takes k.db ins_span (span_columns k.service s)) refl in
        let stored : v.contents (insert_attrs q row.0 ins_attr id s attrs)
            ≡ add_attrs
                (record (v.contents k.db) {
                  spans =
                      (v.contents k.db).spans
                      ++ (record { id = id; columns = span_columns k.service s } ∷ []);
                })
                (attr_rows id m.attrs) =
          span_attrs_stored row.0 id s attrs m.attrs
            (walk_attrs-AllShow walk_fuel w.aligned.within (omega (arith, few)) w.attrs)
            w.aligned.within
          ∙ ap (λ t. add_attrs t (attr_rows id m.attrs))
              (v.inserts k.db ins_span (span_columns k.service s) (takes k.db ins_span _)) in
        record {
          id = id;
          events =
              subst (λ t. EventsStored id t m.events (v.contents (sqlite_span q k s).db)) stored
                (subst
                  (λ db.
                    EventsStored id (v.contents (insert_attrs q row.0 ins_attr id s attrs)) m.events
                      (v.contents db))
                  (sym whole)
                  (insert_events-EventsStored own (insert_attrs q row.0 ins_attr id s attrs) id s
                    events m.events
                    (walk_events-AllShow walk_fuel w.aligned.within
                      (omega (arith, few, length-le-event_records m.events)) w.events)
                    w.aligned.within (omega (arith, few))));
        }

-- ===== src/Sqlite/Tables.antt =====
-- What the four tables of the schema hold, what the statements of the sink do to them, and what
-- the sink relies on when it calls SQLite.
pub use oteltracing_c.Base.Keys.{has}
use oteltracing_c.Base.{
  ◌^◌, ℕ, ◌≤◌, ◌<◌, ◌≡◌, Bool, true, false, not, some, List, [], ◌∷◌, ◌++◌, map,
}
use oteltracing_c.Base.Tests.{leb, if◌then◌else◌}
use oteltracing_c.Base.Lists.{All}
use oteltracing_c.Base.Text.{codes}
use oteltracing_c.Base.Int.{pos}
use oteltracing_c.Sqlite.{
  Sqlite, Datum, integer, Insert, ins_span, ins_attr, ins_event, ins_event_attr,
}
use oteltracing_c.Sqlite.Sink.{prune_text}

-- A row of spans: its primary key and the columns behind it.
pub record SpanRow : Type 0 where
  pub id : ℕ
  pub columns : List Datum

-- A row of span_attrs or span_event_attrs: the span or event it belongs to, and the columns.
pub record AttrRow : Type 0 where
  pub owner : ℕ
  pub columns : List Datum

pub record EventRow : Type 0 where
  pub id : ℕ
  pub span : ℕ
  pub columns : List Datum

pub record Tables : Type 0 where
  pub spans : List SpanRow
  pub attrs : List AttrRow
  pub events : List EventRow
  pub event_attrs : List AttrRow

-- The row that an INSERT adds, with `id` as the primary key where the table has one.
abbrev pub inserted : Tables → Insert → (id : ℕ) → List Datum → Tables
inserted t ins_span id cs = record t { spans = t.spans ++ (record { id = id; columns = cs } ∷ []) }
inserted t ins_attr id (integer (pos o) ∷ cs) = record t {
  attrs = t.attrs ++ (record { owner = o; columns = cs } ∷ []);
}
inserted t ins_event id (integer (pos o) ∷ cs) = record t {
  events = t.events ++ (record { id = id; span = o; columns = cs } ∷ []);
}
inserted t ins_event_attr id (integer (pos o) ∷ cs) = record t {
  event_attrs = t.event_attrs ++ (record { owner = o; columns = cs } ∷ []);
}
inserted t _ id _ = t

module _ {A : Type 0} where
  abbrev pub keep : (A → Bool) → List A → List A
  keep p [] = []
  keep p (x ∷ xs) = if p x then x ∷ keep p xs else keep p xs

abbrev pub span_ids : Tables → List ℕ
span_ids t = map (λ r. r.id) t.spans

abbrev pub event_ids : Tables → List ℕ
event_ids t = map (λ r. r.id) t.events

-- the ids of the events whose span is at or below the cutoff
abbrev pub old_events : ℕ → Tables → List ℕ
old_events c t = map (λ r. r.id) (keep (λ r. leb r.span c) t.events)

-- The four deletions of a prune, in order.
abbrev pub delete_event_attrs : ℕ → Tables → Tables
delete_event_attrs c t = record t {
  event_attrs = keep (λ r. not (has r.owner (old_events c t))) t.event_attrs;
}

abbrev pub delete_attrs : ℕ → Tables → Tables
delete_attrs c t = record t { attrs = keep (λ r. not (leb r.owner c)) t.attrs }

abbrev pub delete_events : ℕ → Tables → Tables
delete_events c t = record t { events = keep (λ r. not (leb r.span c)) t.events }

abbrev pub delete_spans : ℕ → Tables → Tables
delete_spans c t = record t { spans = keep (λ r. not (leb r.id c)) t.spans }

-- How far a prune came: each deletion is its own transaction, and the first that fails ends it.
pub data Pruned (c : ℕ) (t : Tables) : Bool → Tables → Type 0 where
  none_done : Pruned c t false t
  one_done : Pruned c t false (delete_event_attrs c t)
  two_done : Pruned c t false (delete_attrs c (delete_event_attrs c t))
  three_done : Pruned c t false (delete_events c (delete_attrs c (delete_event_attrs c t)))
  all_done :
      Pruned c t true (delete_spans c (delete_events c (delete_attrs c (delete_event_attrs c t))))

-- What the sink relies on, as the documentation of SQLite has it where a statement that fails
-- changes nothing and rolls nothing back; the errors on which SQLite rolls a whole transaction
-- back, such as a full disk, are not in it. `contents` is what the connection reads; `saved` is what the last COMMIT left, which is all that
-- remains when the connection is closed, since that rolls an open transaction back.
pub record Stores (q : Sqlite) : Type 1 where
  pub contents : q.Db → Tables
  pub saved : q.Db → Tables
  pub inserts :
      (db : q.Db) (st : Insert) (cs : List Datum)
      → (q.insert db st cs).1 ≡ true
      → contents (q.insert db st cs).0
        ≡ inserted (contents db) st (q.last_insert_rowid (q.insert db st cs).0) cs
  pub refuses :
      (db : q.Db) (st : Insert) (cs : List Datum)
      → (q.insert db st cs).1 ≡ false
      → contents (q.insert db st cs).0 ≡ contents db
  pub new_span_id :
      (db : q.Db) (cs : List Datum)
      → (q.insert db ins_span cs).1 ≡ true
      → All (λ n. n < q.last_insert_rowid (q.insert db ins_span cs).0) (0 ∷ span_ids (contents db))
  pub begins : (db : q.Db) → contents (q.exec db (codes "BEGIN")).0 ≡ contents db
  pub commits : (db : q.Db) → contents (q.exec db (codes "COMMIT")).0 ≡ contents db
  pub commits_saved :
      (db : q.Db)
      → (q.exec db (codes "COMMIT")).1 ≡ true
      → saved (q.exec db (codes "COMMIT")).0 ≡ contents db
  pub prunes :
      (db : q.Db) (c : ℕ)
      → c < 2 ^ 63
      → Pruned c (contents db) (q.exec db (prune_text c)).1 (contents (q.exec db (prune_text c)).0)
  pub max_id :
      (db : q.Db) (n : ℕ)
      → q.max_span_id db ≡ some n
      → All (λ (r : SpanRow). r.id ≤ n) (contents db).spans
  pub checkpoints : (db : q.Db) → contents (q.wal_checkpoint db) ≡ contents db
  pub checkpoints_saved : (db : q.Db) → saved (q.wal_checkpoint db) ≡ saved db
  pub closes : (db : q.Db) → contents (q.close db) ≡ saved db

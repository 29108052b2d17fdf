-- ===== src/Sqlite/Sink/Keeps.antt =====
-- Whatever SQLite refuses, the rows stay linked: every attribute, event and event attribute has its
-- owner in the tables.
use mathlib.Core.List.{map-append}
use oteltracing_c.Base.{◌<◌, ℕ, ◌≡◌, sym, subst, Bool, true, not, List, [], ◌∷◌, arith}
use oteltracing_c.Base.Tests.{leb}
use oteltracing_c.Base.Lists.{All, All-append, All-map}
use oteltracing_c.Base.Int.{pos}
use oteltracing_c.Sqlite.{Datum, integer, Insert, ins_span, ins_attr, ins_event, ins_event_attr}
use oteltracing_c.Sqlite.Tables.{
  SpanRow, AttrRow, EventRow, Tables, inserted, has, span_ids, event_ids, old_events,
  delete_event_attrs, delete_attrs, delete_events, delete_spans, Pruned, none_done, one_done,
  two_done, three_done, all_done,
}
use oteltracing_c.Sqlite.Sink.Keys.{
  Ascending, Ascending-snoc, Ascending-keep, All-keep, has-append, has-keep, has-split,
}

-- Every row has its owner, and the keys of spans ascend from 1.
pub record IsLinked (t : Tables) : Type 0 where
  pub keyed : Ascending (0 ∷ span_ids t)
  pub attrs : All (λ (r : AttrRow). has r.owner (span_ids t) ≡ true) t.attrs
  pub events : All (λ (r : EventRow). has r.span (span_ids t) ≡ true) t.events
  pub event_attrs : All (λ (r : AttrRow). has r.owner (event_ids t) ≡ true) t.event_attrs

-- `t'` has the keys that `t` has.
pub record Grown (t t' : Tables) : Type 0 where
  pub spans : (n : ℕ) → has n (span_ids t) ≡ true → has n (span_ids t') ≡ true
  pub events : (n : ℕ) → has n (event_ids t) ≡ true → has n (event_ids t') ≡ true

pub Grown-trans : {t u w : Tables} → Grown t u → Grown u w → Grown t w
Grown-trans a b = record {
  spans = λ n h. b.spans n (a.spans n h);
  events = λ n h. b.events n (a.events n h);
}

module _ {t : Tables} (c : ℕ) (v : IsLinked t) where
  one : IsLinked (delete_event_attrs c t)
  one = record {
    keyed = v.keyed;
    attrs = v.attrs;
    events = v.events;
    event_attrs =
        All-keep _ _ (λ (r : AttrRow). not (has r.owner (old_events c t))) t.event_attrs
          (λ r h k. h) v.event_attrs;
  }

  two : IsLinked (delete_attrs c (delete_event_attrs c t))
  two = record {
    keyed = v.keyed;
    attrs = All-keep _ _ (λ (r : AttrRow). not (leb r.owner c)) t.attrs (λ r h k. h) v.attrs;
    events = v.events;
    event_attrs = one.event_attrs;
  }

  -- The event attributes left belong to events that stay.
  three : IsLinked (delete_events c (delete_attrs c (delete_event_attrs c t)))
  three = record {
    keyed = v.keyed;
    attrs = two.attrs;
    events = All-keep _ _ (λ (r : EventRow). not (leb r.span c)) t.events (λ r h k. h) v.events;
    event_attrs =
        All-keep _ _ (λ (r : AttrRow). not (has r.owner (old_events c t))) t.event_attrs
          (λ r h k.
            has-split (λ (x : EventRow). x.id) (λ (x : EventRow). leb x.span c) r.owner t.events h
              (ground arith))
          v.event_attrs;
  }

  newer :
      (n : ℕ)
      → has n (span_ids t) ≡ true
      → not (leb n c) ≡ true
      → has n (span_ids (delete_spans c t)) ≡ true
  newer n h k =
      has-keep (λ (x : SpanRow). x.id) (λ (x : SpanRow). not (leb x.id c)) n t.spans (λ x e. rw e k)
        h

  four : IsLinked (delete_spans c (delete_events c (delete_attrs c (delete_event_attrs c t))))
  four = record {
    keyed =
        Ascending-keep (λ (x : SpanRow). x.id) (λ (x : SpanRow). not (leb x.id c)) 0 t.spans
          v.keyed;
    attrs =
        All-keep _ _ (λ (r : AttrRow). not (leb r.owner c)) t.attrs (λ r. newer r.owner) v.attrs;
    events =
        All-keep _ _ (λ (r : EventRow). not (leb r.span c)) t.events (λ r. newer r.span) v.events;
    event_attrs = three.event_attrs;
  }

  -- However far a prune comes, the rows stay linked.
  pub Pruned-IsLinked : {ok : Bool} {t' : Tables} → Pruned c t ok t' → IsLinked t'
  Pruned-IsLinked none_done = v
  Pruned-IsLinked one_done = one
  Pruned-IsLinked two_done = two
  Pruned-IsLinked three_done = three
  Pruned-IsLinked all_done = four

-- The owner of a new row.
abbrev pub Owned : Tables → Insert → ℕ → Type 0
Owned t ins_span o = ⊥
Owned t ins_attr o = has o (span_ids t) ≡ true
Owned t ins_event o = has o (span_ids t) ≡ true
Owned t ins_event_attr o = has o (event_ids t) ≡ true

pub Owned-Grown : {t t' : Tables} (st : Insert) (o : ℕ) → Grown t t' → Owned t st o → Owned t' st o
Owned-Grown ins_span o g h = h
Owned-Grown ins_attr o g h = g.spans o h
Owned-Grown ins_event o g h = g.spans o h
Owned-Grown ins_event_attr o g h = g.events o h

-- the keys of a table do not shrink
abbrev pub Kept : Tables → Tables → Type 0
Kept t t' = IsLinked t' × Grown t t'

pub Kept-self : {t : Tables} → IsLinked t → Kept t t
Kept-self v = (v, record { spans = λ n h. h; events = λ n h. h })

pub inserted_span :
    {t : Tables} (id : ℕ) (cs : List Datum)
    → IsLinked t
    → All (λ n. n < id) (0 ∷ span_ids t)
    → Kept t (inserted t ins_span id cs)
inserted_span {t} id cs v fresh =
    let row : SpanRow = record { id = id; columns = cs } in
    let more : (n : ℕ)
        → has n (span_ids t) ≡ true
        → has n (span_ids (inserted t ins_span id cs)) ≡ true =
      λ n. has-append (λ (x : SpanRow). x.id) n t.spans (row ∷ []) in
    (
      record {
        keyed =
            subst (λ l. Ascending (0 ∷ l))
              (sym (map-append (λ (x : SpanRow). x.id) t.spans (row ∷ [])))
              (Ascending-snoc (0 ∷ span_ids t) id v.keyed fresh);
        attrs = All-map _ _ t.attrs (λ r. more r.owner) v.attrs;
        events = All-map _ _ t.events (λ r. more r.span) v.events;
        event_attrs = v.event_attrs;
      },
      record { spans = more; events = λ n h. h },
    )

pub inserted-Kept :
    {t : Tables} (st : Insert) (id o : ℕ) (cs : List Datum)
    → IsLinked t
    → Owned t st o
    → Kept t (inserted t st id (integer (pos o) ∷ cs))
inserted-Kept ins_span id o cs v h = absurd h
inserted-Kept {t} ins_attr id o cs v h = (
  record {
    keyed = v.keyed;
    attrs = All-append _ t.attrs _ v.attrs (h, tt);
    events = v.events;
    event_attrs = v.event_attrs;
  },
  record { spans = λ n h. h; events = λ n h. h },
)
inserted-Kept {t} ins_event id o cs v h =
    let row : EventRow = record { id = id; span = o; columns = cs } in
    let more : (n : ℕ)
        → has n (event_ids t) ≡ true
        → has n (event_ids (inserted t ins_event id (integer (pos o) ∷ cs))) ≡ true =
      λ n. has-append (λ (x : EventRow). x.id) n t.events (row ∷ []) in
    (
      record {
        keyed = v.keyed;
        attrs = v.attrs;
        events = All-append _ t.events _ v.events (h, tt);
        event_attrs = All-map _ _ t.event_attrs (λ r. more r.owner) v.event_attrs;
      },
      record { spans = λ n h. h; events = more },
    )
inserted-Kept {t} ins_event_attr id o cs v h = (
  record {
    keyed = v.keyed;
    attrs = v.attrs;
    events = v.events;
    event_attrs = All-append _ t.event_attrs _ v.event_attrs (h, tt);
  },
  record { spans = λ n h. h; events = λ n h. h },
)

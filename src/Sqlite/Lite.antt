-- ===== src/Sqlite/Lite.antt =====
-- A small database in place of SQLite, for the examples: four lists of rows, one transaction, and
-- a lock that a COMMIT may meet.
use oteltracing_c.Sqlite.Sink.Retention.{All-id}
use oteltracing_c.Base.Lists.{All-append, drop, take, All, All-map}
use oteltracing_c.Base.{
  ℕ, zero, suc, ◌+◌, ◌*◌, ◌-◌, ◌/◌, ◌%◌, ◌^◌, ◌≤◌, ◌<◌, ◌≡◌, refl, sym, ap, subst, ◌∙◌, Bool, true,
  false, ◌&&◌, some, List, [], ◌∷◌, ◌++◌, arith, inl, inr,
}
use oteltracing_c.Base.Tests.{leb, ltb, ◌==◌, if◌then◌else◌, Bool-cases, if_ind}
use oteltracing_c.Base.Text.{codes, digits}
use oteltracing_c.Sqlite.{Sqlite, Datum, Insert, ins_span, ins_attr, ins_event, ins_event_attr}
use oteltracing_c.Sqlite.Tables.{
  SpanRow, Tables, inserted, span_ids, event_ids, delete_event_attrs, delete_attrs, delete_events,
  delete_spans, Pruned, all_done, Stores,
}
use oteltracing_c.Sqlite.Sink.{prune_text}

-- `saved` is what the last transaction left; `last` is the key of the last row; `locked` says that a COMMIT fails.
pub record Lite : Type 0 where
  pub tables : Tables
  pub saved : Tables
  pub last : ℕ
  pub busy : Bool
  pub locked : Bool

abbrev same_text : List ℕ → List ℕ → Bool
same_text [] [] = true
same_text [] (y ∷ ys) = false
same_text (x ∷ xs) [] = false
same_text (x ∷ xs) (y ∷ ys) = let rest = same_text xs ys in if x == y then rest else false

abbrev is_digit : ℕ → Bool
is_digit c = leb 48 c && leb c 57

-- the digits at the head of a text
abbrev take_digits : List ℕ → List ℕ
take_digits [] = []
take_digits (c ∷ cs) = let rest = take_digits cs in if is_digit c then c ∷ rest else []

-- the number that digits make, behind the number `n`
abbrev undigits : ℕ → List ℕ → ℕ
undigits n [] = n
undigits n (c ∷ cs) = undigits (10 * n + (c - 48)) cs

undigits-snoc :
    (n : ℕ) (xs : List ℕ) (d : ℕ) → undigits n (xs ++ ((48 + d) ∷ [])) ≡ 10 * undigits n xs + d
undigits-snoc n [] d = omega arith
undigits-snoc n (x ∷ xs) d = undigits-snoc (10 * n + (x - 48)) xs d

undigits-digits : (f m : ℕ) → m < 10 ^ f → undigits 0 (digits f m) ≡ m
unfolding digits
undigits-digits zero m h = omega (arith, h)
undigits-digits (suc f) m h = elim (Bool-cases (ltb m 10)) [
  | inl small ↦ rw small (omega arith)
  | inr large ↦
      let ih : undigits 0 (digits f (m / 10)) ≡ m / 10 =
        undigits-digits f (m / 10) (omega (arith, h)) in
      rw (large, undigits-snoc 0 (digits f (m / 10)) (m % 10), ih) (omega arith)
]

digits-All : (f m : ℕ) → All (λ c. is_digit c ≡ true) (digits f m)
unfolding digits
digits-All zero m = tt
digits-All (suc f) m = elim (Bool-cases (ltb m 10)) [
  | inl small ↦ rw small (ground arith, tt)
  | inr large ↦
      rw large (All-append _ (digits f (m / 10)) _ (digits-All f (m / 10)) (ground arith, tt))
]

take_digits-append :
    (xs ys : List ℕ) → All (λ c. is_digit c ≡ true) xs → take_digits (xs ++ (b')' ∷ ys)) ≡ xs
take_digits-append [] ys h = refl
take_digits-append (x ∷ xs) ys h = rw h.0 (ap (λ l. x ∷ l) (take_digits-append xs ys h.1))

-- the cutoff in a text of `prune_text`
unfoldable pub read_cutoff : List ℕ → ℕ
read_cutoff sql = undigits 0 (take_digits (drop 86 sql))

read_cutoff-prune_text : (c : ℕ) → c < 2 ^ 63 → read_cutoff (prune_text c) ≡ c
unfolding read_cutoff
read_cutoff-prune_text c h =
    ap (undigits 0) (take_digits-append (digits 19 c) _ (digits-All 19 c))
    ∙ undigits-digits 19 c (omega arith)

abbrev top : List ℕ → ℕ
top [] = 0
top (n ∷ ns) = let m = top ns in if ltb m n then n else m

le-top : (ns : List ℕ) → All (λ n. n ≤ top ns) ns
le-top [] = tt
le-top (n ∷ ns) = (ground arith, All-map _ _ ns (λ m h. ground arith) (le-top ns))

below_new : (ns : List ℕ) → All (λ n. n < suc (top ns)) ns
below_new ns = All-map _ _ ns (λ n h. omega arith) (le-top ns)

-- the primary key of a new row
abbrev new_id : Tables → Insert → ℕ
new_id t ins_span = suc (top (span_ids t))
new_id t ins_attr = 0
new_id t ins_event = suc (top (event_ids t))
new_id t ins_event_attr = 0

abbrev deleted : ℕ → Tables → Tables
deleted c t = delete_spans c (delete_events c (delete_attrs c (delete_event_attrs c t)))

-- Outside a transaction a change is saved at once.
abbrev changed : Lite → Tables → Lite
changed db t = record db { tables = t; saved = if db.busy then db.saved else t }

abbrev lite_exec : Lite → List ℕ → Lite × Bool
lite_exec db sql =
    if same_text sql (codes "BEGIN")
    then (if db.busy then (db, false) else (record db { busy = true }, true))
    else if same_text sql (codes "COMMIT")
    then (if db.locked then (db, false) else (record db { saved = db.tables; busy = false }, true))
    else if same_text (take 7 sql) (codes "DELETE ")
    then (changed db (deleted (read_cutoff sql) db.tables), true)
    else (db, true)

abbrev lite_insert : Lite → Insert → List Datum → Lite × Bool
lite_insert db st cs =
    let id = new_id db.tables st in
    (record (changed db (inserted db.tables st id cs)) { last = id }, true)

abbrev pub lite : Sqlite
lite = record {
  Db = Lite;
  exec = lite_exec;
  insert = lite_insert;
  last_insert_rowid = λ db. db.last;
  max_span_id = λ db. some (top (span_ids db.tables));
  wal_checkpoint = λ db. db;
  close = λ db. record db { tables = db.saved; busy = false };
}

abbrev contents_of : Lite → Tables
contents_of db = db.tables

pub lite-refuses :
    (db : Lite) (st : Insert) (cs : List Datum)
    → (lite_insert db st cs).1 ≡ false
    → (lite_insert db st cs).0.tables ≡ db.tables
lite-refuses db st cs h = absurd (let e : true ≡ false = h in (cc e))

pub lite-new_span_id :
    (db : Lite) (cs : List Datum)
    → (lite_insert db ins_span cs).1 ≡ true
    → All (λ n. n < (lite_insert db ins_span cs).0.last) (0 ∷ span_ids db.tables)
lite-new_span_id db cs h = (omega arith, below_new (span_ids db.tables))

pub lite-begins : (db : Lite) → (lite_exec db (codes "BEGIN")).0.tables ≡ db.tables
lite-begins db =
    if_ind (λ (r : Lite × Bool). r.0.tables ≡ db.tables) db.busy (λ on. refl) (λ off. refl)

pub lite-commits : (db : Lite) → (lite_exec db (codes "COMMIT")).0.tables ≡ db.tables
lite-commits db =
    if_ind (λ (r : Lite × Bool). r.0.tables ≡ db.tables) db.locked (λ on. refl) (λ off. refl)

pub lite-commits_saved :
    (db : Lite)
    → (lite_exec db (codes "COMMIT")).1 ≡ true
    → (lite_exec db (codes "COMMIT")).0.saved ≡ db.tables
lite-commits_saved db =
    if_ind (λ (r : Lite × Bool). r.1 ≡ true → r.0.saved ≡ db.tables) db.locked
      (λ on e. absurd (cc e)) (λ off e. refl)

pub lite-prunes :
    (db : Lite) (c : ℕ)
    → c < 2 ^ 63
    → Pruned c db.tables (lite_exec db (prune_text c)).1 (lite_exec db (prune_text c)).0.tables
lite-prunes db c h =
    subst (λ n. Pruned c db.tables true (deleted n db.tables)) (sym (read_cutoff-prune_text c h))
      all_done

pub lite-max_id :
    (db : Lite) (n : ℕ)
    → some (top (span_ids db.tables)) ≡ some n
    → All (λ (r : SpanRow). r.id ≤ n) db.tables.spans
lite-max_id db n e =
    let same : top (span_ids db.tables) ≡ n = cc e in
    All-id (λ i. i ≤ top (span_ids db.tables)) (λ i. i ≤ n) db.tables.spans
      (λ i h. omega (arith, h, same)) (le-top (span_ids db.tables))

abbrev pub lite-Stores : Stores lite
lite-Stores = record {
  contents = contents_of;
  saved = λ db. db.saved;
  inserts = λ db st cs h. refl;
  refuses = lite-refuses;
  new_span_id = lite-new_span_id;
  begins = lite-begins;
  commits = lite-commits;
  commits_saved = lite-commits_saved;
  prunes = lite-prunes;
  max_id = lite-max_id;
  checkpoints = λ db. refl;
  checkpoints_saved = λ db. refl;
  closes = λ db. refl;
}

pub lite-accepts : (db : Lite) (c : ℕ) → c < 2 ^ 63 → (lite_exec db (prune_text c)).1 ≡ true
lite-accepts db c h = refl

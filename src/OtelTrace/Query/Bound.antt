-- ===== src/OtelTrace/Query/Bound.antt =====
-- Each parameter of the queries is bound, and no text is cut.
use oteltracing_c.Base.{
  ℕ, ◌+◌, ◌-◌, ◌≤◌, ◌≡◌, refl, sym, ap, ◌∙◌, Bool, true, false, Option, none, some, List, [], ◌∷◌,
  ◌++◌, arith, ◌<◌,
}
use oteltracing_c.Base.Tests.{if◌then◌else◌}
use oteltracing_c.Base.Lists.{length, take_all, length-append}
use oteltracing_c.Base.Text.{codes}
use oteltracing_c.Sqlite.{Datum, integer}
use oteltracing_c.Sqlite.Schema.{count}
use oteltracing_c.OtelTrace.Query.{
  Filters, is_given, is_set, sql_cap, strncat, append_if, append_filters, bind_text, bind_filters,
  limit_of, list_head, list_sql, spans_head, spans_sql, bindings, scale, minus,
}

pub count-append : (c : ℕ) (xs ys : List ℕ) → count c (xs ++ ys) ≡ count c xs + count c ys
count-append c [] ys = omega arith
count-append c (x ∷ xs) ys = ground (arith, count-append c xs ys)

-- The text of at most `room` bytes with `marks` parameters.
record Fits (sql : List ℕ) (room marks : ℕ) : Type 0 where
  fits : length sql ≤ room
  marked : count b'?' sql ≡ marks

strncat_lem : (sql s : List ℕ) → length sql + length s ≤ 1023 → strncat sql s ≡ sql ++ s
unfolding strncat
strncat_lem sql s h = ap (λ t. sql ++ t) (take_all (sql_cap - length sql - 1) s (omega (arith, h)))

strncat-Fits :
    (sql s : List ℕ) (room marks : ℕ)
    → Fits sql room marks
    → room + length s ≤ 1023
    → Fits (strncat sql s) (room + length s) (marks + count b'?' s)
strncat-Fits sql s room marks v h = rw (strncat_lem sql s (omega (arith, v.fits, h))) (record {
  fits = omega (arith, length-append sql s, v.fits);
  marked = omega (arith, count-append b'?' sql s, v.marked);
})

append_if-Fits :
    (given : Bool) (s sql : List ℕ) (room marks : ℕ)
    → Fits sql room marks
    → room + length s ≤ 1023
    → Fits (append_if given s sql) (room + length s) (marks + (if given then count b'?' s else 0))
unfolding append_if
append_if-Fits true s sql room marks v h = strncat-Fits sql s room marks v h
append_if-Fits false s sql room marks v h = record {
  fits = omega (arith, v.fits);
  marked = omega (arith, v.marked);
}

-- how many filters bind a value
abbrev bound_of : Filters → ℕ
bound_of f =
    (if is_given f.service then 1 else 0)
    + (if is_given f.name then 1 else 0)
    + (if f.status_error then 0 else 0)
    + (if is_set f.since_sec then 1 else 0)
    + (if is_set f.min_duration_us then 1 else 0)

Fits-le : {sql : List ℕ} {a b m : ℕ} → Fits sql a m → a ≤ b → Fits sql b m
Fits-le v h = record { fits = omega (arith, v.fits, h); marked = v.marked }

append_filters-Fits :
    (f : Filters) (sql : List ℕ) (room : ℕ)
    → Fits sql room 0
    → room ≤ 900
    → Fits (append_filters f sql) (room + 96) (bound_of f)
unfolding append_filters
append_filters-Fits f sql room v h =
    let a =
      append_if-Fits (is_given f.service) (codes " AND service = ?") sql room 0 v
        (omega (arith, h)) in
    let b =
      append_if-Fits (is_given f.name) (codes " AND name = ?") _ (room + 16) _ a
        (omega (arith, h)) in
    let c =
      append_if-Fits f.status_error (codes " AND status_code = 2") _ (room + 29) _
        (Fits-le b (omega arith)) (omega (arith, h)) in
    let d =
      append_if-Fits (is_set f.since_sec) (codes " AND start_unix_ns >= ?") _ (room + 49) _
        (Fits-le c (omega arith)) (omega (arith, h)) in
    let e =
      append_if-Fits (is_set f.min_duration_us) (codes " AND duration_ns >= ?") _ (room + 72) _
        (Fits-le d (omega arith)) (omega (arith, h)) in
    record { fits = omega (arith, e.fits); marked = omega (arith, e.marked) }

length-bind_text :
    (o : Option (List ℕ)) (rest : List Datum)
    → length (bind_text o rest) ≡ (if is_given o then 1 else 0) + length rest
length-bind_text none rest = omega arith
length-bind_text (some t) rest = omega arith

if_same : (b : Bool) → ◌≡◌ {A = ℕ} (if b then 0 else 0) 0
if_same true = refl
if_same false = refl

length_bound :
    (b : Bool) (d : Datum) (rest : List Datum)
    → length (if b then d ∷ rest else rest) ≡ (if b then 1 else 0) + length rest
length_bound true d rest = omega arith
length_bound false d rest = omega arith

length-bind_filters :
    (now_sec : ℕ) (f : Filters) (rest : List Datum)
    → length (bind_filters now_sec f rest) ≡ bound_of f + length rest
unfolding bind_filters
length-bind_filters now_sec f rest =
    let least =
      if is_set f.min_duration_us then integer (scale 1000 f.min_duration_us) ∷ rest else rest in
    let since =
      if is_set f.since_sec
      then integer (scale 1000000000 (minus now_sec f.since_sec)) ∷ least
      else least in
    length-bind_text f.service (bind_text f.name since)
    ∙ omega (
      arith,
      length-bind_text f.name since,
      length_bound (is_set f.since_sec) (integer (scale 1000000000 (minus now_sec f.since_sec)))
          least,
      length_bound (is_set f.min_duration_us) (integer (scale 1000 f.min_duration_us)) rest,
      if_same f.status_error,
    )

-- A whole query: a head with no parameter, the filters and the end.
query-Fits :
    (f : Filters) (head tail : List ℕ)
    → Fits head 500 0
    → length tail ≤ 100
    → Fits (strncat (append_filters f head) tail) 700 (bound_of f + count b'?' tail)
query-Fits f head tail v h =
    Fits-le
      (strncat-Fits (append_filters f head) tail 596 (bound_of f)
        (append_filters-Fits f head 500 v (omega arith)) (omega (arith, h)))
      (omega (arith, h))

-- For any filters and any time, the texts of cmd_list and of cmd_spans have exactly as many
-- parameters as are bound to them, the filters that are given and the limit, and each text is
-- shorter than its buffer of 1024 bytes, so that no strncat cuts it.
pub bindings_complete :
    (now_sec : ℕ) (f : Filters)
    → (count b'?' (list_sql f) ≡ length (bindings now_sec f))
      × (count b'?' (spans_sql f) ≡ length (bindings now_sec f))
      × length (list_sql f) < 1024
      × length (spans_sql f) < 1024
unfolding list_sql spans_sql bindings list_head spans_head
bindings_complete now_sec f =
    let l =
      query-Fits f list_head (codes " GROUP BY trace_id ORDER BY MIN(start_unix_ns) DESC LIMIT ?")
        (record { fits = omega arith; marked = refl }) (omega arith) in
    let s =
      query-Fits f spans_head (codes " ORDER BY start_unix_ns DESC LIMIT ?")
        (record { fits = omega arith; marked = refl }) (omega arith) in
    let b = length-bind_filters now_sec f (integer (limit_of f.limit) ∷ []) in
    (l.marked ∙ sym b, s.marked ∙ sym b, omega (arith, l.fits), omega (arith, s.fits))

-- ===== src/OtelTrace/Rows.antt =====
-- What tools/otel-trace.c prints of a row of attributes, of an event and of a duration:
-- `kind_name`, `status_name`, `fmt_dur`, `make_pad`, `print_attr_rows`, `print_event_attrs` and
-- `print_attrs_events`. The numbers that `printf` prints of a `double`, and the columns of SQLite,
-- are parameters.

pub mod Shown
use oteltracing_c.Base.{
  ℕ, zero, suc, ◌+◌, ◌*◌, ◌-◌, Bool, true, false, Option, none, some, List, [], ◌∷◌, ◌++◌,
}
use oteltracing_c.Base.Tests.{ltb, leb, ◌==◌, if◌then◌else◌}
use oteltracing_c.Base.Int.{ℤ, pos, negsuc}
use oteltracing_c.Base.Lists.{take}
use oteltracing_c.Base.Text.{codes, digits}
use oteltracing_c.Sqlite.{Datum, null}

-- `printf`: "%g", "%.<places>f" of `ns / unit`, and "%s" of NULL
pub record Printf : Type 0 where
  pub general : ℕ → List ℕ
  pub fixed : (places : ℕ) → (ns : ℤ) → (unit : ℕ) → List ℕ
  pub null_text : List ℕ

-- `sqlite3_column_text`, which may be NULL, `sqlite3_column_int64`, `sqlite3_column_int` and
-- `sqlite3_column_double` of a value
pub record Columns : Type 0 where
  pub column_text : Datum → Option (List ℕ)
  pub column_int64 : Datum → ℤ
  pub column_int : Datum → ℤ
  pub column_double : Datum → ℕ

abbrev pub column : ℕ → List Datum → Datum
column i [] = null
column zero (d ∷ ds) = d
column (suc i) (d ∷ ds) = column i ds

-- The rows of the statements on one span or event; `none` where the statement is not prepared.
pub record Db : Type 0 where
  pub attr_rows : ℤ → Option (List (List Datum))
  pub event_rows : ℤ → Option (List (List Datum))
  pub event_attr_rows : ℤ → Option (List (List Datum))

abbrev pub or_else : Option (List ℕ) → List ℕ → List ℕ
or_else none other = other
or_else (some t) other = t

-- "%lld"
abbrev pub signed_text : ℤ → List ℕ
signed_text (pos n) = digits 20 n
signed_text (negsuc n) = 45 ∷ digits 20 (n + 1)

unfoldable pub kind_name : ℤ → List ℕ
kind_name (pos k) =
    if k == 1
    then codes "server"
    else if k == 2
    then codes "client"
    else if k == 3
    then codes "producer"
    else if k == 4
    then codes "consumer"
    else codes "internal"
kind_name (negsuc k) = codes "internal"

unfoldable pub status_name : ℤ → List ℕ
status_name (pos k) = if k == 1 then codes "ok" else if k == 2 then codes "ERROR" else codes "unset"
status_name (negsuc k) = codes "unset"

abbrev pub below : ℤ → ℕ → Bool
below (pos n) bound = ltb n bound
below (negsuc n) bound = true

abbrev pub is_zero : ℤ → Bool
is_zero (pos n) = n == 0
is_zero (negsuc n) = false

abbrev pub spaces : ℕ → List ℕ
spaces zero = []
spaces (suc n) = 32 ∷ spaces n

-- `make_pad`, of a width that is not negative
unfoldable pub make_pad : ℕ → List ℕ
make_pad width = spaces (if ltb 60 width then 60 else width)

module _ (io : Printf) where
  -- `fmt_dur` into a buffer of 24 bytes
  unfoldable pub fmt_dur : ℤ → List ℕ
  fmt_dur ns = take 23 (
      if below ns 1000
      then signed_text ns ++ codes "ns"
      else if below ns 1000000
      then io.fixed 1 ns 1000 ++ codes "us"
      else if below ns 1000000000
      then io.fixed 2 ns 1000000 ++ codes "ms"
      else io.fixed 2 ns 1000000000 ++ codes "s")

  module _ (sql : Columns) where
    -- the `switch` on the type of an attribute
    abbrev pub value_line : ℤ → List Datum → List ℕ
    value_line (negsuc t) row = codes "?"
    value_line (pos t) row =
        if t == 0
        then 34 ∷ (or_else (sql.column_text (column 2 row)) io.null_text ++ (34 ∷ []))
        else if t == 1
        then signed_text (sql.column_int64 (column 3 row))
        else if t == 2
        then signed_text (sql.column_int64 (column 3 row))
        else if t == 3
        then io.general (sql.column_double (column 4 row))
        else if t == 4
        then (if is_zero (sql.column_int64 (column 3 row)) then codes "false" else codes "true")
        else codes "?"

    -- one round of the loop of `print_attr_rows`
    abbrev pub attr_row : List ℕ → List Datum → List ℕ
    attr_row pad row =
        pad
        ++ (codes "- "
            ++ (or_else (sql.column_text (column 0 row)) (codes "?")
                ++ (codes " = " ++ (value_line (sql.column_int (column 1 row)) row ++ (10 ∷ [])))))

    unfoldable pub print_attr_rows : List ℕ → List (List Datum) → List ℕ
    print_attr_rows pad [] = []
    print_attr_rows pad (row ∷ rows) = attr_row pad row ++ print_attr_rows pad rows

    abbrev pub if_prepared : List ℕ → Option (List (List Datum)) → List ℕ
    if_prepared pad none = []
    if_prepared pad (some rows) = print_attr_rows pad rows

    module _ (db : Db) where
      unfoldable pub print_event_attrs : ℤ → ℕ → List ℕ
      print_event_attrs event_id width = if_prepared (make_pad width) (db.event_attr_rows event_id)

      -- the loop over the events
      unfoldable pub print_events : ℕ → List (List Datum) → List ℕ
      print_events p [] = []
      print_events p (row ∷ rows) =
          make_pad p
          ++ (codes "* event: "
              ++ (or_else (sql.column_text (column 1 row)) io.null_text
                  ++ (10
                      ∷ (print_event_attrs (sql.column_int64 (column 0 row)) (p + 2)
                          ++ print_events p rows))))

      abbrev pub events_if_prepared : ℕ → Option (List (List Datum)) → List ℕ
      events_if_prepared p none = []
      events_if_prepared p (some rows) = print_events p rows

      -- `print_attrs_events`
      unfoldable pub print_attrs_events : ℤ → ℕ → List ℕ
      print_attrs_events span_id depth =
          let wide = depth * 2 + 2 in
          let p = if ltb 60 wide then 60 else wide in
          if_prepared (make_pad wide) (db.attr_rows span_id)
          ++ events_if_prepared p (db.event_rows span_id)

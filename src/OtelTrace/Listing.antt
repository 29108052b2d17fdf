-- ===== src/OtelTrace/Listing.antt =====
-- The tables of tools/otel-trace.c: `cmd_list`, `cmd_spans`, `cmd_stats`, `cmd_sql` with
-- `sql_print_row`, and `fmt_time`. The rows that SQLite gives for a text and its bindings are a
-- parameter, and so is the calendar of the C library.

pub mod Rows
use oteltracing_c.Base.{
  ℕ, zero, suc, ◌+◌, ◌-◌, ◌/◌, ◌%◌, Bool, true, false, Option, none, some, List, [], ◌∷◌, ◌++◌,
}
use oteltracing_c.Base.Tests.{ltb, ◌==◌, if◌then◌else◌}
use oteltracing_c.Base.Int.{ℤ, pos, negsuc}
use oteltracing_c.Base.Lists.{length, take}
use oteltracing_c.Base.Text.{codes, digits}
use oteltracing_c.Sqlite.{Datum}
use oteltracing_c.OtelTrace.Query.{Filters, list_sql, spans_sql, bindings}
use oteltracing_c.OtelTrace.Rows.{
  Printf, Columns, column, or_else, signed_text, spaces, is_zero, kind_name, status_name, fmt_dur,
}

-- "%<w>s" and "%-<w>s"
abbrev pub right : ℕ → List ℕ → List ℕ
right w s = spaces (w - length s) ++ s

abbrev pub left : ℕ → List ℕ → List ℕ
left w s = s ++ spaces (w - length s)

-- "%0<w>ld"
abbrev pub zeros : ℕ → List ℕ
zeros zero = []
zeros (suc n) = 48 ∷ zeros n

abbrev pub zero_padded : ℕ → ℤ → List ℕ
zero_padded w (pos n) = let s = digits 20 n in zeros (w - length s) ++ s
zero_padded w (negsuc n) = let s = digits 20 (n + 1) in 45 ∷ (zeros (w - 1 - length s) ++ s)

abbrev pub negated : ℕ → ℤ
negated zero = pos 0
negated (suc n) = negsuc n

-- the quotient of `long long`, towards 0, and the remainder
abbrev pub quotient : ℤ → ℕ → ℤ
quotient (pos n) d = pos (n / d)
quotient (negsuc n) d = negated ((n + 1) / d)

abbrev pub remainder : ℤ → ℕ → ℤ
remainder (pos n) d = pos (n % d)
remainder (negsuc n) d = negated ((n + 1) % d)

-- What SQLite gives for a text and the values bound to it, or `none` where it is not prepared; and
-- for `sqlite3_exec` the names and values that the callback gets for each row, and whether it
-- returns SQLITE_OK.
pub record Answers : Type 0 where
  pub rows : List ℕ → List Datum → Option (List (List Datum))
  pub exec : List ℕ → List (List (List ℕ) × List (Option (List ℕ))) × Bool

-- the cells of a line, which `printf` puts a space between
abbrev pub line : List (List ℕ) → List ℕ
line [] = 10 ∷ []
line (c ∷ []) = c ++ (10 ∷ [])
line (c ∷ d ∷ cs) = c ++ (32 ∷ line (d ∷ cs))

abbrev pub all_rows : (List Datum → List ℕ) → List (List Datum) → List ℕ
all_rows f [] = []
all_rows f (row ∷ rows) = f row ++ all_rows f rows

-- The standard output and the result of a command with a table.
abbrev pub table : List ℕ → (List Datum → List ℕ) → Option (List (List Datum)) → List ℕ × ℕ
table heading f none = ([], 1)
table heading f (some rows) = (heading ++ all_rows f rows, 0)

unfoldable pub stats_sql : List ℕ
stats_sql =
    codes "SELECT name, COUNT(*),        CAST(AVG(duration_ns) AS INTEGER), "
    ++ (codes "       MIN(duration_ns), MAX(duration_ns),        SUM(CASE WHEN status_code=2 "
        ++ codes "THEN 1 ELSE 0 END) FROM spans GROUP BY name ORDER BY COUNT(*) DESC LIMIT 50")

-- the fields of a row, with "|" between them
abbrev pub barred : List (List ℕ) → List ℕ
barred [] = 10 ∷ []
barred (c ∷ []) = c ++ (10 ∷ [])
barred (c ∷ d ∷ cs) = c ++ (124 ∷ barred (d ∷ cs))

abbrev pub values_text : List (Option (List ℕ)) → List (List ℕ)
values_text [] = []
values_text (v ∷ vs) = or_else v (codes "NULL") ∷ values_text vs

-- `sql_print_row`, with `first`; the output so far, and `first` after it
unfoldable pub sql_print_row :
    Bool × List ℕ → List (List ℕ) × List (Option (List ℕ)) → Bool × List ℕ
sql_print_row (first, out) (names, vals) =
    (false, out ++ ((if first then barred names else []) ++ barred (values_text vals)))

abbrev pub sql_rows : Bool × List ℕ → List (List (List ℕ) × List (Option (List ℕ))) → Bool × List ℕ
sql_rows st [] = st
sql_rows st (row ∷ rows) = sql_rows (sql_print_row st row) rows

-- `calendar` is what `strftime` makes of the local time of a second.
module _ (io : Printf) (calendar : ℤ → List ℕ) (sql : Columns) (db : Answers) where
  -- `fmt_time` into a buffer of 40 bytes
  unfoldable pub fmt_time : ℤ → List ℕ
  fmt_time unix_ns = take 39 (
      calendar (quotient unix_ns 1000000000)
      ++ (46 ∷ zero_padded 3 (quotient (remainder unix_ns 1000000000) 1000000)))

  abbrev pub list_row : List Datum → List ℕ
  list_row row = line (
      left 34 (or_else (sql.column_text (column 0 row)) (codes "?"))
      ∷ left 10 (or_else (sql.column_text (column 6 row)) (codes "-"))
      ∷ left 23 (fmt_time (sql.column_int64 (column 1 row)))
      ∷ right 10 (fmt_dur io (sql.column_int64 (column 2 row)))
      ∷ right 5 (signed_text (sql.column_int (column 3 row)))
      ∷ (or_else (sql.column_text (column 5 row)) (codes "(no root)")
          ++ (if is_zero (sql.column_int (column 4 row)) then [] else codes "  [ERROR]"))
      ∷ [])

  abbrev pub spans_row : List Datum → List ℕ
  spans_row row = line (
      left 23 (fmt_time (sql.column_int64 (column 0 row)))
      ∷ right 10 (fmt_dur io (sql.column_int64 (column 1 row)))
      ∷ left 10 (or_else (sql.column_text (column 2 row)) (codes "-"))
      ∷ left 8 (kind_name (sql.column_int (column 4 row)))
      ∷ left 6 (status_name (sql.column_int (column 5 row)))
      ∷ left 24 (or_else (sql.column_text (column 3 row)) (codes "?"))
      ∷ or_else (sql.column_text (column 6 row)) (codes "?")
      ∷ [])

  abbrev pub stats_row : List Datum → List ℕ
  stats_row row = line (
      left 28 (or_else (sql.column_text (column 0 row)) (codes "?"))
      ∷ right 8 (signed_text (sql.column_int (column 1 row)))
      ∷ right 10 (fmt_dur io (sql.column_int64 (column 2 row)))
      ∷ right 10 (fmt_dur io (sql.column_int64 (column 3 row)))
      ∷ right 10 (fmt_dur io (sql.column_int64 (column 4 row)))
      ∷ right 7 (signed_text (sql.column_int (column 5 row)))
      ∷ [])

  unfoldable pub cmd_list : (now_sec : ℕ) → Filters → List ℕ × ℕ
  cmd_list now_sec f =
      table
        (line (
          left 34 (codes "TRACE ID")
          ∷ left 10 (codes "SERVICE")
          ∷ left 23 (codes "START")
          ∷ right 10 (codes "DURATION")
          ∷ right 5 (codes "SPANS")
          ∷ codes "ROOT"
          ∷ []))
        list_row (db.rows (list_sql f) (bindings now_sec f))

  unfoldable pub cmd_spans : (now_sec : ℕ) → Filters → List ℕ × ℕ
  cmd_spans now_sec f =
      table
        (line (
          left 23 (codes "START")
          ∷ right 10 (codes "DURATION")
          ∷ left 10 (codes "SERVICE")
          ∷ left 8 (codes "KIND")
          ∷ left 6 (codes "STATUS")
          ∷ left 24 (codes "NAME")
          ∷ codes "TRACE"
          ∷ []))
        spans_row (db.rows (spans_sql f) (bindings now_sec f))

  unfoldable pub cmd_stats : List ℕ × ℕ
  cmd_stats =
      table
        (line (
          left 28 (codes "NAME")
          ∷ right 8 (codes "COUNT")
          ∷ right 10 (codes "AVG")
          ∷ right 10 (codes "MIN")
          ∷ right 10 (codes "MAX")
          ∷ right 7 (codes "ERRORS")
          ∷ []))
        stats_row (db.rows stats_sql [])

  -- `cmd_sql`
  unfoldable pub cmd_sql : List ℕ → List ℕ × ℕ
  cmd_sql query =
      let (rows, ok) = db.exec query in ((sql_rows (true, []) rows).1, if ok then 0 else 1)

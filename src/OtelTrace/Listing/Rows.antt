-- ===== src/OtelTrace/Listing/Rows.antt =====
-- The lines of the tables, for the rows that the sink stores and for those of a query.
use oteltracing_c.Base.{
  ℕ, ◌+◌, ◌-◌, ◌%◌, ◌^◌, ◌<◌, ◌≡◌, refl, sym, ap, ◌∙◌, Bool, true, false, Option, some, List, [],
  ◌∷◌, ◌++◌,
}
use mathlib.Core.List.{append-nil, append_assoc}
use oteltracing_c.Base.Tests.{if◌then◌else◌}
use oteltracing_c.Base.Int.{ℤ, pos, to_int64}
use oteltracing_c.Base.Lists.{All, c_string}
use oteltracing_c.Span.{Span}
use oteltracing_c.Span.View.{SpanView, IsSpan}
use oteltracing_c.Sqlite.{Datum, text}
use oteltracing_c.Sqlite.Hex.{hex, unhex-hex}
use oteltracing_c.Sqlite.Sink.{span_columns}
use oteltracing_c.Sqlite.Sink.Attrs.{strv-IsStr}
use oteltracing_c.OtelTrace.Rows.{Printf, Columns, column, kind_name, status_name, fmt_dur}
use oteltracing_c.OtelTrace.Rows.Shown.{IsColumns, IsStr-whole}
use oteltracing_c.OtelTrace.Listing.{
  Answers, left, right, fmt_time, line, spans_row, barred, values_text, sql_print_row, sql_rows,
  cmd_sql,
}

-- The columns that `cmd_spans` selects: start_unix_ns, duration_ns, service, name, kind,
-- status_code, trace_id.
abbrev pub listed : List Datum → List Datum
listed row =
    column 8 row
    ∷ column 10 row
    ∷ column 3 row
    ∷ column 4 row
    ∷ column 5 row
    ∷ column 6 row
    ∷ column 0 row
    ∷ []

-- the lines of values
abbrev pub value_lines : List (List (List ℕ) × List (Option (List ℕ))) → List ℕ
value_lines [] = []
value_lines (row ∷ rows) = barred (values_text row.1) ++ value_lines rows

module _ (io : Printf) (calendar : ℤ → List ℕ) (sql : Columns) (db : Answers) where
  -- If the columns of SQLite read back what is stored in them, a span holds m, the service name
  -- has no zero byte, the trace identifier is of bytes, and kind and status are below 2^31, then
  -- from the row that the sink stores of the span cmd_spans prints one line: the start, the
  -- duration (the difference of the times modulo 2^64, as int64_t), the service, the kind, the
  -- status, the name of m and the hexadecimal trace identifier, each in its column.
  pub spans_row-stored :
      {own : ℕ → ℕ} {s : Span} {m : SpanView} (service : List ℕ)
      → IsColumns sql
      → IsSpan own s m
      → c_string service ≡ service
      → All (λ b. b < 256) s.trace_id
      → s.kind < 2 ^ 31
      → s.status < 2 ^ 31
      → spans_row io calendar sql db (listed (span_columns service s))
        ≡ line (
            left 23 (fmt_time io calendar sql db (to_int64 s.start_unix_ns))
            ∷ right 10 (fmt_dur io (to_int64 ((s.end_unix_ns + 2 ^ 64 - s.start_unix_ns) % 2 ^ 64)))
            ∷ left 10 service
            ∷ left 8 (kind_name (pos s.kind))
            ∷ left 6 (status_name (pos s.status))
            ∷ left 24 m.name
            ∷ hex s.trace_id
            ∷ [])
  unfolding span_columns
  spans_row-stored {own} {s} {m} service law v whole bytes kind status =
      let name : sql.column_text (column 3 (listed (span_columns service s))) ≡ some m.name =
        ap (λ t. sql.column_text (text t)) (strv-IsStr s v.aligned.within v.name)
        ∙ law.text m.name (IsStr-whole v.name) in
      rw
        (
          law.int64 (to_int64 s.start_unix_ns),
          law.int64 (to_int64 ((s.end_unix_ns + 2 ^ 64 - s.start_unix_ns) % 2 ^ 64)),
          law.text service whole,
          law.int s.kind kind,
          law.int s.status status,
          name,
          law.text (hex s.trace_id) (unhex-hex s.trace_id bytes).2,
        )
        refl

  sql_rows-later :
      (out : List ℕ) (rows : List (List (List ℕ) × List (Option (List ℕ))))
      → (sql_rows (false, out) rows).1 ≡ out ++ value_lines rows
  unfolding sql_print_row
  sql_rows-later out [] = sym (append-nil out)
  sql_rows-later out (row ∷ rows) =
      let own = barred (values_text row.1) in
      sql_rows-later (out ++ own) rows ∙ append_assoc out own (value_lines rows)

  -- once
  pub cmd_sql-heading :
      (query : List ℕ) (row : List (List ℕ) × List (Option (List ℕ)))
      (rows : List (List (List ℕ) × List (Option (List ℕ)))) (ok : Bool)
      → db.exec query ≡ (row ∷ rows, ok)
      → cmd_sql io calendar sql db query
        ≡ (barred row.0 ++ value_lines (row ∷ rows), if ok then 0 else 1)
  unfolding cmd_sql sql_print_row
  cmd_sql-heading query row rows ok e =
      let own = barred (values_text row.1) in
      ap (λ r. ((sql_rows (true, []) r.0).1, if r.1 then 0 else 1)) e
      ∙ ap (λ t. (t, if ok then 0 else 1))
          (sql_rows-later (barred row.0 ++ own) rows
            ∙ append_assoc (barred row.0) own (value_lines rows))

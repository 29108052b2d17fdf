-- ===== src/OtelTrace/Views.antt =====
-- The viewer on the rows of the span with one event, and on a trace of two rows.
use oteltracing_c.Base.{
  ◌<◌, ◌%◌, ◌-◌, ◌^◌, ◌+◌, true, false, ℕ, ◌≡◌, refl, Option, none, some, List, [], ◌∷◌, map, arith,
}
use oteltracing_c.OtelTrace.Rows.{
  kind_name, status_name, fmt_dur, Printf, Columns, Db, print_attr_rows, make_pad,
}
use oteltracing_c.OtelTrace.Listing.{
  right, fmt_time, left, line, spans_row, sql_print_row, Answers, cmd_sql,
}
use oteltracing_c.Base.Int.{to_int64, ℤ, pos}
use oteltracing_c.OtelTrace.Listing.Rows.{listed, spans_row-stored}
use oteltracing_c.Base.Lists.{c_string, All}
use oteltracing_c.Base.Tests.{◌==◌, if◌then◌else◌}
use oteltracing_c.Base.Text.{codes}
use oteltracing_c.Span.Read.{walk_attrs, walk_events, walk_fuel}
use oteltracing_c.Span.Tests.{event_span, one_event, event_span-IsSpan}
use oteltracing_c.Sqlite.{Datum, null, integer, real, text}
use oteltracing_c.Sqlite.Hex.{hex}
use oteltracing_c.Sqlite.Sink.{attr_columns, span_columns}
use oteltracing_c.OtelTrace.Rows.Shown.{IsColumns, attr_lines, event_lines, print_attr_rows-stored}
use oteltracing_c.OtelTrace.Show.{node_of}
use oteltracing_c.OtelTrace.Show.Stored.{selected, id_of, expected, stored-Node}
use oteltracing_c.OtelTrace.Tree.{Snode, wanted}

-- every number of a `double` is printed as "1.5"
abbrev printf : Printf
printf = record {
  general = λ d. codes "1.5";
  fixed = λ places ns unit. codes "1.5";
  null_text = codes "(null)";
}

abbrev as_text : Datum → Option (List ℕ)
as_text null = none
as_text (integer n) = some (codes "?")
as_text (real d) = some (codes "?")
as_text (text bs) = some bs

abbrev as_int : Datum → ℤ
as_int null = pos 0
as_int (integer n) = n
as_int (real d) = pos 0
as_int (text bs) = pos 0

abbrev as_double : Datum → ℕ
as_double null = 0
as_double (integer n) = 0
as_double (real d) = d
as_double (text bs) = 0

abbrev columns : Columns
columns = record {
  column_text = as_text;
  column_int64 = as_int;
  column_int = as_int;
  column_double = as_double;
}

columns-IsColumns : IsColumns columns
columns-IsColumns = record {
  text = λ bs whole. refl;
  no_text = refl;
  int64 = λ n. refl;
  int = λ n h. refl;
}

abbrev no_rows : Db
no_rows = record {
  attr_rows = λ id. none;
  event_rows = λ id. some [];
  event_attr_rows = λ id. none;
}

print_attr_rows-stored_example :
    (print_attr_rows printf columns
        (make_pad 2)
        (map (attr_columns event_span) (walk_attrs walk_fuel event_span.arena event_span.attr_head))
      ≡ attr_lines (make_pad 2) one_event.attrs)
    × (map
          (event_lines printf columns event_span (make_pad 2))
          (walk_events walk_fuel event_span.arena event_span.event_head)
        ≡ map (λ e. attr_lines (make_pad 2) e.attrs) one_event.events)
print_attr_rows-stored_example =
    print_attr_rows-stored printf columns columns-IsColumns (make_pad 2) event_span-IsSpan

abbrev first_row : List Datum
first_row = selected 1 (span_columns (codes "shop") event_span)

abbrev second_row : List Datum
second_row =
    integer (pos 2)
    ∷ text (codes "aa")
    ∷ text (id_of 7)
    ∷ text (codes "child")
    ∷ integer (pos 1)
    ∷ integer (pos 2)
    ∷ text []
    ∷ integer (pos 60)
    ∷ integer (pos 70)
    ∷ []

abbrev nodes : ℕ → Snode
nodes i = (node_of columns second_row).ids

stored-Node_example :
    let node = node_of columns (selected 1 (span_columns (codes "shop") event_span)) in
    (node ≡ expected 1 event_span one_event)
    × (wanted nodes 1 (some (id_of 7)) node.ids
        ≡ (if event_span.parent_id == 0 then false else event_span.parent_id == 7))
stored-Node_example =
    stored-Node columns columns-IsColumns 1 (codes "shop") nodes 1 7 event_span-IsSpan (omega arith)
      (omega arith) (omega arith) (omega arith)

abbrev answers : Answers
answers = record {
  rows = λ query values. none;
  exec = λ query. (
    ((codes "a" ∷ codes "b" ∷ []), (some (codes "1") ∷ none ∷ []))
        ∷ ((codes "a" ∷ codes "b" ∷ []), (none ∷ some (codes "2") ∷ []))
        ∷ [],
    true,
  );
}

-- The heading comes once, and NULL is spelled out.
two_rows :
    cmd_sql printf (λ secs. codes "now") columns answers (codes "q")
    ≡ (codes "a|b\n1|NULL\nNULL|2\n", 0)
unfolding cmd_sql sql_print_row
two_rows = refl

trace_id_bytes : All (λ b. b < 256) event_span.trace_id
trace_id_bytes = (
  omega arith,
  (
    omega arith,
    (
      omega arith,
      (
        omega arith,
        (
          omega arith,
          (
            omega arith,
            (
              omega arith,
              (
                omega arith,
                (
                  omega arith,
                  (
                    omega arith,
                    (
                      omega arith,
                      (omega arith, (omega arith, (omega arith, (omega arith, (omega arith, tt))))),
                    ),
                  ),
                ),
              ),
            ),
          ),
        ),
      ),
    ),
  ),
)

spans_row-stored_example :
    spans_row printf
      (λ secs. codes "now")
      columns
      answers
      (listed (span_columns (codes "shop") event_span))
    ≡ line (
        left 23 (
          fmt_time printf (λ secs. codes "now") columns answers (to_int64 event_span.start_unix_ns))
        ∷ right 10 (
            fmt_dur printf
              (to_int64 ((event_span.end_unix_ns + 2 ^ 64 - event_span.start_unix_ns) % 2 ^ 64)))
        ∷ left 10 (codes "shop")
        ∷ left 8 (kind_name (pos event_span.kind))
        ∷ left 6 (status_name (pos event_span.status))
        ∷ left 24 one_event.name
        ∷ hex event_span.trace_id
        ∷ [])
unfolding c_string
spans_row-stored_example =
    spans_row-stored printf (λ secs. codes "now") columns answers (codes "shop") columns-IsColumns
      event_span-IsSpan refl trace_id_bytes (omega arith) (omega arith)

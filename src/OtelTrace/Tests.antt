-- ===== src/OtelTrace/Tests.antt =====
-- The viewer at work: on four nodes, a root, its child, a node whose parent is not there, and one
-- that is its own parent.
use oteltracing_c.OtelTrace.Args.{command_line, Libc, initial, select}
use oteltracing_c.Base.{◌<◌, refl, ◌∷◌, List, some, true, ℕ, ◌≤◌, ◌≡◌, ◌↔◌, none, []}
use oteltracing_c.Base.Lists.{length}
use oteltracing_c.Base.Int.{pos}
use oteltracing_c.Sqlite.Schema.{count}
use oteltracing_c.Base.Tests.{◌==◌, if◌then◌else◌}
use oteltracing_c.Base.Text.{codes}
use oteltracing_c.OtelTrace.Query.{Filters, list_sql, spans_sql, bindings}
use oteltracing_c.OtelTrace.Query.Bound.{bindings_complete}
use oteltracing_c.OtelTrace.Args.Render.{
  Item, word, service, limit, status, render, meanings, command_line-render,
}
use oteltracing_c.OtelTrace.Tree.{Snode, print_subtree, Reached, nothing_printed, times}
use oteltracing_c.OtelTrace.Tree.Complete.{print_subtree-times}

abbrev four : ℕ → Snode
four i =
    if i == 0
    then record { span_id = codes "a1"; parent_id = codes "b2" }
    else if i == 1
    then record { span_id = codes "b2"; parent_id = [] }
    else if i == 2
    then record { span_id = codes "c3"; parent_id = codes "d4" }
    else record { span_id = codes "e5"; parent_id = codes "e5" }

print_subtree-times_example :
    let lines = (print_subtree four 4 5 none 0 nothing_printed).lines in
    times 0 lines ≤ 1 × (Reached four 4 0 ↔ times 0 lines ≡ 1)
print_subtree-times_example = print_subtree-times four 4 0

abbrev errors : Filters
errors = record {
  service = some (codes "shop");
  name = none;
  status_error = true;
  since_sec = pos 0;
  min_duration_us = pos 250;
  limit = pos 0;
}

bindings_complete_example :
    (count b'?' (list_sql errors) ≡ length (bindings 1000 errors))
    × (count b'?' (spans_sql errors) ≡ length (bindings 1000 errors))
    × length (list_sql errors) < 1024
    × length (spans_sql errors) < 1024
bindings_complete_example = bindings_complete 1000 errors

-- every number is read as 7
abbrev libc : Libc
libc = record { strtoll = λ t. pos 7; atoi = λ t. pos 7 }

abbrev items : List Item
items =
    service (codes "shop") ∷ word (codes "list") ∷ status (codes "error") ∷ limit (codes "7") ∷ []

command_line-render_example :
    command_line libc (λ path. true) none (render items)
    ≡ select (λ path. true) (meanings libc (initial none) items)
command_line-render_example =
    command_line-render libc (λ path. true) none items (tt, (refl, (tt, (tt, tt))))

-- ===== src/OtelTrace/Show.antt =====
-- `cmd_show` of tools/otel-trace.c: how it loads the rows of a trace, and what it prints.

pub mod Load
pub mod Stored
use oteltracing_c.Base.{
  ℕ, zero, suc, ◌+◌, ◌*◌, ◌-◌, ◌^◌, Bool, true, false, ◌&&◌, Option, none, some, List, [], ◌∷◌,
  ◌++◌,
}
use oteltracing_c.Base.Tests.{ltb, leb, ◌==◌, if◌then◌else◌}
use oteltracing_c.Base.Int.{ℤ, pos, negsuc}
use oteltracing_c.Base.Lists.{length, take}
use oteltracing_c.Base.Text.{codes, digits}
use oteltracing_c.Sqlite.{Datum}
use oteltracing_c.OtelTrace.Query.{minus}
use oteltracing_c.OtelTrace.Rows.{
  Printf, Columns, Db, column, or_else, spaces, kind_name, fmt_dur, print_attrs_events,
}
use oteltracing_c.OtelTrace.Tree.{Snode, Line, print_subtree, nothing_printed}

-- `struct snode`, less its flag; `ids` are `span_id` and `parent_id`.
pub record Node : Type 0 where
  pub id : ℤ
  pub ids : Snode
  pub name : Option (List ℕ)
  pub kind : ℤ
  pub status : ℤ
  pub status_msg : Option (List ℕ)
  pub start : ℤ
  pub end : ℤ

-- The locals of the loop: `cap`, the nodes so far, and `t0`.
pub record Loading : Type 0 where
  pub nodes : List Node
  pub cap : ℕ
  pub t0 : ℤ

abbrev pub before : ℤ → ℤ → Bool
before (pos m) (pos n) = ltb m n
before (pos m) (negsuc n) = false
before (negsuc m) (pos n) = true
before (negsuc m) (negsuc n) = ltb n m

-- the difference of two `long long`, with no bound
abbrev pub difference : ℤ → ℤ → ℤ
difference (pos m) n = minus m n
difference (negsuc m) (pos n) = negsuc (m + n)
difference (negsuc m) (negsuc n) = if leb m n then pos (n - m) else negsuc (m - n - 1)

-- The growth of the array before a row is put at its index `n`. There is no result where `cap * 2`
-- is no `int`, which C leaves undefined, and where `realloc` gives NULL, which the code writes to.
abbrev pub more : ℕ → ℕ
more cap = if cap == 0 then 64 else cap * 2

abbrev pub grown : (realloc : ℕ → Bool) → (n cap : ℕ) → Option ℕ
grown realloc n cap =
    if n == cap
    then (if ltb (more cap) (2 ^ 31) && realloc (more cap) then some (more cap) else none)
    else some cap

-- what a round leaves, in an array of `cap` nodes
abbrev pub with_node : Loading → Node → ℕ → Loading
with_node st s cap = record {
  nodes = st.nodes ++ (s ∷ []);
  cap = cap;
  t0 =
      if length st.nodes + 1 == 1 then s.start else if before s.start st.t0 then s.start else st.t0;
}

-- A row more; a write outside the array has no result.
unfoldable pub put_node : Loading → Node → Option ℕ → Option Loading
put_node st s none = none
put_node st s (some cap) = if ltb (length st.nodes) cap then some (with_node st s cap) else none

module _ (sql : Columns) where
  -- `snprintf` of an identifier into its 20 bytes
  abbrev pub id_text : Datum → List ℕ
  id_text d = take 19 (or_else (sql.column_text d) [])

  unfoldable pub node_of : List Datum → Node
  node_of row = record {
    id = sql.column_int64 (column 0 row);
    ids = record { span_id = id_text (column 1 row); parent_id = id_text (column 2 row) };
    name = sql.column_text (column 3 row);
    kind = sql.column_int (column 4 row);
    status = sql.column_int (column 5 row);
    status_msg = sql.column_text (column 6 row);
    start = sql.column_int64 (column 7 row);
    end = sql.column_int64 (column 8 row);
  }

  -- One round of the loop; `realloc` says for how many nodes there is memory.
  unfoldable pub load_row : (realloc : ℕ → Bool) → Loading → List Datum → Option Loading
  load_row realloc st row = put_node st (node_of row) (grown realloc (length st.nodes) st.cap)

  unfoldable pub load : (realloc : ℕ → Bool) → Option Loading → List (List Datum) → Option Loading
  load realloc none rows = none
  load realloc (some st) [] = some st
  load realloc (some st) (row ∷ rows) = load realloc (load_row realloc st row) rows

abbrev pub nothing_loaded : Loading
nothing_loaded = record { nodes = []; cap = 0; t0 = pos 0 }

-- `nodes[i]`; an index beyond the array does not occur.
abbrev pub no_node : Node
no_node = record {
  id = pos 0;
  ids = record { span_id = []; parent_id = [] };
  name = none;
  kind = pos 0;
  status = pos 0;
  status_msg = none;
  start = pos 0;
  end = pos 0;
}

abbrev pub node_at : List Node → ℕ → Node
node_at [] i = no_node
node_at (s ∷ ss) zero = s
node_at (s ∷ ss) (suc i) = node_at ss i

abbrev pub is_error : ℤ → Bool
is_error (pos n) = n == 2
is_error (negsuc n) = false

abbrev pub given_message : Option (List ℕ) → List ℕ
given_message none = codes "  status=ERROR"
given_message (some []) = codes "  status=ERROR"
given_message (some (c ∷ cs)) = codes "  status=ERROR: " ++ (c ∷ cs)

-- `sbuf`, of 160 bytes
unfoldable pub status_text : Node → List ℕ
status_text s = if is_error s.status then take 159 (given_message s.status_msg) else []

-- The lines of the tree; the depth of the calls is at most the number of nodes.
abbrev pub tree_of : List Node → List Line
tree_of nodes =
    let n = length nodes in
    (print_subtree (λ i. (node_at nodes i).ids) n (suc n) none 0 nothing_printed).lines

module _ (io : Printf) (sql : Columns) (db : Db) where
  -- What `print_subtree` prints for a node at a depth.
  unfoldable pub node_text : ℤ → ℕ → Node → List ℕ
  node_text t0 depth s =
      spaces (depth * 2)
      ++ (or_else s.name (codes "?")
          ++ (codes " ["
              ++ (kind_name s.kind
                  ++ (codes "] "
                      ++ (fmt_dur io (difference s.end s.start)
                          ++ (codes " (+"
                              ++ (fmt_dur io (difference s.start t0)
                                  ++ (codes ")"
                                      ++ (status_text s
                                          ++ (10 ∷ print_attrs_events io sql db s.id depth))))))))))

  unfoldable pub lines_text : ℤ → List Node → List Line → List ℕ
  lines_text t0 nodes [] = []
  lines_text t0 nodes (l ∷ ls) =
      node_text t0 l.depth (node_at nodes l.node) ++ lines_text t0 nodes ls

  -- The heading and the lines of the tree, with the times measured from `t0`.
  abbrev pub shown : List ℕ → List Node → ℤ → List ℕ
  shown trace_id nodes t0 =
      codes "trace "
      ++ (trace_id
          ++ (codes "  ("
              ++ (digits 10 (length nodes)
                  ++ (codes " spans)\n" ++ lines_text t0 nodes (tree_of nodes)))))

  abbrev pub show_loaded : List ℕ → Option Loading → Option (List ℕ × ℕ)
  show_loaded trace_id none = none
  show_loaded trace_id (some st) =
      if length st.nodes == 0 then some ([], 1) else some (shown trace_id st.nodes st.t0, 0)

  -- `cmd_show`: the standard output and the result. `rows` are those of its statement, or `none`
  -- where that is not prepared.
  unfoldable pub cmd_show :
      (realloc : ℕ → Bool) → List ℕ → Option (List (List Datum)) → Option (List ℕ × ℕ)
  cmd_show realloc trace_id none = some ([], 1)
  cmd_show realloc trace_id (some rows) =
      show_loaded trace_id (load sql realloc (some nothing_loaded) rows)

-- ===== src/OtelTrace/Show/Load.antt =====
-- What `cmd_show` has loaded when it prints, and which nodes it prints.
use oteltracing_c.OtelTrace.Show.{Node, Loading, before, node_of}
use oteltracing_c.Base.{◌*◌, Bool, ℕ, ◌+◌, ◌≤◌, ◌≡◌, ◌⊎◌, true, false, List, [], ◌∷◌, map}
use oteltracing_c.Base.Int.{ℤ}
use oteltracing_c.Base.Lists.{length, All}
use oteltracing_c.Sqlite.{Datum}
use oteltracing_c.OtelTrace.Rows.{Columns}

-- some node starts at `t`
abbrev pub StartsAt : ℤ → List Node → Type 0
StartsAt t [] = ⊥
StartsAt t (s ∷ ss) = (s.start ≡ t) ⊎ StartsAt t ss

-- The nodes are those of the rows, in order, and lie in the array; `t0` is the earliest start.
pub record Loaded (sql : Columns) (rows : List (List Datum)) (st : Loading) : Type 0 where
  pub nodes : st.nodes ≡ map (node_of sql) rows
  pub room : length st.nodes ≤ st.cap
  pub earliest : All (λ s. before s.start st.t0 ≡ false) st.nodes
  pub one_of : (length st.nodes ≡ 0) ⊎ StartsAt st.t0 st.nodes

-- There is memory for as many nodes as the rows can ask for.
abbrev pub HasMemory : (realloc : ℕ → Bool) → ℕ → Type 0
HasMemory realloc n = (c : ℕ) → c ≤ 64 + 2 * n → realloc c ≡ true

-- ===== src/OtelTrace/Tree.antt =====
-- `print_subtree` of tools/otel-trace.c, on the array of nodes that `cmd_show` fills.
pub mod Once
pub mod Unprinted
pub mod Complete
use oteltracing_c.Base.{
  ℕ, zero, suc, ◌<◌, ◌≡◌, Bool, true, false, not, Option, none, some, List, [], ◌∷◌, ◌++◌,
}
use oteltracing_c.Base.Tests.{◌==◌, if◌then◌else◌}

-- What the printing reads of a `struct snode`: its identifiers. The others are shown only.
pub record Snode : Type 0 where
  pub span_id : List ℕ
  pub parent_id : List ℕ

-- A line of the tree: the index of the node in the array, and its depth.
pub record Line : Type 0 where
  pub node : ℕ
  pub depth : ℕ

-- The flags `printed` of the nodes, and the lines so far.
pub record Printed : Type 0 where
  pub printed : ℕ → Bool
  pub lines : List Line

-- whether `strcmp` is 0
abbrev pub same_text : List ℕ → List ℕ → Bool
same_text [] [] = true
same_text [] (y ∷ ys) = false
same_text (x ∷ xs) [] = false
same_text (x ∷ xs) (y ∷ ys) = let rest = same_text xs ys in if x == y then rest else false

-- `s->printed = 1`, and the line
abbrev pub mark : ℕ → ℕ → Printed → Printed
mark i depth st = record {
  printed = λ j. if j == i then true else st.printed j;
  lines = st.lines ++ (record { node = i; depth = depth } ∷ []);
}

-- `nodes` and `n`
module _ (nodes : ℕ → Snode) (n : ℕ) where
  -- the inner loop, from `j` on with `k` nodes left: whether a node has this identifier
  abbrev pub found_from : (k j : ℕ) → List ℕ → Bool
  found_from zero j id = false
  found_from (suc k) j id =
      let rest = found_from k (suc j) id in if same_text (nodes j).span_id id then true else rest

  -- The test of a node under a parent; with no parent, for a root.
  unfoldable pub wanted : Option (List ℕ) → Snode → Bool
  wanted (some parent_span) s = same_text s.parent_id parent_span
  wanted none s = if same_text s.parent_id [] then true else not (found_from n 0 s.parent_id)

  -- One round of the loop; `below` is the recursive call.
  unfoldable pub visit :
      (List ℕ → ℕ → Printed → Printed) → Option (List ℕ) → ℕ → ℕ → Printed → Printed
  visit below parent_span depth i st =
      if st.printed i
      then st
      else if wanted parent_span (nodes i)
      then below (nodes i).span_id (suc depth) (mark i depth st)
      else st

  -- the loop from `i` on, with `k` nodes left
  unfoldable pub visit_from :
      (List ℕ → ℕ → Printed → Printed) → Option (List ℕ) → ℕ → (k i : ℕ) → Printed → Printed
  visit_from below parent_span depth zero i st = st
  visit_from below parent_span depth (suc k) i st =
      visit_from below parent_span depth k (suc i) (visit below parent_span depth i st)

  -- `print_subtree`, with fuel for the depth of the calls
  unfoldable pub print_subtree : (fuel : ℕ) → Option (List ℕ) → ℕ → Printed → Printed
  print_subtree zero parent_span depth st = st
  print_subtree (suc f) parent_span depth st =
      visit_from (λ id d s. print_subtree f (some id) d s) parent_span depth n 0 st

  -- What a user expects to see: the roots, and what hangs below a node that is seen.
  pub data Reached : ℕ → Type 0 where
    root : (j : ℕ) → j < n → wanted none (nodes j) ≡ true → Reached j
    child : (i j : ℕ) → Reached i → j < n → (nodes j).parent_id ≡ (nodes i).span_id → Reached j

-- The state at the start.
abbrev pub nothing_printed : Printed
nothing_printed = record { printed = λ i. false; lines = [] }

-- how many lines a node has
abbrev pub times : ℕ → List Line → ℕ
times j [] = 0
times j (l ∷ ls) = let rest = times j ls in if l.node == j then suc rest else rest

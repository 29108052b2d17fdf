-- ===== src/OtelTrace/Show/Stored.antt =====
-- The row that the sink stores of a span, as `cmd_show` loads it.
use oteltracing_c.OtelTrace.Rows.Shown.{IsStr-whole, IsColumns}
use oteltracing_c.OtelTrace.Tree.Once.{same_text_eq, same_text_refl}
use oteltracing_c.Base.{
  false, zero, sym, suc, ◌/◌, ◌*◌, ◌+◌, ℕ, ◌^◌, ◌<◌, ◌≡◌, refl, ap, ◌∙◌, inl, inr, some, List, [],
  ◌∷◌, arith,
}
use oteltracing_c.OtelTrace.Tree.{Snode, same_text, wanted}
use oteltracing_c.Sqlite.Hex.{unhex-hex, unhex, hex}
use oteltracing_c.Base.Lists.{All, take}
use native.Mathlib.Nat.{pow-suc}
use oteltracing_c.Base.Tests.{◌==◌, if◌then◌else◌, Bool-cases}
use oteltracing_c.Base.Int.{pos, to_int64}
use oteltracing_c.Span.{Span}
use oteltracing_c.Span.Start.{le_bytes}
use oteltracing_c.Span.View.{SpanView, IsSpan}
use oteltracing_c.Sqlite.{Datum, null, integer, text}
use oteltracing_c.Sqlite.Sink.{span_columns}
use oteltracing_c.Sqlite.Sink.Attrs.{strv-IsStr}
use oteltracing_c.OtelTrace.Rows.{Columns, column}
use oteltracing_c.OtelTrace.Show.{Node, id_text, node_of}

-- The columns that the statement of `cmd_show` selects, of a row with this key: id, span_id,
-- parent_id, name, kind, status_code, status_message, start_unix_ns, end_unix_ns.
abbrev pub selected : ℕ → List Datum → List Datum
selected id row =
    integer (pos id)
    ∷ column 1 row
    ∷ column 2 row
    ∷ column 4 row
    ∷ column 5 row
    ∷ column 6 row
    ∷ column 7 row
    ∷ column 8 row
    ∷ column 9 row
    ∷ []

-- an identifier as a text
abbrev pub id_of : ℕ → List ℕ
id_of n = hex (le_bytes 8 n)

-- The identifiers have 16 digits, so 20 bytes hold them.
id_whole : (n : ℕ) → take 19 (id_of n) ≡ id_of n
unfolding hex le_bytes
id_whole n = refl

-- the number that little-endian bytes stand for
abbrev from_le : List ℕ → ℕ
from_le [] = 0
from_le (b ∷ bs) = b + 256 * from_le bs

from_le-le_bytes : (k n : ℕ) → n < 256 ^ k → from_le (le_bytes k n) ≡ n
unfolding le_bytes
from_le-le_bytes zero n h = omega (arith, h)
from_le-le_bytes (suc k) n h =
    let more = pow-suc 256 k in
    let less : n / 256 < 256 ^ k = omega (arith, more, h) in
    omega (arith, from_le-le_bytes k (n / 256) less)

le_bytes-bytes : (k n : ℕ) → All (λ b. b < 256) (le_bytes k n)
unfolding le_bytes
le_bytes-bytes zero n = tt
le_bytes-bytes (suc k) n = (omega arith, le_bytes-bytes k (n / 256))

-- Different identifiers have different texts.
id_of-inj : (a b : ℕ) → a < 2 ^ 64 → b < 2 ^ 64 → id_of a ≡ id_of b → a ≡ b
id_of-inj a b ha hb e =
    let back : (n : ℕ) → n < 2 ^ 64 → from_le (unhex (id_of n)) ≡ n = λ n h.
      ap from_le (unhex-hex (le_bytes 8 n) (le_bytes-bytes 8 n)).0 ∙ from_le-le_bytes 8 n h in
    sym (back a ha) ∙ ap (λ t. from_le (unhex t)) e ∙ back b hb

-- The text of a parent is the text of an identifier exactly when the identifiers are the same and
-- there is a parent.
parent-same :
    (parent id : ℕ)
    → parent < 2 ^ 64
    → id < 2 ^ 64
    → same_text (if parent == 0 then [] else id_of parent) (id_of id)
      ≡ (if parent == 0 then false else parent == id)
unfolding hex le_bytes
parent-same parent id hp hi = elim (Bool-cases (parent == 0)) [
  | inl root ↦ rw root refl
  | inr child ↦ elim (Bool-cases (parent == id)) [
    | inl hit ↦
        let same : parent ≡ id = ground arith in
        rw (child, hit)
          (ap (λ x. same_text (id_of parent) (id_of x)) (sym same) ∙ same_text_refl (id_of parent))
    | inr miss ↦ elim (Bool-cases (same_text (id_of parent) (id_of id))) [
      | inl equal ↦
          let same = id_of-inj parent id hp hi (same_text_eq (id_of parent) (id_of id) equal) in
          absurd (ground arith)
      | inr different ↦ rw (child, miss) different
    ]
  ]
]

-- The node that `cmd_show` should have of a span.
abbrev pub expected : ℕ → Span → SpanView → Node
expected id s m = record {
  id = pos id;
  ids = record {
    span_id = id_of s.span_id;
    parent_id = if s.parent_id == 0 then [] else id_of s.parent_id;
  };
  name = some m.name;
  kind = pos s.kind;
  status = pos s.status;
  status_msg = some m.message;
  start = to_int64 s.start_unix_ns;
  end = to_int64 s.end_unix_ns;
}

module _ (sql : Columns) (law : IsColumns sql) where
  id_text-id_of : (n : ℕ) → id_text sql (text (id_of n)) ≡ id_of n
  id_text-id_of n =
      rw (law.text (id_of n) (unhex-hex (le_bytes 8 n) (le_bytes-bytes 8 n)).2) (id_whole n)

  parent_text :
      (n : ℕ)
      → id_text sql (if n == 0 then null else text (id_of n)) ≡ (if n == 0 then [] else id_of n)
  parent_text n = elim (Bool-cases (n == 0)) [
    | inl root ↦ rw (root, law.no_text) refl
    | inr child ↦ rw child (id_text-id_of n)
  ]

  node_of-stored :
      {own : ℕ → ℕ} {s : Span} {m : SpanView} (id : ℕ) (service : List ℕ)
      → IsSpan own s m
      → s.kind < 2 ^ 31
      → s.status < 2 ^ 31
      → node_of sql (selected id (span_columns service s)) ≡ expected id s m
  unfolding node_of span_columns
  node_of-stored {own} {s} {m} id service v kind status = λ i. record {
    id = law.int64 (pos id) i;
    ids = record { span_id = id_text-id_of s.span_id i; parent_id = parent_text s.parent_id i };
    name =
        (ap (λ t. sql.column_text (text t)) (strv-IsStr s v.aligned.within v.name)
            ∙ law.text m.name (IsStr-whole v.name))
          i;
    kind = law.int s.kind kind i;
    status = law.int s.status status i;
    status_msg =
        (ap (λ t. sql.column_text (text t)) (strv-IsStr s v.aligned.within v.message)
            ∙ law.text m.message (IsStr-whole v.message))
          i;
    start = law.int64 (to_int64 s.start_unix_ns) i;
    end = law.int64 (to_int64 s.end_unix_ns) i;
  }

  -- If the columns of SQLite read back what is stored in them, a span holds m, its kind and status
  -- are below 2^31, and identifiers are below 2^64, then from the row that the sink stores of the
  -- span cmd_show loads a node with the key, the identifiers, the name and status message of m,
  -- the kind, the status and the times of the span; and that node is wanted below a span with the
  -- identifier other exactly when the span has a parent and that is other.
  pub stored-Node :
      {own : ℕ → ℕ} {s : Span} {m : SpanView} (id : ℕ) (service : List ℕ) (nodes : ℕ → Snode)
      (n other : ℕ)
      → IsSpan own s m
      → s.kind < 2 ^ 31
      → s.status < 2 ^ 31
      → s.parent_id < 2 ^ 64
      → other < 2 ^ 64
      → let node = node_of sql (selected id (span_columns service s)) in
        (node ≡ expected id s m)
        × (wanted nodes n (some (id_of other)) node.ids
            ≡ (if s.parent_id == 0 then false else s.parent_id == other))
  unfolding wanted
  stored-Node {own} {s} {m} id service nodes n other v kind status hp ho =
      let e = node_of-stored id service v kind status in
      (
        e,
        ap (λ (x : Node). same_text x.ids.parent_id (id_of other)) e
            ∙ parent-same s.parent_id other hp ho,
      )

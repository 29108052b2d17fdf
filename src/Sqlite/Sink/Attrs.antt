-- ===== src/Sqlite/Sink/Attrs.antt =====
-- What `otel_sqlite_insert_attr` binds for an attribute, and what a reader of the span sees of it.
use oteltracing_c.Base.{ℕ, ◌≤◌, ◌≡◌, refl, ap, false, List, [], ◌∷◌, arith}
use oteltracing_c.Base.Tests.{◌==◌, if◌then◌else◌}
use oteltracing_c.Base.Int.{pos, to_int64}
use oteltracing_c.Span.{Span, Attr, nil, span_arena}
use oteltracing_c.Span.AttrType
use oteltracing_c.Span.View.{
  Value, AttrView, IsText, IsStr, absent, present, HasValue, str, i64, u64,
}
use oteltracing_c.Span.Read.Walk.{Shows}
use oteltracing_c.Sqlite.{Datum, null, integer, text}
use oteltracing_c.Sqlite.Sink.{strv, value_columns, attr_columns}

-- the value columns of what a reader sees
abbrev pub shown_value : Value → List Datum
shown_value (str bs) = text bs ∷ null ∷ null ∷ []
shown_value (i64 n) = null ∷ integer n ∷ null ∷ []
shown_value (u64 n) = null ∷ integer (to_int64 n) ∷ null ∷ []
shown_value (Value.bool n) = null ∷ integer (pos (if n == 0 then 0 else 1)) ∷ null ∷ []

abbrev pub type_of : Value → ℕ
type_of (str bs) = AttrType.str
type_of (i64 n) = AttrType.i64
type_of (u64 n) = AttrType.u64
type_of (Value.bool n) = AttrType.bool

unfoldable pub shown_columns : AttrView → List Datum
shown_columns v = text v.key ∷ integer (pos (type_of v.value)) ∷ shown_value v.value

module _ (s : Span) {hi : ℕ} (within : hi ≤ span_arena) where
  pub strv-IsText : {off : ℕ} {bs : List ℕ} → IsText s.arena hi off bs → strv s off ≡ bs
  strv-IsText {off} x =
      let ne : (off == nil) ≡ false = ground (arith, x.region) in rw (ne, x.cell) x.shown

  pub strv-IsStr : {off : ℕ} {bs : List ℕ} → IsStr s.arena hi off bs → strv s off ≡ bs
  strv-IsStr (absent e k) = rw (e, k) refl
  strv-IsStr (present x) = strv-IsText x

  value_shown :
      (a : Attr) (v : Value)
      → HasValue s.arena hi a v
      → (a.type ≡ type_of v) × (value_columns s a ≡ shown_value v)
  unfolding value_columns
  value_shown a (str bs) h = (h.0, rw h.0 (ap (λ b. text b ∷ null ∷ null ∷ []) (strv-IsStr h.1)))
  value_shown a (i64 n) h = (h.0, rw (h.0, h.1) refl)
  value_shown a (u64 n) h = (h.0, rw (h.0, h.1) refl)
  value_shown a (Value.bool n) h = (h.0, rw (h.0, h.1) refl)

  pub attr_columns-Shows :
      (a : Attr) (v : AttrView) → Shows s.arena hi a v → attr_columns s a ≡ shown_columns v
  unfolding attr_columns shown_columns
  attr_columns-Shows a v x =
      let (kind, value) = value_shown a v.value x.value in
      λ i. text (strv-IsText x.key i) ∷ integer (pos (kind i)) ∷ value i

-- ===== src/OtelTrace/Rows/Shown.antt =====
-- The rows that the sink stores of a span, as the viewer prints them.
use oteltracing_c.Base.Lists.{c_string_idem, c_string, length}
use oteltracing_c.Base.{
  sym, ℕ, ◌+◌, ◌^◌, ◌≤◌, ◌<◌, ◌≡◌, refl, ap, ap₂, ◌∙◌, some, none, List, [], ◌∷◌, ◌++◌, map, arith,
  inl, inr,
}
use oteltracing_c.Span.View.{
  IsStr, absent, present, HasValue, IsText, Value, str, i64, u64, AttrView, EventView, SpanView,
  IsSpan, event_records,
}
use oteltracing_c.OtelTrace.Rows.{
  column, Printf, Columns, signed_text, attr_row, print_attr_rows, value_line, or_else,
}
use oteltracing_c.Base.Tests.{◌==◌, if◌then◌else◌, Bool-cases}
use oteltracing_c.Base.Int.{ℤ, pos, to_int64}
use oteltracing_c.Base.Text.{codes}
use oteltracing_c.Span.{Span, Attr, Event, Arena, span_arena}
use oteltracing_c.Span.Read.{walk_attrs, walk_events, walk_fuel}
use oteltracing_c.Span.Read.Walk.{AllShow, AllShowEvents, walk_attrs-AllShow, walk_events-AllShow}
use oteltracing_c.Span.View.Events.{length-le-event_records}
use oteltracing_c.Sqlite.{null, integer, text}
use oteltracing_c.Sqlite.Sink.{attr_columns}
use oteltracing_c.Sqlite.Sink.Attrs.{shown_columns, attr_columns-Shows}

-- What the documentation of SQLite says of a column that holds a text with no zero byte in it, an
-- integer or NULL.
pub record IsColumns (sql : Columns) : Type 0 where
  pub text : (bs : List ℕ) → c_string bs ≡ bs → sql.column_text (text bs) ≡ some bs
  pub no_text : sql.column_text null ≡ none
  pub int64 : (n : ℤ) → sql.column_int64 (integer n) ≡ n
  pub int : (n : ℕ) → n < 2 ^ 31 → sql.column_int (integer (pos n)) ≡ pos n

-- Texts that a span holds have no zero byte in them.
pub IsText-whole :
    {mem : Arena} {hi off : ℕ} {bs : List ℕ} → IsText mem hi off bs → c_string bs ≡ bs
IsText-whole x = ap c_string (sym x.shown) ∙ c_string_idem x.raw ∙ x.shown

pub IsStr-whole : {mem : Arena} {hi off : ℕ} {bs : List ℕ} → IsStr mem hi off bs → c_string bs ≡ bs
unfolding c_string
IsStr-whole (absent e k) = rw k refl
IsStr-whole (present x) = IsText-whole x

abbrev Whole : Value → Type 0
Whole (str bs) = c_string bs ≡ bs
Whole (i64 n) = Unit {0}
Whole (u64 n) = Unit {0}
Whole (Value.bool n) = Unit {0}

HasValue-Whole : (mem : Arena) (hi : ℕ) (a : Attr) (x : Value) → HasValue mem hi a x → Whole x
HasValue-Whole mem hi a (str bs) h = IsStr-whole h.1
HasValue-Whole mem hi a (i64 n) h = tt
HasValue-Whole mem hi a (u64 n) h = tt
HasValue-Whole mem hi a (Value.bool n) h = tt

-- What a user expects to see of a value, and the lines of attributes.
abbrev pub value_text : Value → List ℕ
value_text (str bs) = 34 ∷ (bs ++ (34 ∷ []))
value_text (i64 n) = signed_text n
value_text (u64 n) = signed_text (to_int64 n)
value_text (Value.bool n) = if n == 0 then codes "false" else codes "true"

abbrev pub attr_line : List ℕ → AttrView → List ℕ
attr_line pad v =
    pad ++ (codes "- " ++ (v.key ++ (codes " = " ++ (value_text v.value ++ (10 ∷ [])))))

abbrev pub attr_lines : List ℕ → List AttrView → List ℕ
attr_lines pad [] = []
attr_lines pad (v ∷ vs) = attr_line pad v ++ attr_lines pad vs

-- the lines of the rows that the sink stores for an event
abbrev pub event_lines : Printf → Columns → Span → List ℕ → Event → List ℕ
event_lines io sql s pad e =
    print_attr_rows io sql pad (map (attr_columns s) (walk_attrs walk_fuel s.arena e.attr_head))

module _ (io : Printf) (sql : Columns) (law : IsColumns sql) where
  value_line-shown :
      (key : List ℕ) (x : Value)
      → Whole x
      → let row = shown_columns (record { key = key; value = x }) in
        value_line io sql (sql.column_int (column 1 row)) row ≡ value_text x
  unfolding shown_columns
  value_line-shown key (str bs) whole = rw (law.int 0 (omega arith), law.text bs whole) refl
  value_line-shown key (i64 n) whole = rw (law.int 1 (omega arith), law.int64 n) refl
  value_line-shown key (u64 n) whole = rw (law.int 2 (omega arith), law.int64 (to_int64 n)) refl
  value_line-shown key (Value.bool n) whole =
      rw (law.int 4 (omega arith), law.int64 (pos (if n == 0 then 0 else 1)))
        (elim (Bool-cases (n == 0)) [ inl none_set ↦ rw none_set refl | inr set ↦ rw set refl ])

  attr_row-shown :
      (pad : List ℕ) (v : AttrView)
      → c_string v.key ≡ v.key
      → Whole v.value
      → attr_row io sql pad (shown_columns v) ≡ attr_line pad v
  unfolding shown_columns
  attr_row-shown pad v whole whole_value =
      ap₂
        (λ k x. pad ++ (codes "- " ++ (or_else k (codes "?") ++ (codes " = " ++ (x ++ (10 ∷ []))))))
        (law.text v.key whole) (value_line-shown v.key v.value whole_value)

  module _ (s : Span) {hi : ℕ} (within : hi ≤ span_arena) (pad : List ℕ) where
    print_attr_rows-shown :
        (xs : List Attr) (vs : List AttrView)
        → AllShow s.arena hi xs vs
        → print_attr_rows io sql pad (map (attr_columns s) xs) ≡ attr_lines pad vs
    unfolding print_attr_rows
    print_attr_rows-shown [] [] h = refl
    print_attr_rows-shown [] (v ∷ vs) h = absurd h
    print_attr_rows-shown (a ∷ xs) [] h = absurd h
    print_attr_rows-shown (a ∷ xs) (v ∷ vs) h =
        ap₂ ◌++◌
          (ap (attr_row io sql pad) (attr_columns-Shows s within a v h.0)
            ∙ attr_row-shown pad v (IsText-whole h.0.key)
                (HasValue-Whole s.arena hi a v.value h.0.value))
          (print_attr_rows-shown xs vs h.1)

    events-shown :
        (own : ℕ → ℕ) (es : List Event) (vs : List EventView)
        → event_records vs < walk_fuel
        → AllShowEvents s.arena own hi es vs
        → map (event_lines io sql s pad) es ≡ map (λ v. attr_lines pad v.attrs) vs
    events-shown own [] [] few h = refl
    events-shown own [] (v ∷ vs) few h = absurd h
    events-shown own (e ∷ es) [] few h = absurd h
    events-shown own (e ∷ es) (v ∷ vs) few h =
        ap₂ ◌∷◌
          (print_attr_rows-shown (walk_attrs walk_fuel s.arena e.attr_head) v.attrs
            (walk_attrs-AllShow walk_fuel within (omega arith) h.0.attrs))
          (events-shown own es vs (omega arith) h.1)

  -- If the columns of SQLite read back the texts and integers stored in them, and a span holds m,
  -- then print_attr_rows on the rows that the sink stores for its attributes prints one line for
  -- each attribute of m, in order, with the padding, the key and the value: a quoted string, a
  -- signed number (that of an unsigned one as int64_t), or true or false. On the rows stored for
  -- the attributes of each of its events it prints the lines of that event.
  pub print_attr_rows-stored :
      {own : ℕ → ℕ} {s : Span} {m : SpanView} (pad : List ℕ)
      → IsSpan own s m
      → (print_attr_rows io sql pad
            (map (attr_columns s) (walk_attrs walk_fuel s.arena s.attr_head))
          ≡ attr_lines pad m.attrs)
        × (map (event_lines io sql s pad) (walk_events walk_fuel s.arena s.event_head)
            ≡ map (λ e. attr_lines pad e.attrs) m.events)
  print_attr_rows-stored {own} {s} {m} pad v =
      let few : event_records m.events + length m.attrs < walk_fuel =
        omega (arith, v.budget, v.aligned.within) in
      (
        print_attr_rows-shown s v.aligned.within pad (walk_attrs walk_fuel s.arena s.attr_head)
            m.attrs (walk_attrs-AllShow walk_fuel v.aligned.within (omega (arith, few)) v.attrs),
        events-shown s v.aligned.within pad own (walk_events walk_fuel s.arena s.event_head)
            m.events (omega (arith, few))
            (walk_events-AllShow walk_fuel v.aligned.within
              (omega (arith, few, length-le-event_records m.events)) v.events),
      )

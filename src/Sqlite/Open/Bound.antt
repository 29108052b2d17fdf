-- ===== src/Sqlite/Open/Bound.antt =====
-- The sink binds each parameter of its statements.
use oteltracing_c.Base.{ℕ, ◌≡◌, refl, List, ◌∷◌, arith}
use oteltracing_c.Base.Lists.{length}
use oteltracing_c.Base.Int.{pos}
use oteltracing_c.Span.{Span, Attr, Event}
use oteltracing_c.Sqlite.{integer, ins_span, ins_attr, ins_event, ins_event_attr}
use oteltracing_c.Sqlite.Schema.{insert_sql, count}
use oteltracing_c.Sqlite.Sink.{value_columns, attr_columns, span_columns, event_columns}

length-value_columns : (s : Span) (a : Attr) → length (value_columns s a) ≡ 3
unfolding value_columns
length-value_columns s a = ground arith

-- For any span, attribute, event and owner, each of the four INSERT statements that sqlite_open
-- prepares has exactly as many parameters as the sink binds values to it, whatever the type of the
-- attribute.
pub bound_all :
    (service : List ℕ) (s : Span) (a : Attr) (e : Event) (owner : ℕ)
    → (count b'?' (insert_sql ins_span) ≡ length (span_columns service s))
      × (count b'?' (insert_sql ins_attr) ≡ length (integer (pos owner) ∷ attr_columns s a))
      × (count b'?' (insert_sql ins_event) ≡ length (integer (pos owner) ∷ event_columns s e))
      × (count b'?' (insert_sql ins_event_attr) ≡ length (integer (pos owner) ∷ attr_columns s a))
unfolding insert_sql span_columns attr_columns event_columns
bound_all service s a e owner =
    let three = length-value_columns s a in (refl, rw three refl, refl, rw three refl)

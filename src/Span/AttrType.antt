-- ===== src/Span/AttrType.antt =====
-- `enum otel_attr_type` of oteltracing.h.
use oteltracing_c.Base.{ℕ}

abbrev pub str : ℕ
str = 0

abbrev pub i64 : ℕ
i64 = 1

abbrev pub u64 : ℕ
u64 = 2

abbrev pub f64 : ℕ
f64 = 3

abbrev pub bool : ℕ
bool = 4

-- ===== src/Span.antt =====
-- `struct otel_span` of oteltracing.h with its inline arena, and the records that live in it.
pub mod AttrType
pub mod Arena
pub mod Attrs
pub mod Events
pub mod Chain
pub mod Memory
pub mod View
pub mod Read
pub mod Start
pub mod Tests
use oteltracing_c.Base.{ℕ, ◌%◌, Bool, not, Option, none, some, List}
use oteltracing_c.Base.Tests.{◌==◌, if◌then◌else◌}
use oteltracing_c.Base.Int.{ℤ}

-- OTEL_SPAN_ARENA, OTEL_NIL
abbrev pub span_arena : ℕ
span_arena = 4024

abbrev pub nil : ℕ
nil = 0xFFFF

-- The union `v` of `struct otel_attr`: the member last written. A `double` is its 64-bit pattern.
pub data Num : Type 0 where
  unset : Num
  signed : ℤ → Num
  unsigned : ℕ → Num
  double : ℕ → Num
  int : ℕ → Num

-- `struct otel_attr`
pub record Attr : Type 0 where
  pub next : ℕ
  pub key : ℕ
  pub val : ℕ
  pub type : ℕ
  pub v : Num

-- `struct otel_event`
pub record Event : Type 0 where
  pub next : ℕ
  pub name : ℕ
  pub attr_head : ℕ
  pub attr_tail : ℕ
  pub num_attrs : ℕ
  pub dropped_attrs : ℕ
  pub time_unix_ns : ℕ

-- `sizeof` of the two records
abbrev pub sizeof_attr : ℕ
sizeof_attr = 16

abbrev pub sizeof_event : ℕ
sizeof_event = 24

-- What an allocation of the arena holds: the bytes of a string before its closing NUL, or a record.
pub data Cell : Type 0 where
  text : List ℕ → Cell
  attr : Attr → Cell
  event : Event → Cell

-- The arena, by the offset at which an allocation starts.
abbrev pub Arena : Type 0
Arena = ℕ → Option Cell

abbrev pub write : Arena → ℕ → Cell → Arena
write mem o c q = if o == q then some c else mem q

-- A store through a pointer to an attribute record; through another pointer it changes nothing.
abbrev pub at_attr : (Attr → Attr) → Option Cell → Option Cell
at_attr f (some (attr a)) = some (attr (f a))
at_attr f (some (text bs)) = some (text bs)
at_attr f (some (event e)) = some (event e)
at_attr f none = none

abbrev pub at_event : (Event → Event) → Option Cell → Option Cell
at_event f (some (event e)) = some (event (f e))
at_event f (some (text bs)) = some (text bs)
at_event f (some (attr a)) = some (attr a)
at_event f none = none

abbrev pub change : Arena → ℕ → (Option Cell → Option Cell) → Arena
change mem o f q = if o == q then f (mem q) else mem q

-- `struct otel_span`
pub record Span : Type 0 where
  pub trace_id : List ℕ
  pub span_id : ℕ
  pub parent_id : ℕ
  pub start_unix_ns : ℕ
  pub end_unix_ns : ℕ
  pub name : ℕ
  pub status_message : ℕ
  pub attr_head : ℕ
  pub attr_tail : ℕ
  pub event_head : ℕ
  pub event_tail : ℕ
  pub arena_used : ℕ
  pub num_attrs : ℕ
  pub num_events : ℕ
  pub kind : ℕ
  pub flags : ℕ
  pub status : ℕ
  pub dropped_attrs : ℕ
  pub dropped_events : ℕ
  pub arena : Arena

-- `s->flags & OTEL_FLAG_RECORDING`, the lowest bit
unfoldable pub recording : Span → Bool
recording s = not (s.flags % 2 == 0)

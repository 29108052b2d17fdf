-- ===== src/Span/Read.antt =====
-- The read accessors of oteltracing.h and the walks over the lists in the arena.
pub mod Walk
use oteltracing_c.Base.{ℕ, zero, suc, Option, none, some, List, [], ◌∷◌}
use oteltracing_c.Base.Tests.{◌==◌, if◌then◌else◌}
use oteltracing_c.Base.Lists.{c_string}
use oteltracing_c.Span.{Arena, Attr, Event, Cell, text, attr, event, nil}

-- What a `char *` to an arena offset reads as; nothing where no string starts.
abbrev pub text_of : Option Cell → List ℕ
text_of (some (text bs)) = c_string bs
text_of (some (attr a)) = []
text_of (some (event e)) = []
text_of none = []

abbrev pub attr_of : Option Cell → Option Attr
attr_of (some (attr a)) = some a
attr_of (some (text bs)) = none
attr_of (some (event e)) = none
attr_of none = none

abbrev pub event_of : Option Cell → Option Event
event_of (some (event e)) = some e
event_of (some (text bs)) = none
event_of (some (attr a)) = none
event_of none = none

-- `for (a = otel_attr_first(s); a; a = otel_attr_next(s, a))`: the records that the loop visits.
unfoldable pub walk_attrs : ℕ → Arena → ℕ → List Attr
walk_attrs zero mem p = []
walk_attrs (suc f) mem p =
    if p == nil
    then []
    else elim (attr_of (mem p)) [ none ↦ [] | some a ↦ a ∷ walk_attrs f mem a.next ]

-- `for (e = otel_event_first(s); e; e = otel_event_next(s, e))`
unfoldable pub walk_events : ℕ → Arena → ℕ → List Event
walk_events zero mem p = []
walk_events (suc f) mem p =
    if p == nil
    then []
    else elim (event_of (mem p)) [ none ↦ [] | some e ↦ e ∷ walk_events f mem e.next ]

-- No list in an arena of 4024 bytes is longer than 167 records.
abbrev pub walk_fuel : ℕ
walk_fuel = 256

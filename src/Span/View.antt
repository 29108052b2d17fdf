-- ===== src/Span/View.antt =====
-- What a span stands for: its strings, its attributes and its events in order; and when a
-- `struct otel_span` holds that in its arena.
pub mod Frame
pub mod Grow
pub mod Append
pub mod Linked
pub mod Events
pub mod Update
pub mod EventAttrs
use oteltracing_c.Base.{ℕ, ◌+◌, ◌*◌, ◌≤◌, ◌<◌, ◌≡◌, ◌⊎◌, Option, some, List, [], ◌∷◌}
use oteltracing_c.Base.Int.{ℤ}
use oteltracing_c.Base.Lists.{length, c_string}
use oteltracing_c.Span.{
  Span, Arena, Attr, Event, Num, signed, unsigned, double, int, text, attr, event, nil, sizeof_attr,
  sizeof_event,
}
use oteltracing_c.Span.Arena.Alloc.{IsAligned}
use oteltracing_c.Span.AttrType
use oteltracing_c.Span.Chain.{Chain}

-- The value of an attribute as a reader of the span sees it.
pub data Value : Type 0 where
  str : List ℕ → Value
  i64 : ℤ → Value
  u64 : ℕ → Value
  bool : ℕ → Value

pub record AttrView : Type 0 where
  pub key : List ℕ
  pub value : Value

-- `at` is the handle of the event.
pub record EventView : Type 0 where
  pub at : ℕ
  pub name : List ℕ
  pub time : ℕ
  pub dropped : ℕ
  pub attrs : List AttrView

pub record SpanView : Type 0 where
  pub name : List ℕ
  pub message : List ℕ
  pub attrs : List AttrView
  pub events : List EventView

-- The allocation at `off`, below `hi`, is a string that reads as `bs`.
pub record IsText (mem : Arena) (hi off : ℕ) (bs : List ℕ) : Type 0 where
  pub raw : List ℕ
  pub cell : mem off ≡ some (text raw)
  pub shown : c_string raw ≡ bs
  pub region : off + length raw + 1 ≤ hi

-- A string or OTEL_NIL, which reads as "".
pub data IsStr (mem : Arena) (hi off : ℕ) (bs : List ℕ) : Type 0 where
  absent : off ≡ nil → bs ≡ [] → IsStr mem hi off bs
  present : IsText mem hi off bs → IsStr mem hi off bs

abbrev pub HasValue : Arena → ℕ → Attr → Value → Type 0
HasValue mem hi a (str bs) = (a.type ≡ AttrType.str) × IsStr mem hi a.val bs
HasValue mem hi a (i64 n) = (a.type ≡ AttrType.i64) × (a.v ≡ signed n)
HasValue mem hi a (u64 n) = (a.type ≡ AttrType.u64) × (a.v ≡ unsigned n)
HasValue mem hi a (bool n) = (a.type ≡ AttrType.bool) × (a.v ≡ int n)

-- The record at `o` is the attribute `v`, belongs to the list `own o`, and `q` comes next.
pub record IsAttr (mem : Arena) (own : ℕ → ℕ) (w hi : ℕ) (o : ℕ) (v : AttrView) (q : ℕ)
    : Type 0 where
  pub a : Attr
  pub cell : mem o ≡ some (attr a)
  pub next : a.next ≡ q
  pub owner : own o ≡ w
  pub region : o + sizeof_attr ≤ hi
  pub key : IsText mem hi a.key v.key
  pub value : HasValue mem hi a v.value

-- The record at `o` is the event `v` with its list of attributes, and `q` comes next.
pub record IsEvent (mem : Arena) (own : ℕ → ℕ) (hi : ℕ) (o : ℕ) (v : EventView) (q : ℕ)
    : Type 0 where
  pub e : Event
  pub cell : mem o ≡ some (event e)
  pub next : e.next ≡ q
  pub handle : v.at ≡ o
  pub region : o + sizeof_event ≤ hi
  pub name : IsStr mem hi e.name v.name
  pub time : e.time_unix_ns ≡ v.time
  pub dropped : e.dropped_attrs ≡ v.dropped
  pub count : e.num_attrs ≡ length v.attrs
  pub attrs : Chain (IsAttr mem own o hi) e.attr_head e.attr_tail v.attrs

-- The records that a span holds, each of which takes 24 bytes of the arena or more: an event its
-- own size, an attribute its record and its key.
abbrev pub total_of : (EventView → ℕ) → List EventView → ℕ
total_of f [] = 0
total_of f (e ∷ es) = f e + total_of f es

abbrev pub event_records : List EventView → ℕ
event_records es = total_of (λ e. 1 + length e.attrs) es

abbrev pub records : SpanView → ℕ
records m = length m.attrs + event_records m.events

-- The bytes of the arena that the content takes, or more: the records, and each text, of which at
-- least the NUL of a key is counted.
abbrev pub value_size : Value → ℕ
value_size (str bs) = length bs
value_size (i64 n) = 0
value_size (u64 n) = 0
value_size (bool n) = 0

abbrev pub attr_size : AttrView → ℕ
attr_size k = 17 + length k.key + value_size k.value

abbrev pub attrs_size : List AttrView → ℕ
attrs_size [] = 0
attrs_size (k ∷ ks) = attr_size k + attrs_size ks

abbrev pub event_size : EventView → ℕ
event_size e = 24 + length e.name + attrs_size e.attrs

abbrev pub size : SpanView → ℕ
size m = length m.name + length m.message + attrs_size m.attrs + total_of event_size m.events

-- The span `s` holds `m`. `own` says for each attribute record whose list it is in: the span's
-- (OTEL_NIL) or that of the event at an offset.
pub record IsSpan (own : ℕ → ℕ) (s : Span) (m : SpanView) : Type 0 where
  pub aligned : IsAligned s
  pub name : IsStr s.arena s.arena_used s.name m.name
  pub message : IsStr s.arena s.arena_used s.status_message m.message
  pub attrs : Chain (IsAttr s.arena own nil s.arena_used) s.attr_head s.attr_tail m.attrs
  pub events : Chain (IsEvent s.arena own s.arena_used) s.event_head s.event_tail m.events
  pub num_attrs : s.num_attrs ≡ length m.attrs
  pub num_events : s.num_events ≡ length m.events
  pub budget : 24 * records m ≤ s.arena_used
  pub weight : size m ≤ s.arena_used

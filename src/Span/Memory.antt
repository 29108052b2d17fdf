-- ===== src/Span/Memory.antt =====
-- Loads after stores in the arena.
use oteltracing_c.Base.{ℕ, ◌≡◌, ◌≢◌, ap, ◌∙◌, Option, some, arith}
use oteltracing_c.Span.{Arena, Attr, Event, Cell, attr, event, write, change, at_attr, at_event}

pub write_ne : (mem : Arena) (o q : ℕ) (c : Cell) → o ≢ q → write mem o c q ≡ mem q
write_ne mem o q c ne = ground arith

pub change_self :
    (mem : Arena) (o : ℕ) (f : Option Cell → Option Cell) → change mem o f o ≡ f (mem o)
change_self mem o f = ground arith

pub change_attr :
    (mem : Arena) (o : ℕ) {a : Attr} (f : Attr → Attr)
    → mem o ≡ some (attr a)
    → change mem o (at_attr f) o ≡ some (attr (f a))
change_attr mem o f e = change_self mem o (at_attr f) ∙ ap (at_attr f) e

pub change_event :
    (mem : Arena) (o : ℕ) {e : Event} (f : Event → Event)
    → mem o ≡ some (event e)
    → change mem o (at_event f) o ≡ some (event (f e))
change_event mem o f e = change_self mem o (at_event f) ∙ ap (at_event f) e

pub change_ne :
    (mem : Arena) (o q : ℕ) (f : Option Cell → Option Cell) → o ≢ q → change mem o f q ≡ mem q
change_ne mem o q f ne = ground arith

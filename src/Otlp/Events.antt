-- ===== src/Otlp/Events.antt =====
-- The loop of `otlp_add_span` over the events of a span.
use oteltracing_c.Base.{
  ℕ, ◌+◌, ◌≤◌, ◌<◌, ◌≡◌, refl, ap, ap₂, ◌∙◌, sym, List, [], ◌∷◌, ◌++◌, map, arith, suc,
}
use oteltracing_c.Base.Lists.{
  length, slice, slice-append, slice-length, length-append, length-map, All, All-map, map-All,
}
use oteltracing_c.Span.{Event, span_arena}
use mathlib.Core.List.{append-nil, append_assoc}
use oteltracing_c.Span.View.{EventView, event_records}
use oteltracing_c.Span.Read.{walk_attrs, walk_fuel}
use oteltracing_c.Span.Read.Walk.{
  AllShow, length-AllShow, walk_attrs-AllShow, ShowsEvent, AllShowEvents,
}
use oteltracing_c.Otlp.{Slot, Rings, KeyValue, OtlpEvent, Pools, strv, add_attr}
use oteltracing_c.Otlp.Batch.{read_attr, read_event, add_event, add_events, read_text}
use oteltracing_c.Otlp.Encode.{read_attrs_shown, read_text-IsStr, event_msg}

-- The attributes of an event lie in a pool of `n` entries.
abbrev pub EventIn : ℕ → OtlpEvent → Type 0
EventIn n ev = ev.attributes + ev.n_attributes ≤ n

-- the attributes of the events alone
abbrev pub event_attrs : List EventView → ℕ
event_attrs [] = 0
event_attrs (v ∷ vs) = length v.attrs + event_attrs vs

-- What the loop adds to the pools: entries that read as the events `vs`.
pub record Added (rings : Rings) (p p' : Pools) (vs : List EventView) : Type 0 where
  pub ys : List KeyValue
  pub evs : List OtlpEvent
  pub attr : p'.attr ≡ p.attr ++ ys
  pub event : p'.event ≡ p.event ++ evs
  pub reads : map (read_event rings p'.attr) evs ≡ map event_msg vs
  pub inside : All (EventIn (length p'.attr)) evs
  pub events : length evs ≡ length vs
  pub attrs : length ys ≡ event_attrs vs

-- A pool that grows leaves the entries in it readable.
pub read_event-append :
    (rings : Rings) (pool ys : List KeyValue) (evs : List OtlpEvent)
    → All (EventIn (length pool)) evs
    → map (read_event rings (pool ++ ys)) evs ≡ map (read_event rings pool) evs
read_event-append rings pool ys evs h = map-All _ _ evs (
    All-map (EventIn (length pool)) _ evs
      (λ ev k i. record {
        time = ev.time_unix_nano;
        name = read_text rings ev.name;
        attributes = map (read_attr rings) (slice-append pool ys ev.attributes ev.n_attributes k i);
        dropped = ev.dropped_attributes_count;
      })
      h)

module _ (rings : Rings) (slot : Slot) where
  abbrev new_attrs : Event → List KeyValue
  new_attrs e = map (add_attr slot) (walk_attrs walk_fuel (rings slot).arena e.attr_head)

  abbrev new_event : Event → Pools → OtlpEvent
  new_event e p = record {
    time_unix_nano = e.time_unix_ns;
    name = strv slot e.name;
    attributes = length p.attr;
    n_attributes = length (walk_attrs walk_fuel (rings slot).arena e.attr_head);
    dropped_attributes_count = e.dropped_attrs;
  }

module _ (rings : Rings) (slot : Slot) (own : ℕ → ℕ) {hi : ℕ} (within : hi ≤ span_arena) where
  walked :
      (e : Event) (v : EventView)
      → length v.attrs < 256
      → ShowsEvent (rings slot).arena own hi e v
      → AllShow (rings slot).arena hi (walk_attrs walk_fuel (rings slot).arena e.attr_head) v.attrs
  walked e v few x = walk_attrs-AllShow walk_fuel within few x.attrs

  length-new_attrs :
      (e : Event) (v : EventView)
      → length v.attrs < 256
      → ShowsEvent (rings slot).arena own hi e v
      → length (new_attrs rings slot e) ≡ length v.attrs
  length-new_attrs e v few x =
      length-map _ _ ∙ length-AllShow (rings slot).arena hi _ v.attrs (walked e v few x)

  slice-new_attrs :
      (e : Event) (p : Pools) (ys : List KeyValue)
      → slice
          ((p.attr ++ new_attrs rings slot e) ++ ys)
          (length p.attr)
          (length (walk_attrs walk_fuel (rings slot).arena e.attr_head))
        ≡ new_attrs rings slot e
  slice-new_attrs e p ys =
      let n = length-map (add_attr slot) (walk_attrs walk_fuel (rings slot).arena e.attr_head) in
      rw (← n) (
        slice-append (p.attr ++ new_attrs rings slot e) ys (length p.attr)
          (length (new_attrs rings slot e))
          (omega (arith, length-append p.attr (new_attrs rings slot e)))
        ∙ slice-length p.attr (new_attrs rings slot e))

  -- one round
  read_new_event :
      (e : Event) (v : EventView) (p : Pools) (ys : List KeyValue)
      → length v.attrs < 256
      → ShowsEvent (rings slot).arena own hi e v
      → read_event rings ((p.attr ++ new_attrs rings slot e) ++ ys) (new_event rings slot e p)
        ≡ event_msg v
  unfolding event_msg
  read_new_event e v p ys few x =
      let shown =
        ap (map (read_attr rings)) (slice-new_attrs e p ys)
        ∙ read_attrs_shown rings slot within _ v.attrs (walked e v few x) in
      λ i. record {
        time = x.time i;
        name = read_text-IsStr rings slot within x.name i;
        attributes = shown i;
        dropped = x.dropped i;
      }

  pub add_events-Added :
      (es : List Event) (vs : List EventView) (p : Pools)
      → event_records vs < 256
      → AllShowEvents (rings slot).arena own hi es vs
      → Added rings p (add_events slot (rings slot) es p) vs
  unfolding add_events
  add_events-Added [] [] p few h = record {
    ys = [];
    evs = [];
    attr = sym (append-nil p.attr);
    event = sym (append-nil p.event);
    reads = refl;
    inside = tt;
    events = refl;
    attrs = refl;
  }
  add_events-Added [] (v ∷ vs) p few h = absurd h
  add_events-Added (e ∷ es) [] p few h = absurd h
  add_events-Added (e ∷ es) (v ∷ vs) p few h =
      let rest = add_events-Added es vs (add_event slot (rings slot) e p) (omega arith) h.1 in
      let count = length-new_attrs e v (omega arith) h.0 in
      record {
        ys = new_attrs rings slot e ++ rest.ys;
        evs = new_event rings slot e p ∷ rest.evs;
        attr = rest.attr ∙ append_assoc p.attr (new_attrs rings slot e) rest.ys;
        event = rest.event ∙ append_assoc p.event (new_event rings slot e p ∷ []) rest.evs;
        reads =
            ap₂ ◌∷◌
              (ap (λ pool. read_event rings pool (new_event rings slot e p)) rest.attr
                ∙ read_new_event e v p rest.ys (omega arith) h.0)
              rest.reads;
        inside = (
          omega (
            arith,
            ap length rest.attr,
            length-append (p.attr ++ new_attrs rings slot e) rest.ys,
            length-append p.attr (new_attrs rings slot e),
            length-map (add_attr slot) (walk_attrs walk_fuel (rings slot).arena e.attr_head),
          ),
          rest.inside,
        );
        events = ap suc rest.events;
        attrs = omega (arith, count, rest.attrs, length-append (new_attrs rings slot e) rest.ys);
      }

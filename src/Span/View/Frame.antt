-- ===== src/Span/View/Frame.antt =====
-- What a span holds survives a change of the arena that spares it.
use oteltracing_c.Base.{ℕ, ◌≤◌, ◌<◌, ◌≡◌, ◌∙◌, ◌≢◌, some, List, arith}
use oteltracing_c.Span.{Arena, Attr, Event, text, attr, event, nil}
use oteltracing_c.Span.Chain.{Chain, empty, ends, Seg-frame}
use oteltracing_c.Span.View.{
  Value, AttrView, EventView, IsText, IsStr, absent, present, HasValue, IsAttr, IsEvent, str, i64,
  u64, bool,
}

-- Below `hi` the arena stays as it is, but for the attribute record at `t` and the event record at `u`.
pub record Frame (mem mem' : Arena) (own own' : ℕ → ℕ) (hi hi' t u : ℕ) : Type 0 where
  pub grow : hi ≤ hi'
  pub texts : (o : ℕ) (bs : List ℕ) → o < hi → mem o ≡ some (text bs) → mem' o ≡ some (text bs)
  pub attrs : (o : ℕ) (a : Attr) → o < hi → o ≢ t → mem o ≡ some (attr a) → mem' o ≡ some (attr a)
  pub events :
      (o : ℕ) (e : Event) → o < hi → o ≢ u → mem o ≡ some (event e) → mem' o ≡ some (event e)
  pub owners : (o : ℕ) → o < hi → own' o ≡ own o

module _ {mem mem' : Arena} {own own' : ℕ → ℕ} {hi hi' t u : ℕ}
    (f : Frame mem mem' own own' hi hi' t u) where
  pub IsText-frame : {off : ℕ} {bs : List ℕ} → IsText mem hi off bs → IsText mem' hi' off bs
  IsText-frame {off} x = record {
    raw = x.raw;
    cell = f.texts off x.raw (omega (arith, x.region)) x.cell;
    shown = x.shown;
    region = omega (arith, x.region, f.grow);
  }

  pub IsStr-frame : {off : ℕ} {bs : List ℕ} → IsStr mem hi off bs → IsStr mem' hi' off bs
  IsStr-frame (absent e k) = absent e k
  IsStr-frame (present x) = present (IsText-frame x)

  pub HasValue-frame : (a : Attr) (v : Value) → HasValue mem hi a v → HasValue mem' hi' a v
  HasValue-frame a (str bs) h = (h.0, IsStr-frame h.1)
  HasValue-frame a (i64 n) h = h
  HasValue-frame a (u64 n) h = h
  HasValue-frame a (bool n) h = h

  pub IsAttr-frame :
      {w : ℕ} (o : ℕ) (v : AttrView) (q : ℕ)
      → o ≢ t
      → IsAttr mem own w hi o v q
      → IsAttr mem' own' w hi' o v q
  IsAttr-frame {w} o v q ne x = record {
    a = x.a;
    cell = f.attrs o x.a (omega (arith, x.region)) ne x.cell;
    next = x.next;
    owner = f.owners o (omega (arith, x.region)) ∙ x.owner;
    region = omega (arith, x.region, f.grow);
    key = IsText-frame x.key;
    value = HasValue-frame x.a v.value x.value;
  }

  -- a list of attributes without the record at `t`
  pub attrs-frame :
      {w head tail : ℕ} {vs : List AttrView}
      → ((o : ℕ) → o < hi → own o ≡ w → o ≢ t)
      → Chain (IsAttr mem own w hi) head tail vs
      → Chain (IsAttr mem' own' w hi') head tail vs
  attrs-frame apart (empty h k e) = empty h k e
  attrs-frame {w} {head} {tail} apart (ends front last e s n) =
      ends front last e
        (Seg-frame (λ o v q h x. IsAttr-frame o v q (apart o (omega (arith, x.region)) x.owner) x)
          s)
        (IsAttr-frame tail last nil (apart tail (omega (arith, n.region)) n.owner) n)

  pub IsEvent-frame :
      (o : ℕ) (v : EventView) (q : ℕ)
      → o ≢ u
      → ((p : ℕ) → p < hi → own p ≡ o → p ≢ t)
      → IsEvent mem own hi o v q
      → IsEvent mem' own' hi' o v q
  IsEvent-frame o v q ne apart x = record {
    e = x.e;
    cell = f.events o x.e (omega (arith, x.region)) ne x.cell;
    next = x.next;
    handle = x.handle;
    region = omega (arith, x.region, f.grow);
    name = IsStr-frame x.name;
    time = x.time;
    dropped = x.dropped;
    count = x.count;
    attrs = attrs-frame apart x.attrs;
  }

  -- a list of events without the record at `u` and whose attributes spare `t`
  pub events-frame :
      {head tail : ℕ} {vs : List EventView}
      → ((o : ℕ) → o < hi → o ≢ u)
      → ((o p : ℕ) → o < hi → p < hi → own p ≡ o → p ≢ t)
      → Chain (IsEvent mem own hi) head tail vs
      → Chain (IsEvent mem' own' hi') head tail vs
  events-frame spare apart (empty h k e) = empty h k e
  events-frame {head} {tail} spare apart (ends front last e s n) =
      ends front last e (Seg-frame (λ o v q h x. keep o v q x) s) (keep tail last nil n)
    where
      keep :
          (o : ℕ) (v : EventView) (q : ℕ) → IsEvent mem own hi o v q → IsEvent mem' own' hi' o v q
      keep o v q x =
          let h : o < hi = omega (arith, x.region) in
          IsEvent-frame o v q (spare o h) (λ p k. apart o p h k) x

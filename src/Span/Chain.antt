-- ===== src/Span/Chain.antt =====
-- Linked lists that are threaded through the arena in the order of their offsets.
use oteltracing_c.Base.{ℕ, ◌≤◌, ◌<◌, ◌≡◌, List, [], ◌∷◌, ◌++◌, map, arith}
use oteltracing_c.Span.{nil}

-- From `p` the links lead through the nodes `xs` to `stop`, each at a greater offset.
pub data Seg {X : Type 0} (Node : ℕ → X → ℕ → Type 0) (stop : ℕ) : ℕ → List X → Type 0 where
  here : Seg Node stop stop []
  step :
      {p q : ℕ} {x : X} {xs : List X}
      → Node p x q
      → p < q
      → Seg Node stop q xs
      → Seg Node stop p (x ∷ xs)

-- A list with a head and a tail pointer, OTEL_NIL when it is empty.
pub data Chain {X : Type 0} (Node : ℕ → X → ℕ → Type 0) (head tail : ℕ) (xs : List X) : Type 0 where
  empty : head ≡ nil → tail ≡ nil → xs ≡ [] → Chain Node head tail xs
  ends :
      (front : List X) (last : X)
      → xs ≡ front ++ (last ∷ [])
      → Seg Node tail head front
      → Node tail last nil
      → Chain Node head tail xs

module _ {X : Type 0} {Node : ℕ → X → ℕ → Type 0} where
  pub Seg-le : {stop p : ℕ} {xs : List X} → Seg Node stop p xs → p ≤ stop
  Seg-le here = omega arith
  Seg-le (step n h s) = omega (arith, Seg-le s)

  -- The nodes of a segment may change as long as each stays where it is.
  pub Seg-frame :
      {Node' : ℕ → X → ℕ → Type 0} {stop p : ℕ} {xs : List X}
      → ((o : ℕ) (x : X) (q : ℕ) → o < stop → Node o x q → Node' o x q)
      → Seg Node stop p xs
      → Seg Node' stop p xs
  Seg-frame keep here = here
  Seg-frame keep (step {p} {q} {x} n h s) =
      step (keep p x q (omega (arith, Seg-le s)) n) h (Seg-frame keep s)

  pub Seg-map :
      {Node' : ℕ → X → ℕ → Type 0} (f : X → X) {stop p : ℕ} {xs : List X}
      → ((o : ℕ) (x : X) (q : ℕ) → o < stop → Node o x q → Node' o (f x) q)
      → Seg Node stop p xs
      → Seg Node' stop p (map f xs)
  Seg-map f keep here = here
  Seg-map f keep (step {p} {q} {x} n h s) =
      step (keep p x q (omega (arith, Seg-le s)) n) h (Seg-map f keep s)

  pub Seg-snoc :
      {t p r : ℕ} {x : X} {xs : List X}
      → Seg Node t p xs
      → Node t x r
      → t < r
      → Seg Node r p (xs ++ (x ∷ []))
  Seg-snoc here n h = step n h here
  Seg-snoc (step m k s) n h = step m k (Seg-snoc s n h)

-- A list whose nodes all lie below OTEL_NIL runs to OTEL_NIL.
pub Chain-Seg :
    {X : Type 0} {Node : ℕ → X → ℕ → Type 0} {head tail : ℕ} {xs : List X}
    → ((o : ℕ) (x : X) (q : ℕ) → Node o x q → o < nil)
    → Chain Node head tail xs
    → Seg Node nil head xs
Chain-Seg low (empty h t e) = rw (h, e) here
Chain-Seg {tail} low (ends front last e s n) = rw e (Seg-snoc s n (low tail last nil n))

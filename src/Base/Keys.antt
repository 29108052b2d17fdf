-- ===== src/Base/Keys.antt =====
-- Lists of keys: membership as a test, removal, and lists without repetition.
use Prim.Native.Nat.{ℕ}
use mathlib.Core.Path.{◌≡◌}
use mathlib.Core.Bool.{Bool, true, false}
use mathlib.Core.Logic.{inl, inr}
use mathlib.Core.List.{List, [], ◌∷◌}
use native.Mathlib.Omega.{arith}
use oteltracing_c.Base.Tests.{◌==◌, if◌then◌else◌, Bool-cases}

abbrev pub has : ℕ → List ℕ → Bool
has n [] = false
has n (x ∷ xs) = if x == n then true else has n xs

-- the list without the first `n`
abbrev pub remove : ℕ → List ℕ → List ℕ
remove n [] = []
remove n (x ∷ xs) = let rest = remove n xs in if x == n then xs else x ∷ rest

abbrev pub Distinct : List ℕ → Type 0
Distinct [] = Unit {0}
Distinct (x ∷ xs) = (has x xs ≡ false) × Distinct xs

pub has-remove :
    (m n : ℕ) (xs : List ℕ)
    → Distinct xs
    → has m (remove n xs) ≡ (if m == n then false else has m xs)
has-remove m n [] d = ground arith
has-remove m n (x ∷ xs) d = ground (arith, has-remove m n xs d.1, d.0)

pub Distinct-remove : (n : ℕ) (xs : List ℕ) → Distinct xs → Distinct (remove n xs)
Distinct-remove n [] d = tt
Distinct-remove n (x ∷ xs) d = elim (Bool-cases (x == n)) [
  | inl hit ↦ rw hit d.1
  | inr miss ↦ rw miss (ground (arith, has-remove x n xs d.1, d.0), Distinct-remove n xs d.1)
]

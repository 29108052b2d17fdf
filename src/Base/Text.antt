-- ===== src/Base/Text.antt =====
-- Texts as lists of bytes: string literals, and the digits that `%lld` prints.
use oteltracing_c.Base.{inl, inr}
use Prim.Native.Char.{code}
use Prim.Native.Nat.{ℕ, zero, suc, ◌+◌, ◌/◌, ◌%◌, ◌≤◌}
use Prim.Native.String.{String}
use mathlib.Core.List.{List, [], ◌∷◌, ◌++◌}
use native.Mathlib.Omega.{arith}
use oteltracing_c.Base.Tests.{ltb, if◌then◌else◌, Bool-cases}
use oteltracing_c.Base.Lists.{length, length-append}

-- the bytes of an ASCII literal
abbrev pub codes : String → List ℕ
codes String.[] = []
codes (String.◌∷◌ c s) = code c ∷ codes s

-- The decimal digits of a number below 10 ^ fuel.
unfoldable pub digits : ℕ → ℕ → List ℕ
digits zero n = []
digits (suc f) n =
    let rest = digits f (n / 10) in if ltb n 10 then (48 + n) ∷ [] else rest ++ ((48 + n % 10) ∷ [])

pub length-digits : (f n : ℕ) → length (digits f n) ≤ f
unfolding digits
length-digits zero n = omega arith
length-digits (suc f) n = elim (Bool-cases (ltb n 10)) [
  | inl small ↦ rw small (omega arith)
  | inr large ↦ rw large (
      omega
        (arith, length-digits f (n / 10), length-append (digits f (n / 10)) ((48 + n % 10) ∷ [])))
]

-- ===== src/Base/Lists.antt =====
-- Lists measured and indexed by native numbers, under the library's names, and C strings.
use Prim.Native.Nat.{ℕ, zero, suc, ◌+◌, ◌≤◌}
use mathlib.Core.Path.{◌≡◌, refl, ap, ap₂}
use mathlib.Core.List.{List, [], ◌∷◌, ◌++◌, map}
use native.Mathlib.Omega.{arith}
use oteltracing_c.Base.Tests.{◌==◌, if◌then◌else◌}

module _ {ℓ} {A : Type ℓ} where
  abbrev pub length : List A → ℕ
  length [] = 0
  length (x ∷ xs) = suc (length xs)

  abbrev pub take : ℕ → List A → List A
  take zero xs = []
  take (suc n) [] = []
  take (suc n) (x ∷ xs) = x ∷ take n xs

  pub length-append : (xs ys : List A) → length (xs ++ ys) ≡ length xs + length ys
  length-append [] ys = omega arith
  length-append (x ∷ xs) ys = omega (arith, length-append xs ys)

  pub length-take-le : (n : ℕ) (xs : List A) → length (take n xs) ≤ n
  length-take-le zero xs = omega arith
  length-take-le (suc n) [] = omega arith
  length-take-le (suc n) (x ∷ xs) = omega (arith, length-take-le n xs)

  pub length-take : (n : ℕ) (xs : List A) → n ≤ length xs → length (take n xs) ≡ n
  length-take zero xs h = refl
  length-take (suc n) [] h = absurd (omega arith)
  length-take (suc n) (x ∷ xs) h = ap suc (length-take n xs (omega arith))

-- What a reader of a `char *` sees of the bytes that it points to: those before the first NUL.
unfoldable pub c_string : List ℕ → List ℕ
c_string [] = []
c_string (b ∷ bs) = if b == 0 then [] else b ∷ c_string bs

-- `strlen`
abbrev pub strlen : List ℕ → ℕ
strlen bs = length (c_string bs)

pub take-strlen : (bs : List ℕ) → take (strlen bs) bs ≡ c_string bs
unfolding c_string
take-strlen [] = refl
take-strlen (b ∷ bs) = ground (arith, take-strlen bs)

pub c_string_idem : (bs : List ℕ) → c_string (c_string bs) ≡ c_string bs
unfolding c_string
c_string_idem [] = refl
c_string_idem (b ∷ bs) = ground (arith, c_string_idem bs)

pub strlen-le-length : (bs : List ℕ) → strlen bs ≤ length bs
unfolding c_string
strlen-le-length [] = omega arith
strlen-le-length (b ∷ bs) = ground (arith, strlen-le-length bs)

module _ {ℓ} {A : Type ℓ} where
  abbrev pub drop : ℕ → List A → List A
  drop zero xs = xs
  drop (suc n) [] = []
  drop (suc n) (x ∷ xs) = drop n xs

  -- `n` elements from index `i` on
  abbrev pub slice : List A → ℕ → ℕ → List A
  slice xs i n = take n (drop i xs)

  take-append : (n : ℕ) (xs ys : List A) → n ≤ length xs → take n (xs ++ ys) ≡ take n xs
  take-append zero xs ys h = refl
  take-append (suc n) [] ys h = absurd (omega arith)
  take-append (suc n) (x ∷ xs) ys h = ap (λ zs. x ∷ zs) (take-append n xs ys (omega arith))

  pub take-length : (xs : List A) → take (length xs) xs ≡ xs
  take-length [] = refl
  take-length (x ∷ xs) = ap (λ zs. x ∷ zs) (take-length xs)

  pub take_all : (n : ℕ) (xs : List A) → length xs ≤ n → take n xs ≡ xs
  take_all zero [] h = refl
  take_all zero (x ∷ xs) h = absurd (omega arith)
  take_all (suc n) [] h = refl
  take_all (suc n) (x ∷ xs) h = ap (λ zs. x ∷ zs) (take_all n xs (omega arith))

  -- A slice stays what it is when the list grows behind it.
  pub slice-append :
      (xs ys : List A) (i n : ℕ) → i + n ≤ length xs → slice (xs ++ ys) i n ≡ slice xs i n
  slice-append xs ys zero n h = take-append n xs ys (omega arith)
  slice-append [] ys (suc i) n h = absurd (omega arith)
  slice-append (x ∷ xs) ys (suc i) n h = slice-append xs ys i n (omega arith)

  -- The slice behind a list is what was appended.
  pub slice-length : (xs ys : List A) → slice (xs ++ ys) (length xs) (length ys) ≡ ys
  slice-length [] ys = take-length ys
  slice-length (x ∷ xs) ys = slice-length xs ys

pub length-map {ℓ κ} :
    {A : Type ℓ} {B : Type κ} (f : A → B) (xs : List A) → length (map f xs) ≡ length xs
length-map f [] = refl
length-map f (x ∷ xs) = ap suc (length-map f xs)

-- A predicate of every element.
abbrev pub All {ℓ κ} : {A : Type ℓ} → (A → Type κ) → List A → Type κ
All P [] = Unit
All P (x ∷ xs) = P x × All P xs

pub All-append {ℓ κ} :
    {A : Type ℓ} (P : A → Type κ) (xs ys : List A) → All P xs → All P ys → All P (xs ++ ys)
All-append P [] ys hx hy = hy
All-append P (x ∷ xs) ys hx hy = (hx.0, All-append P xs ys hx.1 hy)

pub All-map {ℓ κ μ} :
    {A : Type ℓ} (P : A → Type κ) (Q : A → Type μ) (xs : List A)
    → ((x : A) → P x → Q x)
    → All P xs
    → All Q xs
All-map P Q [] f h = tt
All-map P Q (x ∷ xs) f h = (f x h.0, All-map P Q xs f h.1)

-- Two functions that agree on all elements map them alike.
pub map-All {ℓ κ} :
    {A : Type ℓ} {B : Type κ} (f g : A → B) (xs : List A)
    → All (λ x. f x ≡ g x) xs
    → map f xs ≡ map g xs
map-All f g [] h = refl
map-All f g (x ∷ xs) h = ap₂ ◌∷◌ h.0 (map-All f g xs h.1)

module _ {ℓ κ} {A : Type ℓ} (P : A → Type κ) where
  All-take : (n : ℕ) (xs : List A) → All P xs → All P (take n xs)
  All-take zero xs h = tt
  All-take (suc n) [] h = tt
  All-take (suc n) (x ∷ xs) h = (h.0, All-take n xs h.1)

  pub All-slice : (xs : List A) (i n : ℕ) → All P xs → All P (slice xs i n)
  All-slice xs zero n h = All-take n xs h
  All-slice [] (suc i) n h = All-take n [] tt
  All-slice (x ∷ xs) (suc i) n h = All-slice xs i n h.1

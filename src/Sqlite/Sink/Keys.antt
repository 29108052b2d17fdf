-- ===== src/Sqlite/Sink/Keys.antt =====
-- Lists of rows by their keys: ascending keys, which keys there are, and what a deletion keeps.
use oteltracing_c.Base.Tests.{if_ind, ◌==◌, if◌then◌else◌, Bool-cases}
use oteltracing_c.Base.{
  ◌<◌, ℕ, ◌≡◌, refl, inl, inr, Bool, true, false, not, List, [], ◌∷◌, ◌++◌, map, arith,
}
use oteltracing_c.Base.Lists.{All, All-append}
use oteltracing_c.Sqlite.Tables.{keep, has}

-- Each key is greater than those before it.
abbrev pub Ascending : List ℕ → Type 0
Ascending [] = Unit {0}
Ascending (x ∷ xs) = All (λ n. x < n) xs × Ascending xs

pub Ascending-snoc :
    (xs : List ℕ) (n : ℕ) → Ascending xs → All (λ x. x < n) xs → Ascending (xs ++ (n ∷ []))
Ascending-snoc [] n a h = (tt, tt)
Ascending-snoc (x ∷ xs) n a h =
    (All-append (λ y. x < y) xs _ a.0 (h.0, tt), Ascending-snoc xs n a.1 h.1)

All-keys :
    {A : Type 0} (key : A → ℕ) (P : ℕ → Type 0) (p : A → Bool) (xs : List A)
    → All P (map key xs)
    → All P (map key (keep p xs))
All-keys key P p [] h = tt
All-keys key P p (x ∷ xs) h =
    if_ind (λ l. All P (map key l)) (p x) (λ on. (h.0, All-keys key P p xs h.1))
      (λ off. All-keys key P p xs h.1)

-- What is kept still ascends.
pub Ascending-keep :
    {A : Type 0} (key : A → ℕ) (p : A → Bool) (n : ℕ) (xs : List A)
    → Ascending (n ∷ map key xs)
    → Ascending (n ∷ map key (keep p xs))
Ascending-keep key p n [] h = h
Ascending-keep key p n (x ∷ xs) h =
    if_ind (λ l. Ascending (n ∷ map key l)) (p x)
      (λ on. ((h.0.0, All-keys key (λ y. n < y) p xs h.0.1), Ascending-keep key p (key x) xs h.1))
      (λ off. Ascending-keep key p n xs (h.0.1, h.1.1))

-- Rows of spans and events, by their key.
module _ {A : Type 0} (key : A → ℕ) where
  pub has-append :
      (n : ℕ) (xs ys : List A) → has n (map key xs) ≡ true → has n (map key (xs ++ ys)) ≡ true
  has-append n [] ys h = absurd (cc h)
  has-append n (x ∷ xs) ys h = ground (arith, has-append n xs ys)

  pub has-last : (xs : List A) (y : A) → has (key y) (map key (xs ++ (y ∷ []))) ≡ true
  has-last [] y = ground arith
  has-last (x ∷ xs) y = ground (arith, has-last xs y)

  pub has-keep :
      (p : A → Bool) (n : ℕ) (xs : List A)
      → ((x : A) → key x ≡ n → p x ≡ true)
      → has n (map key xs) ≡ true
      → has n (map key (keep p xs)) ≡ true
  has-keep p n [] h e = e
  has-keep p n (x ∷ xs) h e = elim (Bool-cases (key x == n)) [
    | inl hit ↦ let stays : p x ≡ true = h x (ground arith) in rw (stays, hit) refl
    | inr miss ↦
        let rest : has n (map key xs) ≡ true = rw miss at e in
        elim (Bool-cases (p x)) [
          | inl on ↦ rw (on, miss) (has-keep p n xs h rest)
          | inr off ↦ rw off (has-keep p n xs h rest)
        ]
  ]

  -- A key is on one side of a test or on the other.
  pub has-split :
      (p : A → Bool) (n : ℕ) (xs : List A)
      → has n (map key xs) ≡ true
      → has n (map key (keep p xs)) ≡ false
      → has n (map key (keep (λ x. not (p x)) xs)) ≡ true
  has-split p n [] h e = h
  has-split p n (x ∷ xs) h e = elim (Bool-cases (p x)) [
    | inl on ↦
        let e' : (if key x == n then true else has n (map key (keep p xs))) ≡ false = rw on at e in
        let miss : (key x == n) ≡ false = ground arith in
        rw on (has-split p n xs (rw miss at h) (rw miss at e'))
    | inr off ↦ elim (Bool-cases (key x == n)) [
      | inl hit ↦ rw (off, hit) refl
      | inr miss ↦ rw (off, miss) (has-split p n xs (rw miss at h) (rw off at e))
    ]
  ]

-- What is kept passes the test.
pub All-keep :
    {A : Type 0} (P Q : A → Type 0) (p : A → Bool) (xs : List A)
    → ((x : A) → P x → p x ≡ true → Q x)
    → All P xs
    → All Q (keep p xs)
All-keep P Q p [] f h = tt
All-keep P Q p (x ∷ xs) f h = elim (Bool-cases (p x)) [
  | inl on ↦ rw on (f x h.0 on, All-keep P Q p xs f h.1)
  | inr off ↦ rw off (All-keep P Q p xs f h.1)
]

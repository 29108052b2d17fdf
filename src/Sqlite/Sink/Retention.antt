-- ===== src/Sqlite/Sink/Retention.antt =====
-- What `otel_sqlite_prune` leaves of the spans.
use native.Mathlib.Decide.{dec_lt}
use oteltracing_c.Base.{
  ℕ, suc, ◌+◌, ◌-◌, ◌^◌, ◌%◌, ◌≤◌, ◌<◌, ◌≡◌, refl, sym, ap, subst, Bool, true, false, not, some,
  List, [], ◌∷◌, map, arith,
}
use oteltracing_c.Base.Tests.{leb, ltb, ◌==◌}
use oteltracing_c.Base.Lists.{All, All-map, length}
use oteltracing_c.Base.Int.{pos, negsuc, to_int64}
use oteltracing_c.Sqlite.{Sqlite}
use oteltracing_c.Sqlite.Sink.{prune, prune_to, prune_text, cutoff_of}
use oteltracing_c.Sqlite.Sink.PruneText.{prune_sql_lem}
use oteltracing_c.Sqlite.Sink.Keys.{Ascending, Ascending-keep, All-keep}
use oteltracing_c.Sqlite.Tables.{SpanRow, Tables, keep, span_ids, Stores, Pruned, all_done}

-- Keys that ascend between two bounds are no more than fit there.
length-Ascending :
    (c n : ℕ) (xs : List SpanRow)
    → Ascending (c ∷ map (λ r. r.id) xs)
    → All (λ (r : SpanRow). r.id ≤ n) xs
    → c ≤ n
    → c + length xs ≤ n
length-Ascending c n [] a h le = omega arith
length-Ascending c n (x ∷ xs) a h le = omega (arith, length-Ascending x.id n xs a.1 h.1 h.0, a.0.0)

All-ids :
    (P : ℕ → Type 0) (xs : List SpanRow)
    → All (λ (r : SpanRow). P r.id) xs
    → All P (map (λ r. r.id) xs)
All-ids P [] h = tt
All-ids P (x ∷ xs) h = (h.0, All-ids P xs h.1)

keep_ext :
    {A : Type 0} (p r : A → Bool) (xs : List A) → ((x : A) → p x ≡ r x) → keep p xs ≡ keep r xs
keep_ext p r [] h = refl
keep_ext p r (x ∷ xs) h = rw (h x, keep_ext p r xs h) refl

keep_all : {A : Type 0} (p : A → Bool) (xs : List A) → All (λ x. p x ≡ true) xs → keep p xs ≡ xs
keep_all p [] h = refl
keep_all p (x ∷ xs) h = rw h.0 (ap (λ l. x ∷ l) (keep_all p xs h.1))

keep_none : {A : Type 0} (p : A → Bool) (xs : List A) → All (λ x. p x ≡ false) xs → keep p xs ≡ []
keep_none p [] h = refl
keep_none p (x ∷ xs) h = rw h.0 (keep_none p xs h.1)

pub All-id :
    (P Q : ℕ → Type 0) (xs : List SpanRow)
    → ((n : ℕ) → P n → Q n)
    → All P (map (λ r. r.id) xs)
    → All (λ (r : SpanRow). Q r.id) xs
All-id P Q [] f h = tt
All-id P Q (x ∷ xs) f h = (f x.id h.0, All-id P Q xs f h.1)

Pruned-spans :
    {c : ℕ} {t t' : Tables} → Pruned c t true t' → t'.spans ≡ keep (λ r. not (leb r.id c)) t.spans
Pruned-spans all_done = refl

to_int64-low : (u : ℕ) → u < 2 ^ 63 → to_int64 u ≡ pos u
unfolding to_int64
to_int64-low u h = ground arith

to_int64-high : (u : ℕ) → 2 ^ 63 ≤ u → to_int64 u ≡ negsuc (2 ^ 64 - u - 1)
unfolding to_int64
to_int64-high u h = ground arith

-- a cutoff that is not positive deletes nothing
cutoff_small :
    (q : Sqlite) (db : q.Db) (n max : ℕ)
    → n ≤ max
    → max < 2 ^ 63
    → prune_to q db (cutoff_of q n max) ≡ db
cutoff_small q db n max le k = elim (dec_lt n max) [
  | yes lt ↦
      let same : (n + 2 ^ 64 - max) % 2 ^ 64 ≡ n + 2 ^ 64 - max = omega arith in
      rw (same, to_int64-high (n + 2 ^ 64 - max) (omega arith)) refl
  | no ge ↦
      let same : (n + 2 ^ 64 - max) % 2 ^ 64 ≡ 0 = omega arith in
      rw (same, to_int64-low 0 (omega arith)) refl
]

cutoff_large :
    (q : Sqlite) (n max : ℕ) → max < n → n < 2 ^ 63 → cutoff_of q n max ≡ pos (suc (n - max - 1))
cutoff_large q n max lt h =
    let same : (n + 2 ^ 64 - max) % 2 ^ 64 ≡ suc (n - max - 1) = omega arith in
    rw same (to_int64-low (suc (n - max - 1)) (omega arith))

-- a bound that is negative as an `int64_t`
cutoff_huge :
    (q : Sqlite) (n max : ℕ)
    → max < 2 ^ 64
    → n + (2 ^ 64 - max) < 2 ^ 63
    → cutoff_of q n max ≡ pos (suc (n + (2 ^ 64 - max) - 1))
cutoff_huge q n max lt h =
    let same : (n + 2 ^ 64 - max) % 2 ^ 64 ≡ suc (n + (2 ^ 64 - max) - 1) = omega arith in
    rw same (to_int64-low (suc (n + (2 ^ 64 - max) - 1)) (omega arith))

-- The spans above a cutoff.
length-newer :
    (c n : ℕ) (xs : List SpanRow)
    → Ascending (0 ∷ map (λ r. r.id) xs)
    → All (λ (r : SpanRow). r.id ≤ n) xs
    → c ≤ n
    → c + length (keep (λ r. not (leb r.id c)) xs) ≤ n
length-newer c n xs a top le =
    let newer = keep (λ (r : SpanRow). not (leb r.id c)) xs in
    let above : All (λ (r : SpanRow). c < r.id) newer =
      All-keep _ _ _ xs (λ r h k. ground arith) top in
    let below : All (λ (r : SpanRow). r.id ≤ n) newer = All-keep _ _ _ xs (λ r h k. h) top in
    length-Ascending c n newer
      (All-ids (λ x. c < x) newer above, (Ascending-keep (λ r. r.id) _ 0 xs a).1) below le

module _ (q : Sqlite) (v : Stores q) (db : q.Db) where
  -- Each deletion that a prune asks for is carried out.
  abbrev Accepts : Type 0
  Accepts = (c : ℕ) → c < 2 ^ 63 → (q.exec db (prune_text c)).1 ≡ true

  prune-some :
      (n max : ℕ)
      → q.max_span_id db ≡ some n
      → 0 < max
      → prune q db max ≡ prune_to q db (cutoff_of q n max)
  unfolding prune
  prune-some n max e h = let on : (max == 0) ≡ false = ground arith in rw (on, e) refl

  deleted :
      (c : ℕ)
      → suc c < 2 ^ 63
      → Accepts
      → (v.contents (prune_to q db (pos (suc c)))).spans
        ≡ keep (λ r. not (leb r.id (suc c))) (v.contents db).spans
  deleted c small ok =
      subst
        (λ sql.
          (v.contents (q.exec db sql).0).spans
          ≡ keep (λ r. not (leb r.id (suc c))) (v.contents db).spans)
        (sym (prune_sql_lem (suc c)))
        (Pruned-spans (
          subst
            (λ b. Pruned (suc c) (v.contents db) b (v.contents (q.exec db (prune_text (suc c))).0))
            (ok (suc c) small) (v.prunes db (suc c) small)))

  -- If SQLite behaves as documented and carries out the deletions, the greatest key of spans is n
  -- and below 2^63, the keys ascend from 1, and the cap max is positive and below 2^63, then after
  -- prune the rows of spans are exactly those with n < id + max, in the same order, and they are
  -- no more than max.
  pub prune-retention :
      (n max : ℕ)
      → q.max_span_id db ≡ some n
      → n < 2 ^ 63
      → 0 < max
      → max < 2 ^ 63
      → Ascending (0 ∷ span_ids (v.contents db))
      → Accepts
      → ((v.contents (prune q db max)).spans ≡ keep (λ r. ltb n (r.id + max)) (v.contents db).spans)
        × length (v.contents (prune q db max)).spans ≤ max
  prune-retention n max e h h0 hm a ok =
      let top = v.max_id db n e in
      elim (dec_lt max n) [
        | yes lt ↦
            rw
              (
                prune-some n max e h0,
                cutoff_large q n max lt h,
                deleted (n - max - 1) (omega arith) ok,
              )
              (
                keep_ext _ _ (v.contents db).spans (λ r. ground arith),
                (omega (
                  arith,
                  length-newer (suc (n - max - 1)) n (v.contents db).spans a top (omega arith),
                )),
              )
        | no ge ↦
            rw (prune-some n max e h0, cutoff_small q db n max (omega arith) hm)
              (
                sym (
                    keep_all _ (v.contents db).spans (
                      All-id (λ i. 0 < i) (λ i. ltb n (i + max) ≡ true) _ (λ i k. ground arith)
                        a.0)),
                omega (arith, length-Ascending 0 n (v.contents db).spans a top (omega arith)),
              )
      ]

  -- If SQLite behaves as documented and carries out the deletions, the greatest key of spans is n,
  -- and the cap max is below 2^64 and so large that n + (2^64 - max) is below 2^63, then prune
  -- leaves no row of spans at all.
  pub prune-huge :
      (n max : ℕ)
      → q.max_span_id db ≡ some n
      → max < 2 ^ 64
      → n + (2 ^ 64 - max) < 2 ^ 63
      → Accepts
      → (v.contents (prune q db max)).spans ≡ []
  prune-huge n max e lt h ok =
      rw
        (
          prune-some n max e (omega arith),
          cutoff_huge q n max lt h,
          deleted (n + (2 ^ 64 - max) - 1) (omega arith) ok,
        )
        (keep_none _ (v.contents db).spans
          (All-map _ _ (v.contents db).spans (λ r k. ground arith) (v.max_id db n e)))

-- ===== src/Sqlite/Sink/PruneText.antt =====
-- The text of a prune fits into the buffer of `otel_sqlite_prune`.
use native.Mathlib.Nat.{le_trans}
use oteltracing_c.Base.{ℕ, ◌+◌, ◌≤◌, ◌≡◌, List, ◌++◌, arith}
use oteltracing_c.Base.Lists.{length, length-append, take_all}
use oteltracing_c.Base.Text.{codes, digits, length-digits}
use oteltracing_c.Sqlite.Sink.{prune_text, prune_sql}

-- a literal, then a number, in front of the rest
pub part :
    (a b rest : ℕ) (xs ys zs : List ℕ)
    → length xs ≤ a
    → length ys ≤ b
    → length zs ≤ rest
    → length (xs ++ (ys ++ zs)) ≤ a + (b + rest)
part a b rest xs ys zs ha hb hr =
    omega (arith, length-append xs (ys ++ zs), length-append ys zs, ha, hb, hr)

length-prune_text : (c : ℕ) → length (prune_text c) ≤ 511
length-prune_text c =
    let d = length-digits 19 c in
    let last =
      part 31 19 1 (codes ";DELETE FROM spans WHERE id <= ") (digits 19 c) (codes ";") (omega arith)
        d (omega arith) in
    let third =
      part 39 19 51 (codes ";DELETE FROM span_events WHERE span <= ") (digits 19 c)
        (codes ";DELETE FROM spans WHERE id <= " ++ (digits 19 c ++ codes ";")) (omega arith) d
        last in
    let second =
      part 39 19 109 (codes ");DELETE FROM span_attrs WHERE span <= ") (digits 19 c)
        (codes ";DELETE FROM span_events WHERE span <= "
          ++ (digits 19 c
              ++ (codes ";DELETE FROM spans WHERE id <= " ++ (digits 19 c ++ codes ";"))))
        (omega arith) d third in
    let first =
      part 90 19 167
        (codes
          "DELETE FROM span_event_attrs WHERE event IN (SELECT id FROM span_events WHERE span <= ")
        (digits 19 c) _ (omega arith) d second in
    le_trans first (omega arith)

pub prune_sql_lem : (c : ℕ) → prune_sql c ≡ prune_text c
unfolding prune_sql
prune_sql_lem c = take_all 511 (prune_text c) (length-prune_text c)

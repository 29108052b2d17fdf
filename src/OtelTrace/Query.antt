-- ===== src/OtelTrace/Query.antt =====
-- The queries of tools/otel-trace.c: `append_filters`, `bind_filters`, and the texts and bindings
-- of `cmd_list` and `cmd_spans`.
pub mod Bound
use oteltracing_c.Base.{
  ℕ, suc, ◌+◌, ◌-◌, ◌*◌, Bool, true, false, not, Option, none, some, List, [], ◌∷◌, ◌++◌,
}
use oteltracing_c.Base.Tests.{leb, ◌==◌, if◌then◌else◌}
use oteltracing_c.Base.Int.{ℤ, pos, negsuc}
use oteltracing_c.Base.Lists.{length, take}
use oteltracing_c.Base.Text.{codes}
use oteltracing_c.Sqlite.{Datum, integer, text}

-- `struct filters`; NULL is `none`.
pub record Filters : Type 0 where
  pub service : Option (List ℕ)
  pub name : Option (List ℕ)
  pub status_error : Bool
  pub since_sec : ℤ
  pub min_duration_us : ℤ
  pub limit : ℤ

abbrev pub is_given : Option (List ℕ) → Bool
is_given none = false
is_given (some t) = true

-- whether a number is not 0
abbrev pub is_set : ℤ → Bool
is_set (pos n) = not (n == 0)
is_set (negsuc n) = true

-- `strncat(sql, s, cap - strlen(sql) - 1)`, where `cap` is the size of `sql`
abbrev pub sql_cap : ℕ
sql_cap = 1024

unfoldable pub strncat : List ℕ → List ℕ → List ℕ
strncat sql s = sql ++ take (sql_cap - length sql - 1) s

unfoldable pub append_if : Bool → List ℕ → List ℕ → List ℕ
append_if given s sql = if given then strncat sql s else sql

-- `append_filters`
unfoldable pub append_filters : Filters → List ℕ → List ℕ
append_filters f sql = append_if (is_set f.min_duration_us) (codes " AND duration_ns >= ?") (
    append_if (is_set f.since_sec) (codes " AND start_unix_ns >= ?") (
      append_if f.status_error (codes " AND status_code = 2") (
        append_if (is_given f.name) (codes " AND name = ?")
          (append_if (is_given f.service) (codes " AND service = ?") sql))))

-- Arithmetic of `long long`, with no bound.
abbrev pub minus : ℕ → ℤ → ℤ
minus n (pos k) = if leb k n then pos (n - k) else negsuc (k - n - 1)
minus n (negsuc k) = pos (n + k + 1)

abbrev pub scale : ℕ → ℤ → ℤ
scale m (pos n) = pos (n * m)
scale m (negsuc n) = negsuc ((n + 1) * m - 1)

abbrev pub bind_text : Option (List ℕ) → List Datum → List Datum
bind_text none rest = rest
bind_text (some t) rest = text t ∷ rest

-- `bind_filters`: the values in the order of their indices, with `rest` behind; `now_sec` is the
-- time of `otel_realtime`.
unfoldable pub bind_filters : (now_sec : ℕ) → Filters → List Datum → List Datum
bind_filters now_sec f rest =
    let least =
      if is_set f.min_duration_us then integer (scale 1000 f.min_duration_us) ∷ rest else rest in
    let since =
      if is_set f.since_sec
      then integer (scale 1000000000 (minus now_sec f.since_sec)) ∷ least
      else least in
    bind_text f.service (bind_text f.name since)

-- `f->limit > 0 ? f->limit : 50`
abbrev pub limit_of : ℤ → ℤ
limit_of (pos n) = if n == 0 then pos 50 else pos n
limit_of (negsuc n) = pos 50

unfoldable pub list_head : List ℕ
list_head =
    codes "SELECT trace_id,       MIN(start_unix_ns),       MAX(end_unix_ns) - MIN(start_unix_ns),"
    ++ (codes "       COUNT(*),       MAX(CASE WHEN status_code=2 THEN 1 ELSE 0 END),"
        ++ (codes "       (SELECT name FROM spans r WHERE r.trace_id=s.trace_id "
            ++ (codes "          AND r.parent_id IS NULL LIMIT 1),"
                ++ codes
                    "       (SELECT service FROM spans v WHERE v.trace_id=s.trace_id LIMIT 1) FROM spans s WHERE 1=1")))

-- the text of `cmd_list`
unfoldable pub list_sql : Filters → List ℕ
list_sql f =
    strncat (append_filters f list_head)
      (codes " GROUP BY trace_id ORDER BY MIN(start_unix_ns) DESC LIMIT ?")

unfoldable pub spans_head : List ℕ
spans_head =
    codes
      "SELECT start_unix_ns,duration_ns,service,name,kind,status_code,trace_id FROM spans WHERE 1=1"

-- the text of `cmd_spans`
unfoldable pub spans_sql : Filters → List ℕ
spans_sql f = strncat (append_filters f spans_head) (codes " ORDER BY start_unix_ns DESC LIMIT ?")

-- what both bind
unfoldable pub bindings : (now_sec : ℕ) → Filters → List Datum
bindings now_sec f = bind_filters now_sec f (integer (limit_of f.limit) ∷ [])

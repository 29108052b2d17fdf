-- ===== src/OtelTrace/Args.antt =====
-- `main` of tools/otel-trace.c: the arguments, and the command that they select.
pub mod Render
use oteltracing_c.Base.{ℕ, ◌⊎◌, inl, inr, Bool, true, false, Option, none, some, List, [], ◌∷◌}
use oteltracing_c.Base.Tests.{◌==◌, if◌then◌else◌}
use oteltracing_c.Base.Int.{ℤ, pos}
use oteltracing_c.Base.Text.{codes}
use oteltracing_c.OtelTrace.Tree.{same_text}
use oteltracing_c.OtelTrace.Query.{Filters}

-- `strtoll(text, NULL, 10)` and `atoi(text)`
pub record Libc : Type 0 where
  pub strtoll : List ℕ → ℤ
  pub atoi : List ℕ → ℤ

-- The variables that the loop over the arguments sets.
pub record Parsed : Type 0 where
  pub db_path : List ℕ
  pub f : Filters
  pub cmd : Option (List ℕ)
  pub arg : Option (List ℕ)

-- before the loop; `getenv` is the value of OTEL_TRACE_DB
abbrev pub initial : Option (List ℕ) → Parsed
initial getenv = record {
  db_path = elim getenv [ none ↦ codes "traces.db" | some path ↦ path ];
  f = record {
    service = none;
    name = none;
    status_error = false;
    since_sec = pos 0;
    min_duration_us = pos 0;
    limit = pos 0;
  };
  cmd = none;
  arg = none;
}

-- The branches for an option `a` that has `v` behind it.
unfoldable pub valued : Libc → Parsed → (a v : List ℕ) → Option Parsed
valued c p a v =
    if same_text a (codes "--db")
    then some (record p { db_path = v })
    else if same_text a (codes "--service")
    then some (record p { f = record p.f { service = some v } })
    else if same_text a (codes "--name")
    then some (record p { f = record p.f { name = some v } })
    else if same_text a (codes "--status")
    then some (record p { f = record p.f { status_error = same_text v (codes "error") } })
    else if same_text a (codes "--since")
    then some (record p { f = record p.f { since_sec = c.strtoll v } })
    else if same_text a (codes "--min-duration-us")
    then some (record p { f = record p.f { min_duration_us = c.strtoll v } })
    else if same_text a (codes "--limit")
    then some (record p { f = record p.f { limit = c.atoi v } })
    else none

-- whether `a[0] == '-'`
abbrev pub is_dashed : List ℕ → Bool
is_dashed [] = false
is_dashed (c ∷ cs) = c == b'-'

-- a word is the command, or its argument, or dropped
abbrev pub word_of : Parsed → Option (List ℕ) → Option (List ℕ) → List ℕ → Parsed
word_of p none arg a = record p { cmd = some a }
word_of p (some cmd) none a = record p { arg = some a }
word_of p (some cmd) (some arg) a = p

-- The other branches: the variables, or what `main` returns.
unfoldable pub single : Parsed → List ℕ → Parsed ⊎ ℕ
single p a =
    if same_text a (codes "-h")
    then inr 0
    else if same_text a (codes "--help")
    then inr 0
    else if is_dashed a
    then inr 2
    else inl (word_of p p.cmd p.arg a)

-- the end of a round: the loop goes on with the variables, or `main` returns
abbrev pub then_loop : Parsed ⊎ ℕ → (Parsed → Parsed ⊎ ℕ) → Parsed ⊎ ℕ
then_loop (inl p) next = next p
then_loop (inr rc) next = inr rc

-- a round: an option with its value is skipped with it
abbrev pub round_of :
    Option Parsed → Parsed ⊎ ℕ → (Parsed → Parsed ⊎ ℕ) → (Parsed → Parsed ⊎ ℕ) → Parsed ⊎ ℕ
round_of (some p) other skip next = skip p
round_of none other skip next = then_loop other next

-- the loop over `argv`
unfoldable pub parse : Libc → Parsed → List (List ℕ) → Parsed ⊎ ℕ
parse c p [] = inl p
parse c p (a ∷ []) = single p a
parse c p (a ∷ v ∷ rest) =
    round_of (valued c p a v) (single p a) (λ p'. parse c p' rest) (λ p'. parse c p' (v ∷ rest))

-- what `main` runs on the database
pub data Command : Type 0 where
  list : Command
  show : (trace_id : List ℕ) → Command
  spans : Command
  stats : Command
  sql : (query : List ℕ) → Command

-- a command that needs its argument
abbrev pub with_arg : (List ℕ → Command) → Option (List ℕ) → Command ⊎ ℕ
with_arg make none = inr 2
with_arg make (some arg) = inl (make arg)

-- the dispatch of `main` on the command, with the database open
unfoldable pub dispatch : List ℕ → Option (List ℕ) → Command ⊎ ℕ
dispatch cmd arg =
    if same_text cmd (codes "list")
    then inl list
    else if same_text cmd (codes "show")
    then with_arg show arg
    else if same_text cmd (codes "spans")
    then inl spans
    else if same_text cmd (codes "stats")
    then inl stats
    else if same_text cmd (codes "sql")
    then with_arg sql arg
    else inr 2

-- The part of `main` behind the loop: the command that is run, or what it returns before one;
-- `opens` says for a path whether `db_open` gives a connection.
unfoldable pub select : (opens : List ℕ → Bool) → Parsed → Command ⊎ ℕ
select opens p = elim p.cmd [
  | none ↦ inr 2
  | some cmd ↦ let run = dispatch cmd p.arg in if opens p.db_path then run else inr 1
]

abbrev pub selected : (opens : List ℕ → Bool) → Parsed ⊎ ℕ → Command ⊎ ℕ
selected opens (inl p) = select opens p
selected opens (inr rc) = inr rc

-- `main`, up to the command; `args` are `argv[1]` and what follows
unfoldable pub command_line :
    Libc
    → (opens : List ℕ → Bool) → (getenv : Option (List ℕ)) → (args : List (List ℕ)) → Command ⊎ ℕ
command_line c opens getenv args = selected opens (parse c (initial getenv) args)

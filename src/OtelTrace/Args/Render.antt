-- ===== src/OtelTrace/Args/Render.antt =====
-- What a command line means, whatever the order of its options and words.
use oteltracing_c.Base.{
  ℕ, ◌≡◌, refl, ap, ◌∙◌, inl, Bool, true, false, Option, none, some, List, [], ◌∷◌, arith,
}
use oteltracing_c.Base.Tests.{◌==◌}
use oteltracing_c.Base.Lists.{All}
use oteltracing_c.Base.Text.{codes}
use oteltracing_c.OtelTrace.Tree.{same_text}
use oteltracing_c.OtelTrace.Args.{
  Libc, Parsed, valued, is_dashed, word_of, single, parse, round_of, then_loop, command_line,
  select, initial, selected,
}

-- The parts of a command line.
pub data Item : Type 0 where
  db : List ℕ → Item
  service : List ℕ → Item
  name : List ℕ → Item
  status : List ℕ → Item
  since : List ℕ → Item
  min_duration_us : List ℕ → Item
  limit : List ℕ → Item
  word : List ℕ → Item

-- as arguments
abbrev pub render : List Item → List (List ℕ)
render [] = []
render (db t ∷ is) = codes "--db" ∷ t ∷ render is
render (service t ∷ is) = codes "--service" ∷ t ∷ render is
render (name t ∷ is) = codes "--name" ∷ t ∷ render is
render (status t ∷ is) = codes "--status" ∷ t ∷ render is
render (since t ∷ is) = codes "--since" ∷ t ∷ render is
render (min_duration_us t ∷ is) = codes "--min-duration-us" ∷ t ∷ render is
render (limit t ∷ is) = codes "--limit" ∷ t ∷ render is
render (word t ∷ is) = t ∷ render is

-- A word does not start with a dash.
abbrev pub IsWord : Item → Type 0
IsWord (word t) = is_dashed t ≡ false
IsWord _ = Unit {0}

-- what a part sets
abbrev pub meaning : Libc → Parsed → Item → Parsed
meaning c p (db t) = record p { db_path = t }
meaning c p (service t) = record p { f = record p.f { service = some t } }
meaning c p (name t) = record p { f = record p.f { name = some t } }
meaning c p (status t) = record p { f = record p.f { status_error = same_text t (codes "error") } }
meaning c p (since t) = record p { f = record p.f { since_sec = c.strtoll t } }
meaning c p (min_duration_us t) = record p { f = record p.f { min_duration_us = c.strtoll t } }
meaning c p (limit t) = record p { f = record p.f { limit = c.atoi t } }
meaning c p (word t) = word_of p p.cmd p.arg t

abbrev pub meanings : Libc → Parsed → List Item → Parsed
meanings c p [] = p
meanings c p (i ∷ is) = meanings c (meaning c p i) is

-- A word is not spelled like an option.
not_dashed : (t o : List ℕ) → is_dashed t ≡ false → is_dashed o ≡ true → same_text t o ≡ false
not_dashed [] [] h k = absurd (cc k)
not_dashed [] (y ∷ ys) h k = refl
not_dashed (x ∷ xs) [] h k = refl
not_dashed (x ∷ xs) (y ∷ ys) h k =
    let differ : (x == y) ≡ false = ground (arith, h, k) in rw differ refl

single-word :
    (p : Parsed) (t : List ℕ) → is_dashed t ≡ false → single p t ≡ inl (word_of p p.cmd p.arg t)
unfolding single
single-word p t h =
    rw (not_dashed t (codes "-h") h refl, not_dashed t (codes "--help") h refl, h) refl

valued-word : (c : Libc) (p : Parsed) (t v : List ℕ) → is_dashed t ≡ false → valued c p t v ≡ none
unfolding valued
valued-word c p t v h =
    rw
      (
        not_dashed t (codes "--db") h refl,
        not_dashed t (codes "--service") h refl,
        not_dashed t (codes "--name") h refl,
        not_dashed t (codes "--status") h refl,
        not_dashed t (codes "--since") h refl,
        not_dashed t (codes "--min-duration-us") h refl,
        not_dashed t (codes "--limit") h refl,
      )
      refl

parse-word :
    (c : Libc) (p : Parsed) (t : List ℕ) (rest : List (List ℕ))
    → is_dashed t ≡ false
    → parse c p (t ∷ rest) ≡ parse c (word_of p p.cmd p.arg t) rest
unfolding parse
parse-word c p t [] h = single-word p t h
parse-word c p t (v ∷ rest) h =
    ap (λ o. round_of o (single p t) (λ p'. parse c p' rest) (λ p'. parse c p' (v ∷ rest)))
      (valued-word c p t v h)
    ∙ ap (λ r. then_loop r (λ p'. parse c p' (v ∷ rest))) (single-word p t h)

parse-render :
    (c : Libc) (p : Parsed) (is : List Item)
    → All IsWord is
    → parse c p (render is) ≡ inl (meanings c p is)
unfolding parse valued
parse-render c p [] h = refl
parse-render c p (db t ∷ is) h = parse-render c (meaning c p (db t)) is h.1
parse-render c p (service t ∷ is) h = parse-render c (meaning c p (service t)) is h.1
parse-render c p (name t ∷ is) h = parse-render c (meaning c p (name t)) is h.1
parse-render c p (status t ∷ is) h = parse-render c (meaning c p (status t)) is h.1
parse-render c p (since t ∷ is) h = parse-render c (meaning c p (since t)) is h.1
parse-render c p (min_duration_us t ∷ is) h =
    parse-render c (meaning c p (min_duration_us t)) is h.1
parse-render c p (limit t ∷ is) h = parse-render c (meaning c p (limit t)) is h.1
parse-render c p (word t ∷ is) h =
    parse-word c p t (render is) h.0 ∙ parse-render c (meaning c p (word t)) is h.1

-- For any list of options with their values and of words that do not start with a dash, in any
-- order, command_line on the arguments that spell it selects the command, or returns the code,
-- that follows from setting in turn what each option means, the last one winning, with the first
-- word as the command and the second as its argument; the values may be any texts, also texts that
-- look like options.
pub command_line-render :
    (c : Libc) (opens : List ℕ → Bool) (getenv : Option (List ℕ)) (is : List Item)
    → All IsWord is
    → command_line c opens getenv (render is) ≡ select opens (meanings c (initial getenv) is)
unfolding command_line
command_line-render c opens getenv is h = ap (selected opens) (parse-render c (initial getenv) is h)

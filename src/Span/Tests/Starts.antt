-- ===== src/Span/Tests/Starts.antt =====
-- Starting a span, and a span that is not recorded.
use oteltracing_c.Base.Lists.{c_string}
use oteltracing_c.Span.Start.Fresh.{span_start_child-recording, span_init-IsSpan}
use oteltracing_c.Random.{RandomState}
use oteltracing_c.Span.Arena.Alloc.{IsAligned}
use oteltracing_c.Span.Start.{Sampling, span_start_child, span_init}
use oteltracing_c.Base.{ℕ, ◌≡◌, true, false, some, List, [], ◌∷◌, refl, arith, ◌^◌}
use oteltracing_c.Span.Tests.{own, fresh, nothing, full_span, recording, Span, IsSpan}

-- a configuration that draws, and a generator
abbrev draws : Sampling
draws = record { enabled = true; sample_always = false; sample_threshold = 2 ^ 63 }

abbrev generator : RandomState
generator = record { hi = 3; lo = 5 }

abbrev hi : List ℕ
hi = 104 ∷ 105 ∷ []

span_init-IsSpan_example :
    IsSpan own (span_init full_span (some hi) 2 77) (record nothing { name = hi })
unfolding c_string
span_init-IsSpan_example = span_init-IsSpan own full_span hi 2 77 (omega arith)

span_start_child-recording_example :
    let s' = (span_start_child (some generator) full_span (some hi) 1 50 (some fresh)).0 in
    (recording s' ≡ recording fresh)
    × (recording fresh ≡ true → (s'.trace_id ≡ fresh.trace_id) × (s'.parent_id ≡ fresh.span_id))
span_start_child-recording_example =
    span_start_child-recording generator full_span (some hi) 1 50 fresh

abbrev off_span : Span
off_span = record fresh { flags = 0 }

off_span_lem : recording off_span ≡ false
unfolding recording
off_span_lem = refl

fresh-IsAligned : IsAligned fresh
fresh-IsAligned = record { within = omega arith; aligned = refl }

-- ===== src/Tracer/Init/Failure.antt =====
-- `otel_init` without memory for its buffer.
use oteltracing_c.Base.{subst, ℕ, ◌≡◌, refl, sym, ap, Bool, true, false, Option, none, some, List}
use oteltracing_c.Base.Tests.{if◌then◌else◌}
use oteltracing_c.Tracer.{set_transport, recompute_enabled}
use oteltracing_c.Tracer.Init.{Machine, Setup, buf_size, init, started}

-- If the tracer is not initialized and there is no memory for the buffer, then init returns -1 and
-- leaves no buffer; a second init returns 0 and changes nothing, whatever the machine then gives;
-- and set_transport enables tracing.
pub init-no_memory :
    (m m' : Machine) (t : Setup) (service service' : Option (List ℕ))
    → t.switches.initialized ≡ false
    → m.has_memory buf_size ≡ false
    → let (t1, ok) = init m t service in
      (ok ≡ false)
      × (init m' t1 service' ≡ (t1, true))
      × (t1.buf ≡ none)
      × ((set_transport t1.switches true).enabled ≡ true)
unfolding init set_transport recompute_enabled
init-no_memory m m' t service service' off refused =
    let first : init m t service ≡ (started m service, m.has_memory buf_size) =
      ap (λ b. if b then (t, true) else (started m service, m.has_memory buf_size)) off in
    let same : (init m t service).0 ≡ started m service = ap (λ r. r.0) first in
    subst
      (λ (r : Setup × Bool).
        (r.1 ≡ false)
        × (init m' r.0 service' ≡ (r.0, true))
        × (r.0.buf ≡ none)
        × ((set_transport r.0.switches true).enabled ≡ true))
      (sym first) (refused, refl, ap (λ b. if b then some buf_size else none) refused, refl)

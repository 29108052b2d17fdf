-- ===== src/Tracer.antt =====
-- The tracer's switches and limits: the part of `OT`, `otel_enabled_` and `otel_ring_capacity` of
-- oteltracing.c that decides whether spans are recorded.
pub mod Capacity
pub mod Ring
pub mod Drain
pub mod Init
pub mod Packed
pub mod Registry
pub mod Sampler
pub mod Tests
use oteltracing_c.Base.{
  Bool, true, false, ◌&&◌, ◌||◌, ◌≡◌, refl, sym, ap, subst, inl, inr, List, [], ◌∷◌,
}
use oteltracing_c.Base.Tests.{if◌then◌else◌, Bool-cases}

-- `sink_present` and `transport_present` say whether the callbacks are set.
pub record Switches : Type 0 where
  pub initialized : Bool
  pub transport_present : Bool
  pub sink_present : Bool
  pub runtime_on : Bool
  pub enabled : Bool

-- `otel_recompute_enabled`
unfoldable pub recompute_enabled : Switches → Switches
recompute_enabled t = record t {
  enabled = t.initialized && (t.transport_present || t.sink_present) && t.runtime_on;
}

-- `otel_set_transport`, `otel_set_span_sink`: whether the argument is not NULL
unfoldable pub set_transport : Switches → Bool → Switches
set_transport t given = recompute_enabled (record t { transport_present = given })

unfoldable pub set_span_sink : Switches → Bool → Switches
set_span_sink t given = recompute_enabled (record t { sink_present = given })

-- `otel_set_enabled`: whether the argument is not 0
unfoldable pub set_enabled : Switches → Bool → Switches
set_enabled t on = recompute_enabled (record t { runtime_on = on })

-- what `otel_init` and `otel_shutdown` leave
abbrev pub fresh_switches : Switches
fresh_switches = record {
  initialized = true;
  transport_present = false;
  sink_present = false;
  runtime_on = true;
  enabled = false;
}

abbrev pub stopped : Switches → Switches
stopped t = record t { initialized = false; enabled = false }

-- `otel_init`, as far as the switches go
unfoldable pub init : Switches → Switches
init t = if t.initialized then t else fresh_switches

-- `otel_shutdown`, as far as the switches go
unfoldable pub shutdown : Switches → Switches
shutdown t = if t.initialized then stopped t else t

-- a call that changes the switches
pub data Call : Type 0 where
  start_up : Call
  shut_down : Call
  transport : Bool → Call
  sink : Bool → Call
  enable : Bool → Call

abbrev pub call : Switches → Call → Switches
call t start_up = init t
call t shut_down = shutdown t
call t (transport given) = set_transport t given
call t (sink given) = set_span_sink t given
call t (enable on) = set_enabled t on

abbrev pub calls : Switches → List Call → Switches
calls t [] = t
calls t (c ∷ cs) = calls (call t c) cs

-- `enabled` is what the other switches say.
pub record IsLive (t : Switches) : Type 0 where
  pub live : t.enabled ≡ (t.initialized && (t.transport_present || t.sink_present) && t.runtime_on)

call-IsLive : (t : Switches) (c : Call) → IsLive t → IsLive (call t c)
unfolding recompute_enabled set_transport set_span_sink set_enabled init shutdown
call-IsLive t start_up v = elim (Bool-cases t.initialized) [
  | inl on ↦ subst IsLive (ap (λ b. if b then t else fresh_switches) (sym on)) v
  | inr off ↦
      subst IsLive (ap (λ b. if b then t else fresh_switches) (sym off)) (record { live = refl })
]
call-IsLive t shut_down v = elim (Bool-cases t.initialized) [
  | inl on ↦ subst IsLive (ap (λ b. if b then stopped t else t) (sym on)) (record { live = refl })
  | inr off ↦ subst IsLive (ap (λ b. if b then stopped t else t) (sym off)) v
]
call-IsLive t (transport given) v = record { live = refl }
call-IsLive t (sink given) v = record { live = refl }
call-IsLive t (enable on) v = record { live = refl }

-- From switches where tracing is enabled exactly when the tracer is initialized, a transport or a
-- sink is present and it is switched on, any sequence of init, shutdown, set_transport,
-- set_span_sink and set_enabled leads to switches of which the same is true.
pub calls-IsLive : (t : Switches) (cs : List Call) → IsLive t → IsLive (calls t cs)
calls-IsLive t [] v = v
calls-IsLive t (c ∷ cs) v = calls-IsLive (call t c) cs (call-IsLive t c v)

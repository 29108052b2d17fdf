-- ===== src/Tracer/Init.antt =====
-- `otel_init` of oteltracing.c: the names, the clock anchor, the resource and the buffer.
pub mod Failure
use oteltracing_c.Base.{
  ℕ, ◌+◌, ◌*◌, ◌-◌, ◌%◌, ◌^◌, Bool, true, false, Option, none, some, List, [], ◌∷◌,
}
use oteltracing_c.Base.Tests.{if◌then◌else◌}
use oteltracing_c.Base.Lists.{take, c_string}
use oteltracing_c.Base.Text.{codes}
use oteltracing_c.Otlp.{KeyValueMsg, string_msg, batch_spans}
use oteltracing_c.Tracer.{Switches, fresh_switches}

-- What the machine gives: the 128 bytes that `gethostname` writes, or that it fails; the time; and
-- whether `malloc` of a size succeeds.
pub record Machine : Type 0 where
  pub hostname : Option (List ℕ)
  pub tv_sec : ℕ
  pub tv_nsec : ℕ
  pub has_memory : ℕ → Bool

-- `OT.clock`: `otel_default_clock`, or a function that the program gave
pub data Clock : Type 0 where
  default_clock : Clock
  given_clock : Clock

-- The part of `OT` that `otel_init` sets. `resource` and the scope are what the pointers of
-- `OT.otlp` to the names read; `buf` has the size of the buffer, or is NULL.
pub record Setup : Type 0 where
  pub switches : Switches
  pub service : List ℕ
  pub hostname : List ℕ
  pub wall_base_ns : ℕ
  pub clock : Clock
  pub sample_always : Bool
  pub sample_threshold : ℕ
  pub resource : List KeyValueMsg
  pub scope_name : List ℕ
  pub scope_version : List ℕ
  pub buf : Option ℕ

-- OTEL_SPAN_SERIALIZATION, and `sizeof(struct grpc_hdr)`
abbrev pub span_serialization : ℕ
span_serialization = 8192

abbrev pub grpc_hdr : ℕ
grpc_hdr = 5

abbrev pub buf_size : ℕ
buf_size = grpc_hdr + batch_spans * span_serialization

-- `snprintf(name, 128, "%s", ...)`
unfoldable pub service_text : Option (List ℕ) → List ℕ
service_text none = codes "unknown"
service_text (some bs) = take 127 (c_string bs)

-- The name that `otel_hostname` left, with its last byte set to 0.
unfoldable pub hostname_text : Option (List ℕ) → List ℕ
hostname_text none = codes "unknown"
hostname_text (some raw) = c_string (take 127 raw)

abbrev pub string_attr : List ℕ → List ℕ → KeyValueMsg
string_attr key value = record { key = key; value = string_msg value }

abbrev pub started : Machine → Option (List ℕ) → Setup
started m service =
    let name = service_text service in
    let host = hostname_text m.hostname in
    record {
      switches = fresh_switches;
      service = name;
      hostname = host;
      wall_base_ns = (m.tv_sec * 1000000000 + m.tv_nsec) % 2 ^ 64;
      clock = default_clock;
      sample_always = true;
      sample_threshold = 2 ^ 64 - 1;
      resource =
          string_attr (codes "service.name") name ∷ string_attr (codes "host.name") host ∷ [];
      scope_name = name;
      scope_version = codes "0.1.0";
      buf = if m.has_memory buf_size then some buf_size else none;
    }

-- `otel_init`, and whether it returns 0 and not -1
unfoldable pub init : Machine → Setup → Option (List ℕ) → Setup × Bool
init m t service =
    if t.switches.initialized then (t, true) else (started m service, m.has_memory buf_size)

-- `otel_set_clock`: whether the argument is not NULL
unfoldable pub set_clock : Setup → Bool → Setup
set_clock t given = record t { clock = if given then given_clock else default_clock }

-- The time that a span gets; `elapsed` is what the stopwatch says, `own` what the function returns.
unfoldable pub clock_time : Clock → (wall_base_ns elapsed own : ℕ) → ℕ
clock_time default_clock wall_base_ns elapsed own = (wall_base_ns + elapsed) % 2 ^ 64
clock_time given_clock wall_base_ns elapsed own = own

-- `otel_service_name`
unfoldable pub service_name : Setup → List ℕ
service_name t = t.service

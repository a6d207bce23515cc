-- ===== src/Analytics/Memory.antt =====
-- pkg/domain/analytics/memory.go. The counters are int64 and wrap; the atomic additions are steps.
pub mod Counting
use sentinel_flow_event_driv.Base.{
  ℕ, ◌+◌, String, Bool, Option, none, some, List, [], ◌∷◌, str_eq, ◌==◌, if◌then◌else◌,
}
use sentinel_flow_event_driv.Base.Word.{add64, Time, elapsed}
use sentinel_flow_event_driv.Analytics.Models.{SystemMetrics, Ratio}

pub record MemoryTelemetryTracker : Type 0 where
  pub start_time : Time
  pub total_received : ℕ
  pub legitimate : ℕ
  pub fraudulent : ℕ
  pub crm_attempts : ℕ
  pub crm_successes : ℕ
  pub crm_failures : ℕ

unfoldable pub new_memory_telemetry_tracker : Time → MemoryTelemetryTracker
new_memory_telemetry_tracker now = record {
  start_time = now;
  total_received = 0;
  legitimate = 0;
  fraudulent = 0;
  crm_attempts = 0;
  crm_successes = 0;
  crm_failures = 0;
}

-- The cases of the `switch`, which a name outside them leaves without effect.
pub data Counter : Type 0 where
  total_received legitimate fraudulent crm_attempts crm_successes crm_failures : Counter

unfoldable pub counter_of : String → Option Counter
counter_of name =
    if str_eq name "total_received"
    then some Counter.total_received
    else if str_eq name "legitimate"
    then some Counter.legitimate
    else if str_eq name "fraudulent"
    then some Counter.fraudulent
    else if str_eq name "crm_attempts"
    then some Counter.crm_attempts
    else if str_eq name "crm_successes"
    then some Counter.crm_successes
    else if str_eq name "crm_failures"
    then some Counter.crm_failures
    else none

unfoldable pub add_to : Option Counter → ℕ → MemoryTelemetryTracker → MemoryTelemetryTracker
add_to none delta m = m
add_to (some Counter.total_received) delta m = record m {
  total_received = add64 m.total_received delta;
}
add_to (some Counter.legitimate) delta m = record m { legitimate = add64 m.legitimate delta }
add_to (some Counter.fraudulent) delta m = record m { fraudulent = add64 m.fraudulent delta }
add_to (some Counter.crm_attempts) delta m = record m { crm_attempts = add64 m.crm_attempts delta }
add_to (some Counter.crm_successes) delta m = record m {
  crm_successes = add64 m.crm_successes delta;
}
add_to (some Counter.crm_failures) delta m = record m { crm_failures = add64 m.crm_failures delta }

unfoldable pub increment_metric : String → ℕ → MemoryTelemetryTracker → MemoryTelemetryTracker
unfolding counter_of add_to
increment_metric name delta m = add_to (counter_of name) delta m

-- `GetMetrics`. The quotient of two float64 is kept as the ratio of the two numbers; the elapsed time
-- is in nanoseconds, and one second where none has elapsed.
unfoldable pub get_metrics : Time → MemoryTelemetryTracker → SystemMetrics
get_metrics now m = record {
  total_events_received = m.total_received;
  legitimate_events = m.legitimate;
  fraudulent_events = m.fraudulent;
  crm_attempts = m.crm_attempts;
  crm_successes = m.crm_successes;
  crm_failures = m.crm_failures;
  events_per_second = record {
    numerator = m.total_received;
    denominator = let e = elapsed now m.start_time in if e == 0 then 1_000_000_000 else e;
  };
}

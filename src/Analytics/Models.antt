-- ===== src/Analytics/Models.antt =====
-- pkg/domain/analytics/models.go. A float64 that the code gets by a division is kept as the ratio
-- that is divided.
use sentinel_flow_event_driv.Base.{ℕ}

pub record Ratio : Type 0 where
  pub numerator : ℕ
  pub denominator : ℕ

-- The counters are int64. The events per second are the numerator by the denominator in nanoseconds.
pub record SystemMetrics : Type 0 where
  pub total_events_received : ℕ
  pub legitimate_events : ℕ
  pub fraudulent_events : ℕ
  pub crm_attempts : ℕ
  pub crm_successes : ℕ
  pub crm_failures : ℕ
  pub events_per_second : Ratio

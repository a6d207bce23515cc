-- ===== src/Analytics/Postgres.antt =====
-- pkg/domain/analytics/postgres.go, over a database. The errors that are only logged leave no trace.
pub mod Server
pub mod Names
pub mod Walk
pub mod Counting
use sentinel_flow_event_driv.Base.{
  ℕ, String, Option, none, some, List, [], ◌∷◌, ◌==◌, if◌then◌else◌,
}
use sentinel_flow_event_driv.Base.Word.{Time, elapsed}
use sentinel_flow_event_driv.Ports.{Fallible, ok, err}
use sentinel_flow_event_driv.Database.{SqlValue, SqlRow, Rows, Database}
use sentinel_flow_event_driv.Analytics.Models.{SystemMetrics}
use sentinel_flow_event_driv.Analytics.Memory.{Counter, counter_of}

abbrev pub insert_metric : String
insert_metric =
    "\n\tINSERT INTO metrics_counters (metric_name, counter_value)\n\tVALUES ($1, $2)\n\tON CONFLICT (metric_name) DO UPDATE SET\n\t\tcounter_value = metrics_counters.counter_value + EXCLUDED.counter_value;\n\t"

abbrev pub select_metrics : String
select_metrics = "SELECT metric_name, counter_value FROM metrics_counters"

-- `&SystemMetrics{}`
abbrev pub zero_metrics : SystemMetrics
zero_metrics = record {
  total_events_received = 0;
  legitimate_events = 0;
  fraudulent_events = 0;
  crm_attempts = 0;
  crm_successes = 0;
  crm_failures = 0;
  events_per_second = record { numerator = 0; denominator = 1 };
}

-- `rows.Scan(&name, &val)`
abbrev pub scan_metric : SqlRow → Option (String × ℕ)
scan_metric (SqlValue.text name ∷ SqlValue.number val ∷ []) = some (name, val)
scan_metric _ = none

-- The `switch name`, whose cases are those of the tracker in memory.
unfoldable pub set_metric : Option Counter → ℕ → SystemMetrics → SystemMetrics
set_metric none val metrics = metrics
set_metric (some Counter.total_received) val metrics = record metrics {
  total_events_received = val;
}
set_metric (some Counter.legitimate) val metrics = record metrics { legitimate_events = val }
set_metric (some Counter.fraudulent) val metrics = record metrics { fraudulent_events = val }
set_metric (some Counter.crm_attempts) val metrics = record metrics { crm_attempts = val }
set_metric (some Counter.crm_successes) val metrics = record metrics { crm_successes = val }
set_metric (some Counter.crm_failures) val metrics = record metrics { crm_failures = val }

-- A round of the loop, where a row that cannot be scanned is passed over.
abbrev pub take_row : Option (String × ℕ) → SystemMetrics → SystemMetrics
take_row none metrics = metrics
take_row (some (name, val)) metrics = set_metric (counter_of name) val metrics

unfoldable pub collect : List SqlRow → SystemMetrics → SystemMetrics
unfolding set_metric
collect [] metrics = metrics
collect (row ∷ rows) metrics = collect rows (take_row (scan_metric row) metrics)

-- The counters as they are read, also where `rows.Err()` would tell of an error.
unfoldable pub metrics_of : Time → Time → Fallible Rows → SystemMetrics
unfolding collect
metrics_of start_time now (err e) = zero_metrics
metrics_of start_time now (ok rows) =
    let metrics = collect rows.all zero_metrics in
    record metrics {
      events_per_second = record {
        numerator = metrics.total_events_received;
        denominator = let e = elapsed now start_time in if e == 0 then 1_000_000_000 else e;
      };
    }

module _ {W : Type 0} (db : Database W) where
  unfoldable pub increment_metric : String → ℕ → W → W
  increment_metric name delta w =
      (db.exec insert_metric (SqlValue.text name ∷ SqlValue.number delta ∷ []) w).1

  unfoldable pub get_metrics : Time → Time → W → SystemMetrics
  unfolding metrics_of
  get_metrics start_time now w = metrics_of start_time now (db.query select_metrics [] w)

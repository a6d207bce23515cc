-- ===== src/Analytics/Dashboard.antt =====
-- pkg/domain/analytics/service.go. A page of the dashboard is the numbers that it shows; `none` is the
-- percentage 0 of an empty total.
use sentinel_flow_event_driv.Base.{ℕ, String, Option, none, some, str_eq, if◌then◌else◌}
use sentinel_flow_event_driv.Base.Word.{add64, ltb_signed}
use sentinel_flow_event_driv.Http.{Reply, json_reply}
use sentinel_flow_event_driv.Analytics.Models.{SystemMetrics, Ratio}

pub record Page : Type 0 where
  pub metrics : SystemMetrics
  pub fraud_pct : Option Ratio
  pub crm_success_rate : Option Ratio

pub data AnalyticsBody : Type 0 where
  message : String → AnalyticsBody
  metrics_json : SystemMetrics → AnalyticsBody
  dashboard : Page → AnalyticsBody

abbrev pub method_not_allowed : Reply AnalyticsBody
method_not_allowed = record {
  status_code = 405;
  content_type = "text/plain; charset=utf-8";
  body = message "Method not allowed\n";
}

unfoldable pub handle_metrics : String → SystemMetrics → Reply AnalyticsBody
handle_metrics method metrics =
    if str_eq method "GET" then json_reply 200 (metrics_json metrics) else method_not_allowed

-- The percentage of a part in a total, where `total > 0`.
unfoldable pub percentage : ℕ → ℕ → Option Ratio
percentage part total =
    if ltb_signed 0 total then some (record { numerator = part; denominator = total }) else none

unfoldable pub page_of : SystemMetrics → Page
unfolding percentage
page_of metrics = record {
  metrics = metrics;
  fraud_pct =
      percentage metrics.fraudulent_events
        (add64 metrics.legitimate_events metrics.fraudulent_events);
  crm_success_rate = percentage metrics.crm_successes metrics.crm_attempts;
}

unfoldable pub handle_dashboard : String → SystemMetrics → Reply AnalyticsBody
unfolding page_of
handle_dashboard method metrics =
    if str_eq method "GET"
    then record {
      status_code = 200;
      content_type = "text/plain; charset=utf-8";
      body = dashboard (page_of metrics);
    }
    else method_not_allowed

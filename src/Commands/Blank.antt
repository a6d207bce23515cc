-- ===== src/Commands/Blank.antt =====
-- The dashboard of cmd/analytics.
use sentinel_flow_event_driv.Base.{◌≡◌, refl, none}
use sentinel_flow_event_driv.Base.Word.{Time}
use sentinel_flow_event_driv.Analytics.Memory.{new_memory_telemetry_tracker, get_metrics}
use sentinel_flow_event_driv.Analytics.Dashboard.{page_of, percentage}
use sentinel_flow_event_driv.Commands.{analytics_main}

-- Whenever it is asked, the dashboard of the analytics command shows no event and no rate.
pub dashboard_is_blank :
    (start now : Time)
    → let page = page_of (get_metrics now (analytics_main start)) in
      (page.metrics.total_events_received ≡ 0)
      × (page.fraud_pct ≡ none)
      × (page.crm_success_rate ≡ none)
unfolding page_of percentage get_metrics analytics_main new_memory_telemetry_tracker
dashboard_is_blank start now = (refl, refl, refl)

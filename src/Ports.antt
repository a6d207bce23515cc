-- ===== src/Ports.antt =====
-- The interfaces through which the components reach one another, as records of operations on the
-- state `W` of all that stands behind them: `TelemetryTracker` (declared in each of
-- pkg/domain/ingest/handler.go, fraud/service.go, marketing/service.go and analytics/tracker.go),
-- `Broker` (pkg/broker/broker.go) as far as it publishes, `FraudRepository`
-- (fraud/repository.go), `MarketingRepository` (marketing/repository.go), `FraudEventService`
-- (marketing/service.go) and `CRMAdapter` (marketing/adapter.go).
use sentinel_flow_event_driv.Base.{ℕ, ◌≡◌, refl, ◌⊎◌, inl, inr, String, Option, List}
use sentinel_flow_event_driv.Base.Word.{Time}
use sentinel_flow_event_driv.Events.{TrackingEvent, ScreenedEvent}
use sentinel_flow_event_driv.Broker.{BrokerError}
use sentinel_flow_event_driv.Broker.Subscription.{Context}

-- `(value, nil)` or `(_, err)`.
pub data Fallible (A : Type 0) : Type 0 where
  ok : A → Fallible A
  err : String → Fallible A

pub Fallible-cases :
    {A : Type 0} (r : Fallible A) → ((a : A) × (r ≡ ok a)) ⊎ ((e : String) × (r ≡ err e))
Fallible-cases (ok a) = inl (a, refl)
Fallible-cases (err e) = inr (e, refl)

pub ok-injective : {A : Type 0} {a b : A} → ok a ≡ ok b → a ≡ b
ok-injective e = cc

-- pkg/domain/marketing/models.go
pub record CrmContact : Type 0 where
  pub user_id : String
  pub email : String
  pub workflow_triggered : String
  pub sync_status : String
  pub synced_at : Time
  pub retry_count : ℕ

pub record PrivacyLog : Type 0 where
  pub log_id : String
  pub user_id : String
  pub action : String
  pub timestamp : Time

pub record TelemetryTracker (W : Type 0) : Type 0 where
  pub increment_metric : String → ℕ → W → W

pub record Publisher (W : Type 0) : Type 0 where
  pub publish_raw : Context → TrackingEvent → W → Option BrokerError × W
  pub publish_screened : Context → ScreenedEvent → W → Option BrokerError × W

pub record FraudRepository (W : Type 0) : Type 0 where
  pub save_event : ScreenedEvent → W → Fallible Unit × W
  pub get_events_by_user_id : String → W → Fallible (List ScreenedEvent)
  pub delete_user_events : String → W → Fallible ℕ × W

pub record MarketingRepository (W : Type 0) : Type 0 where
  pub save_crm_contact : CrmContact → W → Fallible Unit × W
  pub get_crm_contact : String → W → Fallible CrmContact
  pub delete_crm_contact : String → W → Fallible Unit × W
  pub save_privacy_log : PrivacyLog → W → Fallible Unit × W
  pub get_privacy_logs_by_user_id : String → W → Fallible (List PrivacyLog)

pub record FraudEventService (W : Type 0) : Type 0 where
  pub events_by_user_id : String → W → Fallible (List ScreenedEvent)
  pub delete_events : String → W → Fallible ℕ × W

pub record CrmAdapter (W : Type 0) : Type 0 where
  pub sync_contact : CrmContact → W → Fallible Unit × W

-- ===== src/Cluster.antt =====
-- cmd/monolith/main.go: the modules wired together over the in-memory broker and repositories (no
-- database is configured), and the two workers, `FraudService.Start` (pkg/domain/fraud/service.go)
-- and `MarketingService.StartConsumer` (pkg/domain/marketing/service.go). What stands behind the CRM
-- adapter is a state `C` with `crm`, its `SyncContact`. A step is one request, or one turn of a
-- worker's loop, with all the calls that the handler or the turn makes; the steps of a run come in any
-- order. In Go another goroutine can run between two of those calls. Cluster.Syncing takes the turn of
-- the marketing worker apart where it calls the CRM; elsewhere such a moment is not a state of the model.
pub mod Private
pub mod Privacy
pub mod Erasure
pub mod Syncing
pub mod Accounting
pub mod Audit
pub mod Wired
pub mod Journey
pub mod Export
pub mod Routes
use sentinel_flow_event_driv.Base.{
  ℕ, String, Bool, true, false, Option, none, some, List, [], ◌∷◌, if◌then◌else◌,
}
use sentinel_flow_event_driv.Base.Lists.{length}
use sentinel_flow_event_driv.Base.Word.{Time}
use sentinel_flow_event_driv.Events.{TrackingEvent, ScreenedEvent}
use sentinel_flow_event_driv.Broker.{
  BrokerError, InMemoryBroker, new_in_memory_broker, publish_raw, publish_screened, subscribe_raw,
  subscribe_screened, close, receive_raw, receive_screened,
}
use sentinel_flow_event_driv.Broker.Subscription.{Context, Received, item, ended, blocks}
use sentinel_flow_event_driv.Ports.{
  Fallible, ok, err, CrmContact, TelemetryTracker, Publisher, FraudRepository, MarketingRepository,
  CrmAdapter,
}
use sentinel_flow_event_driv.Http.{Reply}
use sentinel_flow_event_driv.Fraud.Rules.{RuleState, new_rule_state, FraudRule}
use sentinel_flow_event_driv.Fraud.Service.{standard_rules, screen_event, event_service}
use sentinel_flow_event_driv.Fraud.Memory as Fraud
use sentinel_flow_event_driv.Fraud.Memory.{MemoryFraudRepository, new_memory_fraud_repository}
use sentinel_flow_event_driv.Ingest.Handler.{handle_ingest}
use sentinel_flow_event_driv.Analytics.Memory.{
  MemoryTelemetryTracker, new_memory_telemetry_tracker, increment_metric,
}
use sentinel_flow_event_driv.Marketing.Memory as Marketing
use sentinel_flow_event_driv.Marketing.Memory.{
  MemoryMarketingRepository, new_memory_marketing_repository,
}
use sentinel_flow_event_driv.Marketing.Service.{consume}
use sentinel_flow_event_driv.Marketing.Handlers.{ExportBody, handle_gdpr_delete, handle_ccpa_export}

-- A worker before its start, in its loop on the subscription at a place, and after its return.
pub data Worker : Type 0 where
  idle : Worker
  listening : ℕ → Worker
  returned : Worker

pub record Cluster (C : Type 0) : Type 0 where
  pub broker : InMemoryBroker
  pub rule_state : RuleState
  pub fraud_repo : MemoryFraudRepository
  pub marketing_repo : MemoryMarketingRepository
  pub tracker : MemoryTelemetryTracker
  pub crm_state : C
  pub fraud_worker : Worker
  pub marketing_worker : Worker

unfoldable pub new_cluster : {C : Type 0} → ℕ → Time → C → Cluster C
new_cluster buffer_size now c = record {
  broker = new_in_memory_broker buffer_size;
  rule_state = new_rule_state;
  fraud_repo = new_memory_fraud_repository;
  marketing_repo = new_memory_marketing_repository;
  tracker = new_memory_telemetry_tracker now;
  crm_state = c;
  fraud_worker = Worker.idle;
  marketing_worker = Worker.idle;
}

-- The start of a worker: an error of the subscription is returned.
abbrev pub started : Option BrokerError → ℕ → Worker
started (some _) place = Worker.returned
started none place = Worker.listening place

module _ {C : Type 0} where
  abbrev pub tracker_port : TelemetryTracker (Cluster C)
  tracker_port = record {
    increment_metric = λ name delta w. record w { tracker = increment_metric name delta w.tracker };
  }

  abbrev pub broker_port : Publisher (Cluster C)
  broker_port = record {
    publish_raw =
        λ ctx event w. let (e, b) = publish_raw ctx event w.broker in (e, record w { broker = b });
    publish_screened = λ ctx event w.
        let (e, b) = publish_screened ctx event w.broker in (e, record w { broker = b });
  }

  -- The repository's `crmDeleter` deletes the contact.
  abbrev pub fraud_port : FraudRepository (Cluster C)
  fraud_port = record {
    save_event = λ event w. (ok tt, record w { fraud_repo = Fraud.save_event event w.fraud_repo });
    get_events_by_user_id = λ user_id w. ok (Fraud.get_events_by_user_id user_id w.fraud_repo);
    delete_user_events = λ user_id w.
        let (n, m, x) =
          Fraud.delete_user_events (some Marketing.delete_crm_contact) user_id
            (w.fraud_repo, w.marketing_repo) in
        (ok n, record w { fraud_repo = m; marketing_repo = x });
  }

  abbrev pub marketing_port : MarketingRepository (Cluster C)
  marketing_port = record {
    save_crm_contact = λ contact w.
        (ok tt, record w { marketing_repo = Marketing.save_crm_contact contact w.marketing_repo });
    get_crm_contact = λ user_id w. Marketing.get_crm_contact user_id w.marketing_repo;
    delete_crm_contact = λ user_id w. (
      ok tt,
      record w { marketing_repo = Marketing.delete_crm_contact user_id w.marketing_repo },
    );
    save_privacy_log = λ log w.
        (ok tt, record w { marketing_repo = Marketing.save_privacy_log log w.marketing_repo });
    get_privacy_logs_by_user_id =
        λ user_id w. ok (Marketing.get_privacy_logs_by_user_id user_id w.marketing_repo);
  }

  abbrev pub crm_port : (CrmContact → C → Fallible Unit × C) → CrmAdapter (Cluster C)
  crm_port crm = record {
    sync_contact =
        λ contact w. let (e, c) = crm contact w.crm_state in (e, record w { crm_state = c });
  }

  -- `ScreenEvent` on the service's own rule state.
  unfoldable pub screen :
      List FraudRule → Context → (ℕ → Time) → TrackingEvent → Cluster C → Cluster C
  unfolding screen_event
  screen rules ctx clock event w =
      let (state, w') =
        screen_event fraud_port tracker_port broker_port rules ctx clock event (w.rule_state, w) in
      record w' { rule_state = state }

  unfoldable pub start_fraud : Cluster C → Cluster C
  start_fraud w =
      let (e, b) = subscribe_raw w.broker in
      record w { broker = b; fraud_worker = started e (length w.broker.raw_subs) }

  unfoldable pub start_marketing : Cluster C → Cluster C
  start_marketing w =
      let (e, b) = subscribe_screened w.broker in
      record w { broker = b; marketing_worker = started e (length w.broker.screened_subs) }

  -- A turn of the loop, by what the channel gives; where it gives nothing the worker waits.
  unfoldable pub fraud_case :
      List FraudRule
      → Context
      → (ℕ → Time)
      → Option (Received TrackingEvent)
      → Cluster C
      → Cluster C
  unfolding screen
  fraud_case rules ctx clock none w = w
  fraud_case rules ctx clock (some blocks) w = w
  fraud_case rules ctx clock (some ended) w = record w { fraud_worker = Worker.returned }
  fraud_case rules ctx clock (some (item event)) w = screen rules ctx clock event w

  unfoldable pub fraud_turn : List FraudRule → Context → (ℕ → Time) → Worker → Cluster C → Cluster C
  unfolding fraud_case
  fraud_turn rules ctx clock (Worker.listening place) w =
      let (r, b) = receive_raw place w.broker in
      fraud_case rules ctx clock r (record w { broker = b })
  fraud_turn rules ctx clock _ w = w

  unfoldable pub marketing_case :
      (CrmContact → C → Fallible Unit × C)
      → Time
      → Option (Received ScreenedEvent)
      → Cluster C
      → Cluster C
  unfolding consume
  marketing_case crm now none w = w
  marketing_case crm now (some blocks) w = w
  marketing_case crm now (some ended) w = record w { marketing_worker = Worker.returned }
  marketing_case crm now (some (item event)) w =
      consume marketing_port tracker_port (crm_port crm) now event w

  unfoldable pub marketing_turn :
      (CrmContact → C → Fallible Unit × C) → Time → Worker → Cluster C → Cluster C
  unfolding marketing_case
  marketing_turn crm now (Worker.listening place) w =
      let (r, b) = receive_screened place w.broker in
      marketing_case crm now r (record w { broker = b })
  marketing_turn crm now _ w = w

  unfoldable pub purge :
      (String → String)
      → Time
      → Time
      → String
      → Option String
      → Cluster C
      → Reply String × Cluster C
  purge sha256_hex now later method decoded w =
      handle_gdpr_delete (event_service fraud_port) marketing_port sha256_hex now later method
        decoded w

  unfoldable pub export_data : Time → String → String → Cluster C → Reply ExportBody
  export_data now method user_id w =
      handle_ccpa_export (event_service fraud_port) marketing_port now method user_id w

-- The steps of a run: a request, the start of a worker, a turn of its loop, its return on
-- `ctx.Done()`, and the broker's `Close`.
pub data Step : Type 0 where
  ingests : Context → Time → String → Option TrackingEvent → Step
  purges : Time → Time → String → Option String → Step
  starts_fraud starts_marketing stops_fraud stops_marketing closes : Step
  turns_fraud : Context → (ℕ → Time) → Step
  turns_marketing : Time → Step

module _ {C : Type 0} (crm : CrmContact → C → Fallible Unit × C) (table : ℕ → ℕ)
    (sha256_hex : String → String) where
  unfoldable pub step : Step → Cluster C → Cluster C
  step (ingests ctx now method decoded) w =
      (handle_ingest broker_port tracker_port ctx now method decoded w).1
  step (purges now later method decoded) w = (purge sha256_hex now later method decoded w).1
  step starts_fraud w = start_fraud w
  step starts_marketing w = start_marketing w
  step stops_fraud w = record w { fraud_worker = Worker.returned }
  step stops_marketing w = record w { marketing_worker = Worker.returned }
  step closes w = record w { broker = close w.broker }
  step (turns_fraud ctx clock) w = fraud_turn (standard_rules table) ctx clock w.fraud_worker w
  step (turns_marketing now) w = marketing_turn crm now w.marketing_worker w

  unfoldable pub run : List Step → Cluster C → Cluster C
  run [] w = w
  run (s ∷ steps) w = run steps (step s w)

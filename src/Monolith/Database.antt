-- ===== src/Monolith/Database.antt =====
-- cmd/monolith/main.go where a database is configured: the repositories and the tracker over one
-- database, and the two privacy endpoints of pkg/domain/marketing/handlers.go on them.
pub mod Server
pub mod Cleared
pub mod Erasure
use sentinel_flow_event_driv.Base.{String, Option}
use sentinel_flow_event_driv.Base.Word.{Time}
use sentinel_flow_event_driv.Ports.{FraudRepository, MarketingRepository, TelemetryTracker}
use sentinel_flow_event_driv.Database.{Database}
use sentinel_flow_event_driv.Http.{Reply}
use sentinel_flow_event_driv.Fraud.Service.{event_service}
use sentinel_flow_event_driv.Fraud.Postgres as Fraud
use sentinel_flow_event_driv.Fraud.Postgres.{Codec}
use sentinel_flow_event_driv.Marketing.Postgres as Marketing
use sentinel_flow_event_driv.Marketing.Handlers.{ExportBody, handle_gdpr_delete, handle_ccpa_export}
use sentinel_flow_event_driv.Analytics.Postgres as Analytics

module _ {W : Type 0} (db : Database W) where
  abbrev pub fraud_db_port : Codec → FraudRepository W
  fraud_db_port codec = record {
    save_event = Fraud.save_event db codec;
    get_events_by_user_id = Fraud.get_events_by_user_id db codec;
    delete_user_events = Fraud.delete_user_events db;
  }

  abbrev pub marketing_db_port : MarketingRepository W
  marketing_db_port = record {
    save_crm_contact = Marketing.save_crm_contact db;
    get_crm_contact = Marketing.get_crm_contact db;
    delete_crm_contact = Marketing.delete_crm_contact db;
    save_privacy_log = Marketing.save_privacy_log db;
    get_privacy_logs_by_user_id = Marketing.get_privacy_logs_by_user_id db;
  }

  abbrev pub tracker_db_port : TelemetryTracker W
  tracker_db_port = record { increment_metric = Analytics.increment_metric db }

  unfoldable pub purge_db :
      Codec → (String → String) → Time → Time → String → Option String → W → Reply String × W
  purge_db codec sha256_hex now later method decoded w =
      handle_gdpr_delete (event_service (fraud_db_port codec)) marketing_db_port sha256_hex now
        later method decoded w

  unfoldable pub export_db : Codec → Time → String → String → W → Reply ExportBody
  export_db codec now method user_id w =
      handle_ccpa_export (event_service (fraud_db_port codec)) marketing_db_port now method user_id
        w

-- ===== src/Simulator/Compliance.antt =====
-- `runGDPRAndCCPAFlows` of scripts/simulator/traffic.go against the modules in memory: a signup, an
-- export, a purge and an export again. What the workers do while the simulator sleeps is a parameter.
pub mod Forgotten
use sentinel_flow_event_driv.Base.{String, Option, some}
use sentinel_flow_event_driv.Base.Word.{Time}
use sentinel_flow_event_driv.Events.{TrackingEvent}
use sentinel_flow_event_driv.Broker.Subscription.{Context}
use sentinel_flow_event_driv.Http.{Reply}
use sentinel_flow_event_driv.Ingest.Handler.{handle_ingest}
use sentinel_flow_event_driv.Marketing.Handlers.{ExportBody}
use sentinel_flow_event_driv.Simulator.Attacks.{compliance_event}
use sentinel_flow_event_driv.Cluster.{Cluster, broker_port, tracker_port, purge, export_data}

-- The answers to the four requests.
pub record Answers : Type 0 where
  pub posted : Reply String
  pub exported_first : Reply ExportBody
  pub purged : Reply String
  pub exported_last : Reply ExportBody

abbrev pub advocate : String
advocate = "usr_privacy_advocate"

module _ {C : Type 0} (wire : TrackingEvent → Option TrackingEvent) (ctx : Context)
    (sha256_hex : String → String) (asleep : Cluster C → Cluster C) where
  -- `sent` is the time of the event; the modules read their clock at each request, and twice in the
  -- purge.
  unfoldable pub compliance_flow : Time → (Time × Time × Time × Time × Time) → Cluster C → Answers
  compliance_flow sent (at_post, at_export, at_purge, at_log, at_last) w =
      let (posted, w1) =
        handle_ingest broker_port tracker_port ctx at_post "POST" (wire (compliance_event sent))
          w in
      let w2 = asleep w1 in
      let (purged, w3) = purge sha256_hex at_purge at_log "POST" (some advocate) w2 in
      record {
        posted = posted;
        exported_first = export_data at_export "GET" advocate w2;
        purged = purged;
        exported_last = export_data at_last "GET" advocate w3;
      }

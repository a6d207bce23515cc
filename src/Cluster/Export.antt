-- ===== src/Cluster/Export.antt =====
-- An export of a user whom the repositories know, and what the marketing worker leaves alone.
use sentinel_flow_event_driv.Base.{
  ℕ, ◌≡◌, ◌≢◌, refl, String, Option, none, some, List, str_eq-ne, Holds-if,
}
use sentinel_flow_event_driv.Base.Word.{Time}
use sentinel_flow_event_driv.Events.{ScreenedEvent}
use sentinel_flow_event_driv.Broker.Subscription.{Received}
use sentinel_flow_event_driv.Broker.{receive_screened}
use sentinel_flow_event_driv.Ports.{Fallible, ok, err, CrmContact}
use sentinel_flow_event_driv.Http.{json_reply}
use sentinel_flow_event_driv.Fraud.Service.{event_service}
use sentinel_flow_event_driv.Fraud.Memory as Fraud
use sentinel_flow_event_driv.Marketing.Memory as Marketing
use sentinel_flow_event_driv.Marketing.Service.{
  workflow_for, contact_for, record_sync, run_workflow, process_marketing_workflow, consume,
}
use sentinel_flow_event_driv.Marketing.Handlers.{exported, handle_ccpa_export, finish_export}
use sentinel_flow_event_driv.Cluster.{
  Cluster, Worker, tracker_port, marketing_port, crm_port, marketing_turn, marketing_case,
  export_data,
}

-- The marketing worker leaves the events alone.
module _ {C : Type 0} (crm : CrmContact → C → Fallible Unit × C) where
  record_sync-events :
      (contact : CrmContact) (r : Fallible Unit × Cluster C)
      → (record_sync marketing_port tracker_port (crm_port crm) contact r).fraud_repo
        ≡ r.1.fraud_repo
  unfolding record_sync
  record_sync-events contact (ok _, w) = refl
  record_sync-events contact (err _, w) = refl

  run_workflow-events :
      (chosen : Option String) (now : Time) (event : ScreenedEvent) (w : Cluster C)
      → (run_workflow marketing_port tracker_port (crm_port crm) chosen now event w).fraud_repo
        ≡ w.fraud_repo
  unfolding run_workflow
  run_workflow-events none now event w = refl
  run_workflow-events (some workflow) now event w =
      record_sync-events (contact_for workflow now event) _

  marketing_case-events :
      (now : Time) (r : Option (Received ScreenedEvent)) (w : Cluster C)
      → (marketing_case crm now r w).fraud_repo ≡ w.fraud_repo
  unfolding marketing_case consume process_marketing_workflow
  marketing_case-events now none w = refl
  marketing_case-events now (some Received.blocks) w = refl
  marketing_case-events now (some Received.ended) w = refl
  marketing_case-events now (some (Received.item event)) w =
      Holds-if (λ (v : Cluster C). v.fraud_repo ≡ w.fraud_repo) event.is_fraudulent refl
        (run_workflow-events (workflow_for event.event_type) now event w)

  pub marketing_turn-events :
      (now : Time) (place : ℕ) (w : Cluster C)
      → (marketing_turn crm now (Worker.listening place) w).fraud_repo ≡ w.fraud_repo
  unfolding marketing_turn
  marketing_turn-events now place w =
      marketing_case-events now (receive_screened place w.broker).0
        (record w { broker = (receive_screened place w.broker).1 })

module _ {C : Type 0} where
  pub export_found :
      (now : Time) (user_id : String) (events : List ScreenedEvent) (contact : CrmContact)
      (w : Cluster C)
      → user_id ≢ ""
      → Fraud.get_events_by_user_id user_id w.fraud_repo ≡ events
      → Marketing.get_crm_contact user_id w.marketing_repo ≡ ok contact
      → export_data now "GET" user_id w
        ≡ json_reply 200 (
            exported (record {
              user_id = user_id;
              events = events;
              crm_contact = some contact;
              exported_at = now;
            }))
  unfolding export_data handle_ccpa_export event_service finish_export
  export_found now user_id events contact w given found known =
      rw (str_eq-ne user_id "" given, found, known)

-- ===== src/Cluster/Private.antt =====
-- What every event and contact of the cluster satisfies, and the workers' turns.
use sentinel_flow_event_driv.Base.{
  ℕ, ◌≡◌, refl, inl, inr, ◌⊎◌, String, Option, none, some, List, [], ◌∷◌, Option-cases, Holds-if,
}
use sentinel_flow_event_driv.Base.Lists.{All, All-append}
use sentinel_flow_event_driv.Base.Dict.{lookup, AllValues, AllValues-insert, AllValues-lookup}
use sentinel_flow_event_driv.Base.Word.{Time}
use sentinel_flow_event_driv.Events.{TrackingEvent, ScreenedEvent}
use sentinel_flow_event_driv.Broker.{receive_screened}
use sentinel_flow_event_driv.Broker.Subscription.{Context, Received, item, ended, blocks}
use sentinel_flow_event_driv.Broker.Contents.{
  GetsRaw, Carries, publish_screened-Carries, subscribe-Carries, receive_raw-Carries,
  receive_screened-Carries,
}
use sentinel_flow_event_driv.Ports.{Fallible, ok, err, CrmContact}
use sentinel_flow_event_driv.Fraud.Rules.{FraudRule}
use sentinel_flow_event_driv.Fraud.Service.{judge, screen_event}
use sentinel_flow_event_driv.Fraud.Memory as Fraud
use sentinel_flow_event_driv.Fraud.Memory.{MemoryFraudRepository, or_empty}
use sentinel_flow_event_driv.Ingest.Handler.Gate.{IsClean}
use sentinel_flow_event_driv.Marketing.Memory as Marketing
use sentinel_flow_event_driv.Marketing.Memory.{MemoryMarketingRepository}
use sentinel_flow_event_driv.Marketing.Service.{
  workflow_for, consume, process_marketing_workflow, run_workflow, record_sync, contact_for,
}
use sentinel_flow_event_driv.Cluster.{
  Cluster, Worker, tracker_port, marketing_port, crm_port, screen, start_fraud, start_marketing,
  fraud_case, fraud_turn, marketing_case, marketing_turn,
}

-- The event that was screened is clean.
abbrev pub IsCleared : ScreenedEvent → Type 0
IsCleared event = IsClean event.tracking_event

-- A stored contact was synced or failed to be, for the workflow of some type of event.
pub record IsSettled (contact : CrmContact) : Type 0 where
  pub outcome : (contact.sync_status ≡ "synced") ⊎ (contact.sync_status ≡ "failed")
  pub triggered :
      (event_type : String) × (workflow_for event_type ≡ some contact.workflow_triggered)

-- All that is in the channels and in the repositories.
pub record IsPrivate {C : Type 0} (w : Cluster C) : Type 0 where
  pub in_flight : Carries IsClean IsCleared w.broker
  pub stored : AllValues (All IsCleared) w.fraud_repo.events
  pub contacts : AllValues IsSettled w.marketing_repo.crm

save-All :
    (event : ScreenedEvent) (m : MemoryFraudRepository)
    → IsCleared event
    → AllValues (All IsCleared) m.events
    → AllValues (All IsCleared) (Fraud.save_event event m).events
unfolding Fraud.save_event
save-All event m p h =
    AllValues-insert (All IsCleared) event.user_id _ m.events
      (All-append IsCleared _ (event ∷ [])
        (elim (Option-cases (lookup event.user_id m.events)) [
          | inl missing ↦ rw missing tt
          | inr (es, there) ↦
              rw there (AllValues-lookup (All IsCleared) event.user_id m.events h there)
        ])
        (p, tt))
      h

module _ {C : Type 0} where
  screen-IsPrivate :
      (rules : List FraudRule) (ctx : Context) (clock : ℕ → Time) (event : TrackingEvent)
      (w : Cluster C)
      → IsClean event
      → IsPrivate w
      → IsPrivate (screen rules ctx clock event w)
  unfolding screen screen_event judge
  screen-IsPrivate rules ctx clock event w p h =
      let screened = (judge rules event clock w.rule_state).0 in
      record {
        in_flight = publish_screened-Carries IsClean IsCleared ctx screened w.broker p h.in_flight;
        stored = save-All screened w.fraud_repo p h.stored;
        contacts = h.contacts;
      }

  pub start-IsPrivate :
      (w : Cluster C) → IsPrivate w → IsPrivate (start_fraud w) × IsPrivate (start_marketing w)
  unfolding start_fraud start_marketing
  start-IsPrivate w h =
      let (raw, screened) = subscribe-Carries IsClean IsCleared w.broker h.in_flight in
      (
        record { in_flight = raw; stored = h.stored; contacts = h.contacts },
        record { in_flight = screened; stored = h.stored; contacts = h.contacts },
      )

  fraud_case-IsPrivate :
      (rules : List FraudRule) (ctx : Context) (clock : ℕ → Time)
      (r : Option (Received TrackingEvent)) (w : Cluster C)
      → GetsRaw IsClean IsCleared r
      → IsPrivate w
      → IsPrivate (fraud_case rules ctx clock r w)
  unfolding fraud_case
  fraud_case-IsPrivate rules ctx clock none w p h = h
  fraud_case-IsPrivate rules ctx clock (some blocks) w p h = h
  fraud_case-IsPrivate rules ctx clock (some ended) w p h = record {
    in_flight = h.in_flight;
    stored = h.stored;
    contacts = h.contacts;
  }
  fraud_case-IsPrivate rules ctx clock (some (item event)) w p h =
      screen-IsPrivate rules ctx clock event w p h

  pub fraud_turn-IsPrivate :
      (rules : List FraudRule) (ctx : Context) (clock : ℕ → Time) (worker : Worker) (w : Cluster C)
      → IsPrivate w
      → IsPrivate (fraud_turn rules ctx clock worker w)
  unfolding fraud_turn
  fraud_turn-IsPrivate rules ctx clock Worker.idle w h = h
  fraud_turn-IsPrivate rules ctx clock Worker.returned w h = h
  fraud_turn-IsPrivate rules ctx clock (Worker.listening place) w h =
      let (got, left) = receive_raw-Carries IsClean IsCleared place w.broker h.in_flight in
      fraud_case-IsPrivate rules ctx clock _ _ got
        (record { in_flight = left; stored = h.stored; contacts = h.contacts })

  record_sync-IsPrivate :
      (crm : CrmContact → C → Fallible Unit × C) (contact : CrmContact) (answer : Fallible Unit)
      (w : Cluster C)
      → (event_type : String) × (workflow_for event_type ≡ some contact.workflow_triggered)
      → IsPrivate w
      → IsPrivate (record_sync marketing_port tracker_port (crm_port crm) contact (answer, w))
  unfolding record_sync Marketing.save_crm_contact
  record_sync-IsPrivate crm contact (err e) w t h = record {
    in_flight = h.in_flight;
    stored = h.stored;
    contacts =
        AllValues-insert IsSettled contact.user_id _ w.marketing_repo.crm
          (record { outcome = inr refl; triggered = t }) h.contacts;
  }
  record_sync-IsPrivate crm contact (ok _) w t h = record {
    in_flight = h.in_flight;
    stored = h.stored;
    contacts =
        AllValues-insert IsSettled contact.user_id _ w.marketing_repo.crm
          (record { outcome = inl refl; triggered = t }) h.contacts;
  }

  run_workflow-IsPrivate :
      (crm : CrmContact → C → Fallible Unit × C) (workflow : Option String) (now : Time)
      (event : ScreenedEvent) (w : Cluster C)
      → workflow_for event.event_type ≡ workflow
      → IsPrivate w
      → IsPrivate (run_workflow marketing_port tracker_port (crm_port crm) workflow now event w)
  unfolding run_workflow contact_for
  run_workflow-IsPrivate crm none now event w e h = h
  run_workflow-IsPrivate crm (some workflow) now event w e h =
      record_sync-IsPrivate crm (contact_for workflow now event) _ _ (event.event_type, e)
        (record { in_flight = h.in_flight; stored = h.stored; contacts = h.contacts })

  consume-IsPrivate :
      (crm : CrmContact → C → Fallible Unit × C) (now : Time) (event : ScreenedEvent)
      (w : Cluster C)
      → IsPrivate w
      → IsPrivate (consume marketing_port tracker_port (crm_port crm) now event w)
  unfolding consume process_marketing_workflow
  consume-IsPrivate crm now event w h =
      Holds-if IsPrivate event.is_fraudulent h (run_workflow-IsPrivate crm _ now event w refl h)

  marketing_case-IsPrivate :
      (crm : CrmContact → C → Fallible Unit × C) (now : Time) (r : Option (Received ScreenedEvent))
      (w : Cluster C)
      → IsPrivate w
      → IsPrivate (marketing_case crm now r w)
  unfolding marketing_case
  marketing_case-IsPrivate crm now none w h = h
  marketing_case-IsPrivate crm now (some blocks) w h = h
  marketing_case-IsPrivate crm now (some ended) w h = record {
    in_flight = h.in_flight;
    stored = h.stored;
    contacts = h.contacts;
  }
  marketing_case-IsPrivate crm now (some (item event)) w h = consume-IsPrivate crm now event w h

  pub marketing_turn-IsPrivate :
      (crm : CrmContact → C → Fallible Unit × C) (now : Time) (worker : Worker) (w : Cluster C)
      → IsPrivate w
      → IsPrivate (marketing_turn crm now worker w)
  unfolding marketing_turn
  marketing_turn-IsPrivate crm now Worker.idle w h = h
  marketing_turn-IsPrivate crm now Worker.returned w h = h
  marketing_turn-IsPrivate crm now (Worker.listening place) w h =
      let (got, left) = receive_screened-Carries IsClean IsCleared place w.broker h.in_flight in
      marketing_case-IsPrivate crm now (receive_screened place w.broker).0
        (record w { broker = (receive_screened place w.broker).1 })
        (record { in_flight = left; stored = h.stored; contacts = h.contacts })

-- ===== src/Cluster/Privacy.antt =====
-- What personal data the cluster can hold: an invariant of every run.
use sentinel_flow_event_driv.Base.{
  ℕ, inl, inr, String, Option, List, [], ◌∷◌, Bool-cases, Option-cases, str_eq,
}
use sentinel_flow_event_driv.Base.Lists.{All}
use sentinel_flow_event_driv.Base.Dict.{AllValues-erase}
use sentinel_flow_event_driv.Base.Word.{Time}
use sentinel_flow_event_driv.Events.{TrackingEvent}
use sentinel_flow_event_driv.Broker.{new_in_memory_broker}
use sentinel_flow_event_driv.Broker.Subscription.{Context}
use sentinel_flow_event_driv.Broker.Contents.{publish_raw-Carries, close-Carries}
use sentinel_flow_event_driv.Ports.{Fallible, ok, err, CrmContact}
use sentinel_flow_event_driv.Fraud.Service.{event_service, standard_rules}
use sentinel_flow_event_driv.Fraud.Memory as Fraud
use sentinel_flow_event_driv.Fraud.Memory.{MemoryFraudRepository, or_empty}
use sentinel_flow_event_driv.Ingest.Handler.{handle_ingest}
use sentinel_flow_event_driv.Ingest.Handler.Gate.{IsClean, handle_ingest-Holds}
use sentinel_flow_event_driv.Marketing.Memory as Marketing
use sentinel_flow_event_driv.Marketing.Memory.{MemoryMarketingRepository}
use sentinel_flow_event_driv.Marketing.Handlers.{handle_gdpr_delete, finish_purge, has_user_id}
use sentinel_flow_event_driv.Cluster.{
  Cluster, new_cluster, tracker_port, broker_port, fraud_port, marketing_port, purge, Step, step,
  run,
}
use sentinel_flow_event_driv.Cluster.Private.{
  IsCleared, IsSettled, IsPrivate, start-IsPrivate, fraud_turn-IsPrivate, marketing_turn-IsPrivate,
}

module _ {C : Type 0} where
  finish_purge-IsPrivate :
      (sha256_hex : String → String) (now later : Time) (user_id : String) (answer : Fallible ℕ)
      (w : Cluster C)
      → IsPrivate w
      → IsPrivate
          (finish_purge
            (event_service fraud_port)
            marketing_port
            sha256_hex
            now
            later
            user_id
            (answer, w)).1
  unfolding finish_purge Marketing.delete_crm_contact Marketing.save_privacy_log
  finish_purge-IsPrivate sha256_hex now later user_id (err e) w h = h
  finish_purge-IsPrivate sha256_hex now later user_id (ok n) w h = record {
    in_flight = h.in_flight;
    stored = h.stored;
    contacts = AllValues-erase IsSettled user_id w.marketing_repo.crm h.contacts;
  }

  deleted-IsPrivate :
      (user_id : String) (w : Cluster C)
      → IsPrivate w
      → IsPrivate ((event_service fraud_port).delete_events user_id w).1
  unfolding event_service Fraud.delete_user_events Fraud.delete_own_events Fraud.after_delete
      Marketing.delete_crm_contact
  deleted-IsPrivate user_id w h = record {
    in_flight = h.in_flight;
    stored = AllValues-erase (All IsCleared) user_id w.fraud_repo.events h.stored;
    contacts = AllValues-erase IsSettled user_id w.marketing_repo.crm h.contacts;
  }

  purge-IsPrivate :
      (sha256_hex : String → String) (now later : Time) (method : String) (decoded : Option String)
      (w : Cluster C)
      → IsPrivate w
      → IsPrivate (purge sha256_hex now later method decoded w).1
  unfolding purge handle_gdpr_delete
  purge-IsPrivate sha256_hex now later method decoded w h =
      elim (Bool-cases (str_eq method "POST")) [
        | inl post ↦ elim (Option-cases (has_user_id decoded)) [
          | inl missing ↦ rw (post, missing) h
          | inr (user_id, given) ↦
              rw (post, given)
                (finish_purge-IsPrivate sha256_hex now later user_id _ _
                  (deleted-IsPrivate user_id w h))
        ]
        | inr other ↦ rw other h
      ]

  ingest-IsPrivate :
      (ctx : Context) (now : Time) (method : String) (decoded : Option TrackingEvent)
      (w : Cluster C)
      → IsPrivate w
      → IsPrivate (handle_ingest broker_port tracker_port ctx now method decoded w).1
  ingest-IsPrivate =
      handle_ingest-Holds broker_port tracker_port IsPrivate
        (λ w h. record { in_flight = h.in_flight; stored = h.stored; contacts = h.contacts })
        (λ ctx event w p h. record {
          in_flight = publish_raw-Carries IsClean IsCleared ctx event w.broker p h.in_flight;
          stored = h.stored;
          contacts = h.contacts;
        })

module _ {C : Type 0} (crm : CrmContact → C → Fallible Unit × C) (table : ℕ → ℕ)
    (sha256_hex : String → String) where
  step-IsPrivate :
      (s : Step) (w : Cluster C) → IsPrivate w → IsPrivate (step crm table sha256_hex s w)
  unfolding step
  step-IsPrivate (Step.ingests ctx now method decoded) w h =
      ingest-IsPrivate ctx now method decoded w h
  step-IsPrivate (Step.purges now later method decoded) w h =
      purge-IsPrivate sha256_hex now later method decoded w h
  step-IsPrivate Step.starts_fraud w h = (start-IsPrivate w h).0
  step-IsPrivate Step.starts_marketing w h = (start-IsPrivate w h).1
  step-IsPrivate Step.stops_fraud w h = record {
    in_flight = h.in_flight;
    stored = h.stored;
    contacts = h.contacts;
  }
  step-IsPrivate Step.stops_marketing w h = record {
    in_flight = h.in_flight;
    stored = h.stored;
    contacts = h.contacts;
  }
  step-IsPrivate Step.closes w h = record {
    in_flight = close-Carries IsClean IsCleared w.broker h.in_flight;
    stored = h.stored;
    contacts = h.contacts;
  }
  step-IsPrivate (Step.turns_fraud ctx clock) w h =
      fraud_turn-IsPrivate (standard_rules table) ctx clock w.fraud_worker w h
  step-IsPrivate (Step.turns_marketing now) w h =
      marketing_turn-IsPrivate crm now w.marketing_worker w h

  run-IsPrivate_from :
      (steps : List Step) (w : Cluster C)
      → IsPrivate w
      → IsPrivate (run crm table sha256_hex steps w)
  unfolding run
  run-IsPrivate_from [] w h = h
  run-IsPrivate_from (s ∷ steps) w h =
      run-IsPrivate_from steps (step crm table sha256_hex s w) (step-IsPrivate s w h)

-- After any run of a new cluster, whatever the CRM does: every event in a channel or in the
-- repository has its required fields, carries the consent if it is a behavioural one (a click or a
-- view of an item), and has an address that `anonymize_ip` returned; and every stored contact was
-- synced or failed to be, for the workflow of some type of event.
pub run-IsPrivate :
    {C : Type 0} (crm : CrmContact → C → Fallible Unit × C) (table : ℕ → ℕ)
    (sha256_hex : String → String) (buffer_size : ℕ) (now : Time) (c : C) (steps : List Step)
    → IsPrivate (run crm table sha256_hex steps (new_cluster buffer_size now c))
unfolding new_cluster new_in_memory_broker
run-IsPrivate crm table sha256_hex buffer_size now c steps =
    run-IsPrivate_from crm table sha256_hex steps (new_cluster buffer_size now c)
      (record { in_flight = (tt, tt); stored = tt; contacts = tt })

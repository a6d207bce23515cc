-- ===== src/Cluster/Journey.antt =====
-- The way of one event through the cluster, from the request to the stored contact.
use sentinel_flow_event_driv.Base.{
  ℕ, ◌<◌, ◌≡◌, refl, ap, ◌∙◌, String, Bool, false, Option, none, some, List, [], ◌∷◌, eq_refl,
  if◌then◌else◌,
}
use sentinel_flow_event_driv.Base.Dict.{lookup-insert}
use sentinel_flow_event_driv.Base.Word.{Time}
use sentinel_flow_event_driv.Events.{TrackingEvent, ScreenedEvent}
use sentinel_flow_event_driv.Broker.{
  BrokerError, InMemoryBroker, publish_screened, receive_raw, receive_screened,
}
use sentinel_flow_event_driv.Broker.Subscription.{Context, receive, receive_from}
use sentinel_flow_event_driv.Broker.Delivery.{IsLive}
use sentinel_flow_event_driv.Ports.{Fallible, ok, err, CrmContact}
use sentinel_flow_event_driv.Http.{json_reply}
use sentinel_flow_event_driv.Ingest.Consent.{check_gdpr_consent}
use sentinel_flow_event_driv.Ingest.Handler.{
  lacks_field, stamped, after_publish, accept_event, ingest_decoded, handle_ingest,
}
use sentinel_flow_event_driv.Fraud.Rules.{FraudRule, RuleState}
use sentinel_flow_event_driv.Fraud.Service.{judge, screen_event}
use sentinel_flow_event_driv.Fraud.Memory as Fraud
use sentinel_flow_event_driv.Marketing.Memory as Marketing
use sentinel_flow_event_driv.Marketing.Memory.{MemoryMarketingRepository}
use sentinel_flow_event_driv.Marketing.Service.{
  workflow_for, contact_for, record_sync, run_workflow, process_marketing_workflow, consume,
}
use sentinel_flow_event_driv.Analytics.Memory.{increment_metric}
use sentinel_flow_event_driv.Cluster.{
  Cluster, Worker, broker_port, tracker_port, marketing_port, crm_port, screen, fraud_case,
  fraud_turn, marketing_case, marketing_turn,
}
use sentinel_flow_event_driv.Cluster.Wired.{
  wired, publish_wired, published, stamped_consent, unused,
}

module _ {C : Type 0} where
  ingest_wired :
      (ctx : Context) (n : ℕ) (now : Time) (event : TrackingEvent) (w : Cluster C)
      → IsLive ctx
      → 0 < n
      → lacks_field event ≡ false
      → check_gdpr_consent event.event_type event.gdpr_consent ≡ none
      → handle_ingest broker_port tracker_port ctx now "POST"
          (some event)
          (record w { broker = wired n [] [] })
        ≡ (
          json_reply 202 "{\"status\": \"accepted\", \"message\": \"event queued for screening\"}",
          record w {
            broker = wired n (published now event ∷ []) [];
            tracker = increment_metric "total_received" 1 w.tracker;
          },
        )
  unfolding handle_ingest ingest_decoded accept_event after_publish
  ingest_wired ctx n now event w live room full consent =
      let sent = (publish_wired ctx n (published now event) (unused now event) live room).0 in
      rw (full, stamped_consent now event ∙ consent, sent) refl

  -- The cluster after the screening, by the metric that it counts.
  abbrev pub screened_to : ℕ → ScreenedEvent → RuleState → String → Cluster C → Cluster C
  screened_to n screened state metric w = record w {
    broker = wired n [] (screened ∷ []);
    rule_state = state;
    fraud_repo = Fraud.save_event screened w.fraud_repo;
    tracker = increment_metric metric 1 w.tracker;
  }

  publish_after :
      (ctx : Context) (n : ℕ) (screened : ScreenedEvent) (state : RuleState) (metric : String)
      (w : Cluster C)
      → IsLive ctx
      → 0 < n
      → record (screened_to n screened state metric w) {
        broker = (publish_screened ctx screened (wired n [] [])).1;
      }
        ≡ screened_to n screened state metric w
  publish_after ctx n screened state metric w live room =
      let sent = (publish_wired ctx n screened.tracking_event screened live room).1 in
      ap
        (λ (p : Option BrokerError × InMemoryBroker).
          record (screened_to n screened state metric w) { broker = p.1 })
        sent

  fraud_wired :
      (rules : List FraudRule) (ctx : Context) (clock : ℕ → Time) (n : ℕ) (event : TrackingEvent)
      (w : Cluster C)
      → IsLive ctx
      → 0 < n
      → (judge rules event clock w.rule_state).0.is_fraudulent ≡ false
      → fraud_turn rules ctx clock
          (Worker.listening 0)
          (record w { broker = wired n (event ∷ []) [] })
        ≡ screened_to n
            (judge rules event clock w.rule_state).0
            (judge rules event clock w.rule_state).1
            "legitimate"
            w
  unfolding fraud_turn receive_raw receive receive_from fraud_case screen screen_event
  fraud_wired rules ctx clock n event w live room legitimate =
      let (screened, state) = judge rules event clock w.rule_state in
      let counted = λ (fraud : Bool). if fraud then "fraudulent" else "legitimate" in
      publish_after ctx n screened state (counted screened.is_fraudulent) w live room
      ∙ ap (λ (fraud : Bool). screened_to n screened state (counted fraud) w) legitimate

-- The status of a contact, by the answer of the CRM.
abbrev pub status_of : Fallible Unit → String
status_of (ok _) = "synced"
status_of (err _) = "failed"

contact_saved :
    (contact : CrmContact) (m : MemoryMarketingRepository)
    → Marketing.get_crm_contact contact.user_id (Marketing.save_crm_contact contact m) ≡ ok contact
unfolding Marketing.get_crm_contact Marketing.save_crm_contact
contact_saved contact m =
    rw (lookup-insert contact.user_id contact.user_id contact m.crm, eq_refl contact.user_id) refl

module _ {C : Type 0} (crm : CrmContact → C → Fallible Unit × C) where
  synced_contact :
      (contact : CrmContact) (answer : Fallible Unit) (w : Cluster C)
      → Marketing.get_crm_contact contact.user_id
          (record_sync marketing_port tracker_port
            (crm_port crm)
            contact
            (answer, w)).marketing_repo
        ≡ ok (record contact { sync_status = status_of answer })
  unfolding record_sync
  synced_contact contact (ok _) w =
      contact_saved (record contact { sync_status = "synced" }) w.marketing_repo
  synced_contact contact (err _) w =
      contact_saved (record contact { sync_status = "failed" }) w.marketing_repo

  workflow_wired :
      (chosen : Option String) (workflow : String) (now : Time) (event : ScreenedEvent)
      (w : Cluster C)
      → chosen ≡ some workflow
      → Marketing.get_crm_contact event.user_id
          (run_workflow marketing_port tracker_port
            (crm_port crm)
            chosen
            now
            event
            w).marketing_repo
        ≡ ok (record (contact_for workflow now event) {
          sync_status = status_of (crm (contact_for workflow now event) w.crm_state).0;
        })
  unfolding run_workflow contact_for
  workflow_wired chosen workflow now event w e =
      let contact = contact_for workflow now event in
      let synced : Cluster C = record w {
        tracker = increment_metric "crm_attempts" 1 w.tracker;
        crm_state = (crm contact w.crm_state).1;
      } in
      rw e (synced_contact contact (crm contact w.crm_state).0 synced)

  marketing_wired :
      (now : Time) (n : ℕ) (workflow : String) (event : ScreenedEvent) (w : Cluster C)
      → event.is_fraudulent ≡ false
      → workflow_for event.event_type ≡ some workflow
      → Marketing.get_crm_contact event.user_id
          (marketing_turn crm now
            (Worker.listening 0)
            (record w { broker = wired n [] (event ∷ []) })).marketing_repo
        ≡ ok (record (contact_for workflow now event) {
          sync_status = status_of (crm (contact_for workflow now event) w.crm_state).0;
        })
  unfolding marketing_turn receive_screened receive receive_from marketing_case consume
      process_marketing_workflow
  marketing_wired now n workflow event w legitimate chosen =
      let done =
        workflow_wired (workflow_for event.event_type) workflow now event
          (record w { broker = wired n [] [] }) chosen in
      let after =
        run_workflow marketing_port tracker_port (crm_port crm) (workflow_for event.event_type) now
          event (record w { broker = wired n [] [] }) in
      ap
        (λ (fraud : Bool).
          Marketing.get_crm_contact event.user_id
            (if fraud then record w { broker = wired n [] [] } else after).marketing_repo)
        legitimate
      ∙ done

-- Through a cluster with one worker of each kind whose channels are empty and can hold an event: a
-- posted event that has its fields and its consent, that the rules do not find fraudulent and whose
-- type has a workflow is accepted with 202, stored with its verdict by the fraud worker's next turn,
-- and after the marketing worker's next turn its user has a contact of that workflow, marked as synced
-- if the CRM answered without an error and as failed otherwise.
pub event_becomes_contact :
    {C : Type 0} (crm : CrmContact → C → Fallible Unit × C) (rules : List FraudRule) (ctx : Context)
    (n : ℕ) (now later : Time) (clock : ℕ → Time) (workflow : String) (event : TrackingEvent)
    (w : Cluster C)
    → w.broker ≡ wired n [] []
    → IsLive ctx
    → 0 < n
    → lacks_field event ≡ false
    → check_gdpr_consent event.event_type event.gdpr_consent ≡ none
    → (judge rules (published now event) clock w.rule_state).0.is_fraudulent ≡ false
    → workflow_for (published now event).event_type ≡ some workflow
    → let accepted = handle_ingest broker_port tracker_port ctx now "POST" (some event) w in
      let screened = fraud_turn rules ctx clock (Worker.listening 0) accepted.1 in
      let synced = marketing_turn crm later (Worker.listening 0) screened in
      let verdict = (judge rules (published now event) clock w.rule_state).0 in
      let contact = contact_for workflow later verdict in
      (accepted.0.status_code ≡ 202)
      × (screened.fraud_repo ≡ Fraud.save_event verdict w.fraud_repo)
      × (Marketing.get_crm_contact verdict.user_id synced.marketing_repo
          ≡ ok (record contact { sync_status = status_of (crm contact w.crm_state).0 }))
unfolding judge stamped
event_becomes_contact crm rules ctx n now later clock workflow event w empty live room full consent
      legitimate chosen =
    let judged = judge rules (published now event) clock w.rule_state in
    let counted = record w { tracker = increment_metric "total_received" 1 w.tracker } in
    let accepted = ingest_wired ctx n now event w live room full consent in
    let screened =
      fraud_wired rules ctx clock n (published now event) counted live room legitimate in
    let done =
      marketing_wired crm later n workflow judged.0
        (screened_to n judged.0 judged.1 "legitimate" counted) legitimate chosen in
    let start : w ≡ record w { broker = wired n [] [] } = ap (λ b. record w { broker = b }) empty in
    let accepted' =
      ap (λ v. handle_ingest broker_port tracker_port ctx now "POST" (some event) v) start
      ∙ accepted in
    let screened' =
      ap (λ p. fraud_turn rules ctx clock (Worker.listening 0) p.1) accepted' ∙ screened in
    (
      ap (λ p. p.0.status_code) accepted',
      ap (λ v. v.fraud_repo) screened',
      ap
            (λ v.
              Marketing.get_crm_contact judged.0.user_id
                (marketing_turn crm later (Worker.listening 0) v).marketing_repo)
            screened'
          ∙ done,
    )

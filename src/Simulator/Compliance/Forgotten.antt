-- ===== src/Simulator/Compliance/Forgotten.antt =====
-- What the exports before and after the purge show.
use mathlib.Core.Path.{subst}
use sentinel_flow_event_driv.Base.{
  ℕ, ◌<◌, ◌≡◌, ◌≢◌, refl, sym, ap, ◌∙◌, inl, inr, String, false, Option, none, some, [], ◌∷◌, ◌==◌,
  eq_iff, Bool-cases, arith,
}
use sentinel_flow_event_driv.Base.Dict.{lookup}
use sentinel_flow_event_driv.Base.Text.{codes}
use sentinel_flow_event_driv.Base.Word.{Time}
use sentinel_flow_event_driv.Events.{TrackingEvent}
use sentinel_flow_event_driv.Broker.Subscription.{Context}
use sentinel_flow_event_driv.Broker.Delivery.{IsLive}
use sentinel_flow_event_driv.Ports.{Fallible, ok, CrmContact}
use sentinel_flow_event_driv.Http.{json_reply}
use sentinel_flow_event_driv.Ingest.Consent.{anonymize_ip, check_gdpr_consent}
use sentinel_flow_event_driv.Ingest.Handler.{handle_ingest, stamped}
use sentinel_flow_event_driv.Fraud.Rules.{
  RuleState, scored, rate_reason, geo_reason, bot_reason, bot_verdict, rate_limit_rule,
  geo_velocity_rule, geo_evaluate, country_of, stamps_of, active_stamps,
}
use sentinel_flow_event_driv.Fraud.Service.{standard_rules, judge}
use sentinel_flow_event_driv.Fraud.Service.Scores.{fraudulent_iff}
use sentinel_flow_event_driv.Fraud.Memory as Fraud
use sentinel_flow_event_driv.Marketing.Memory as Marketing
use sentinel_flow_event_driv.Marketing.Service.{workflow_for, contact_for, email_of}
use sentinel_flow_event_driv.Marketing.Handlers.{exported}
use sentinel_flow_event_driv.Cluster.{
  Cluster, Worker, broker_port, tracker_port, fraud_turn, marketing_turn,
}
use sentinel_flow_event_driv.Cluster.Erasure.{purge_erases, events_after_save}
use sentinel_flow_event_driv.Cluster.Wired.{wired, published}
use sentinel_flow_event_driv.Cluster.Journey.{status_of, event_becomes_contact}
use sentinel_flow_event_driv.Simulator.Attacks.{compliance_event}
use sentinel_flow_event_driv.Simulator.Caught.{mozilla}
use sentinel_flow_event_driv.Simulator.Compliance.{advocate, compliance_flow}
use sentinel_flow_event_driv.Cluster.Export.{marketing_turn-events, export_found}

-- A first event from an address, with a browser's agent and no country, is not fraudulent.
quiet :
    (table : ℕ → ℕ) (event : TrackingEvent) (clock : ℕ → Time) (state : RuleState)
    → event.user_agent ≡ "Mozilla/5.0"
    → lookup "country" event.payload ≡ none
    → stamps_of event.ip_address state ≡ []
    → (judge (standard_rules table) event clock state).0.is_fraudulent ≡ false
unfolding rate_limit_rule active_stamps geo_velocity_rule geo_evaluate country_of
quiet table event clock state agent nowhere alone =
    elim (Bool-cases (judge (standard_rules table) event clock state).0.is_fraudulent) [
      | inr legitimate ↦ legitimate
      | inl fraud ↦ elim ((fraudulent_iff table event clock state).0 fraud) [
        | inl is_bot ↦
            let clash : scored 8 bot_reason ≡ scored 0 "" =
              sym is_bot ∙ ap (λ s. bot_verdict table (codes s)) agent ∙ mozilla table in
            cc
        | inr (inl exceeds) ↦
            let clash : scored 0 "" ≡ scored 7 rate_reason = rw alone at exceeds in cc
        | inr (inr travels) ↦
            let clash : scored 0 "" ≡ scored 9 geo_reason = rw nowhere at travels in cc
      ]
    ]

advocate_given : advocate ≢ ""
advocate_given = ground (arith, eq_iff advocate "")

legitimate_compliance :
    (table : ℕ → ℕ) (clock : ℕ → Time) (now sent : Time) (state : RuleState)
    → (sent == 0) ≡ false
    → stamps_of (anonymize_ip "10.0.0.2") state ≡ []
    → (published now (compliance_event sent)
        ≡ record (compliance_event sent) { ip_address = anonymize_ip "10.0.0.2" })
      × ((judge
            (standard_rules table)
            (published now (compliance_event sent))
            clock
            state).0.is_fraudulent
          ≡ false)
unfolding stamped compliance_event lookup
legitimate_compliance table clock now sent state real alone =
    let same : published now (compliance_event sent)
        ≡ record (compliance_event sent) { ip_address = anonymize_ip "10.0.0.2" } =
      rw real refl in
    (
      same,
      rw same (
          quiet table (record (compliance_event sent) { ip_address = anonymize_ip "10.0.0.2" })
            clock state refl refl alone),
    )

-- The whole flow, with an event that has a time and goes through JSON unchanged, and a context that is
-- not done, on modules in memory with one subscriber of each kind whose empty channels can hold an
-- event, where no other event came from the user's network, where the user has no stored event, and
-- where each worker takes a turn while the simulator sleeps: the signup is accepted; the first export shows its one event, as legitimate, and
-- the contact of the onboarding with the email of the event, marked by what the CRM answered; the purge
-- answers 200; and the last export shows neither event nor contact.
pub compliance_flow_forgets :
    {C : Type 0} (crm : CrmContact → C → Fallible Unit × C) (table : ℕ → ℕ) (clock : ℕ → Time)
    (wire : TrackingEvent → Option TrackingEvent) (ctx : Context) (sha256_hex : String → String)
    (n : ℕ) (sent at_turn at_post at_export at_purge at_log at_last : Time) (w : Cluster C)
    → ((event : TrackingEvent) → wire event ≡ some event)
    → w.broker ≡ wired n [] []
    → IsLive ctx
    → 0 < n
    → (sent == 0) ≡ false
    → stamps_of (anonymize_ip "10.0.0.2") w.rule_state ≡ []
    → Fraud.get_events_by_user_id advocate w.fraud_repo ≡ []
    → let asleep = λ (v : Cluster C).
      marketing_turn crm at_turn
        (Worker.listening 0)
        (fraud_turn (standard_rules table) ctx clock (Worker.listening 0) v) in
      let answers =
        compliance_flow wire ctx sha256_hex asleep sent
          (at_post, at_export, at_purge, at_log, at_last)
          w in
      let event = record (compliance_event sent) { ip_address = anonymize_ip "10.0.0.2" } in
      let verdict = (judge (standard_rules table) event clock w.rule_state).0 in
      let contact : CrmContact = record {
        user_id = advocate;
        email = "privacy@advocate.org";
        workflow_triggered = "Welcome & Onboarding Campaign";
        sync_status = "pending";
        synced_at = at_turn;
        retry_count = 0;
      } in
      (answers.posted.status_code ≡ 202)
      × (answers.exported_first
          ≡ json_reply 200 (
              exported (record {
                user_id = advocate;
                events = verdict ∷ [];
                crm_contact =
                    some (record contact { sync_status = status_of (crm contact w.crm_state).0 });
                exported_at = at_export;
              })))
      × (verdict.is_fraudulent ≡ false)
      × (answers.purged.status_code ≡ 200)
      × (answers.exported_last
          ≡ json_reply 200 (
              exported (record {
                user_id = advocate;
                events = [];
                crm_contact = none;
                exported_at = at_last;
              })))
unfolding compliance_flow compliance_event check_gdpr_consent workflow_for judge contact_for
    email_of lookup
compliance_flow_forgets {C} crm table clock wire ctx sha256_hex n sent at_turn at_post at_export
      at_purge at_log at_last w faithful empty live room real alone unknown =
    let (same, legitimate) =
      legitimate_compliance table clock at_post sent w.rule_state real alone in
    let screened =
      fraud_turn (standard_rules table) ctx clock (Worker.listening 0)
        (handle_ingest broker_port tracker_port ctx at_post "POST" (some (compliance_event sent))
          w).1 in
    let synced = marketing_turn crm at_turn (Worker.listening 0) screened in
    let (accepted, saved, known) =
      subst
        (λ (e : TrackingEvent).
          ((handle_ingest broker_port tracker_port ctx at_post "POST" (some (compliance_event sent))
              w).0.status_code
            ≡ 202)
          × (screened.fraud_repo
              ≡ Fraud.save_event (judge (standard_rules table) e clock w.rule_state).0 w.fraud_repo)
          × (Marketing.get_crm_contact e.user_id synced.marketing_repo
              ≡ ok
                  (record (contact_for "Welcome & Onboarding Campaign" at_turn
                    (judge (standard_rules table) e clock w.rule_state).0) {
                      sync_status =
                          status_of
                            (crm
                              (contact_for "Welcome & Onboarding Campaign" at_turn
                                (judge (standard_rules table) e clock w.rule_state).0)
                              w.crm_state).0;
                    })))
        same
        (event_becomes_contact crm (standard_rules table) ctx n at_post at_turn clock
          "Welcome & Onboarding Campaign" (compliance_event sent) w empty live room refl refl
          legitimate (ap (λ e. workflow_for e.event_type) same)) in
    let event = record (compliance_event sent) { ip_address = anonymize_ip "10.0.0.2" } in
    let verdict = (judge (standard_rules table) event clock w.rule_state).0 in
    let found : Fraud.get_events_by_user_id advocate synced.fraud_repo ≡ verdict ∷ [] =
      ap (Fraud.get_events_by_user_id advocate)
        (marketing_turn-events crm at_turn 0 screened ∙ saved)
      ∙ events_after_save verdict w.fraud_repo unknown in
    let (gone, nothing, _, _) =
      purge_erases sha256_hex at_purge at_log at_last advocate "" synced advocate_given
        advocate_given in
    rw (faithful (compliance_event sent)) (
      accepted,
      export_found at_export advocate (verdict ∷ []) _ synced advocate_given found known,
      subst (λ e. (judge (standard_rules table) e clock w.rule_state).0.is_fraudulent ≡ false) same
          legitimate,
      gone,
      nothing,
    )

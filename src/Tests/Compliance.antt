-- ===== src/Tests/Compliance.antt =====
-- scripts/simulator: the whole traffic before the gateway, and the compliance flow.
use mathlib.Core.List.Permᴰ
use sentinel_flow_event_driv.Base.{
  ℕ, ◌+◌, ◌*◌, ◌≡◌, refl, true, false, String, Option, none, some, [], ◌∷◌, map, arith,
}
use sentinel_flow_event_driv.Base.Lists.{replicate}
use sentinel_flow_event_driv.Base.Word.{Time}
use sentinel_flow_event_driv.Events.{TrackingEvent}
use sentinel_flow_event_driv.Broker.Subscription.{Context}
use sentinel_flow_event_driv.Ports.{Fallible, ok, CrmContact}
use sentinel_flow_event_driv.Http.{json_reply}
use sentinel_flow_event_driv.Fraud.Service.{standard_rules, judge}
use sentinel_flow_event_driv.Base.Dict.{lookup}
use sentinel_flow_event_driv.Fraud.Memory as Fraud
use sentinel_flow_event_driv.Fraud.Rules.{new_rule_state}
use sentinel_flow_event_driv.Ingest.Consent.{anonymize_ip}
use sentinel_flow_event_driv.Marketing.Handlers.{exported}
use sentinel_flow_event_driv.Cluster.{Cluster, Worker, new_cluster, fraud_turn, marketing_turn}
use sentinel_flow_event_driv.Cluster.Wired.{wired, published}
use sentinel_flow_event_driv.Simulator.Attacks.{compliance_event}
use sentinel_flow_event_driv.Simulator.Session.{traffic, post_all}
use sentinel_flow_event_driv.Simulator.Queue.{simulation_is_queued}
use sentinel_flow_event_driv.Simulator.Compliance.{advocate, compliance_flow}
use sentinel_flow_event_driv.Simulator.Compliance.Forgotten.{compliance_flow_forgets}

abbrev ticking : ℕ → ℕ → Time
ticking part i = 100 * part + i + 1

abbrev patient : Context
patient = record { done = λ i. false; sends_first = λ i. true }

abbrev plain : TrackingEvent → Option TrackingEvent
plain event = some event

abbrev idle : Cluster ℕ
idle = record (new_cluster 40 0 0) { broker = wired 40 [] [] }

simulation_is_queued_example :
    let (codes, w') = post_all plain patient 7 (traffic ticking) idle in
    (codes ≡ replicate 33 202) × (w'.broker ≡ wired 40 (map (published 7) (traffic ticking)) [])
simulation_is_queued_example =
    simulation_is_queued plain patient 40 7 ticking (traffic ticking) idle (λ event. refl)
      (λ i. refl) (omega arith) (Permᴰ.refl (traffic ticking)) refl

abbrev no_table : ℕ → ℕ
no_table c = c

abbrev digest : String → String
digest s = s

abbrev happy_crm : CrmContact → ℕ → Fallible Unit × ℕ
happy_crm contact c = (ok tt, c)

abbrev workers_turn : Cluster ℕ → Cluster ℕ
workers_turn v =
    marketing_turn happy_crm 4 (Worker.listening 0)
      (fraud_turn (standard_rules no_table) patient (λ i. 3) (Worker.listening 0) v)

compliance_flow_forgets_example :
    let answers = compliance_flow plain patient digest workers_turn 1 (2, 5, 6, 7, 8) idle in
    let event = record (compliance_event 1) { ip_address = anonymize_ip "10.0.0.2" } in
    let verdict = (judge (standard_rules no_table) event (λ i. 3) new_rule_state).0 in
    (answers.posted.status_code ≡ 202)
    × (answers.exported_first
        ≡ json_reply 200 (
            exported (record {
              user_id = advocate;
              events = verdict ∷ [];
              crm_contact = some (record {
                user_id = advocate;
                email = "privacy@advocate.org";
                workflow_triggered = "Welcome & Onboarding Campaign";
                sync_status = "synced";
                synced_at = 4;
                retry_count = 0;
              });
              exported_at = 5;
            })))
    × (verdict.is_fraudulent ≡ false)
    × (answers.purged.status_code ≡ 200)
    × (answers.exported_last
        ≡ json_reply 200 (
            exported
              (record { user_id = advocate; events = []; crm_contact = none; exported_at = 8 })))
unfolding lookup new_cluster Fraud.get_events_by_user_id
compliance_flow_forgets_example =
    compliance_flow_forgets happy_crm no_table (λ i. 3) plain patient digest 40 1 4 2 5 6 7 8 idle
      (λ event. refl) refl (λ i. refl) (omega arith) refl refl refl

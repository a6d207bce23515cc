-- ===== src/Tests/Cluster.antt =====
-- cmd/monolith: the theorems on a cluster with one event.
use Prim.Native.String.{◌++◌ as append}
use sentinel_flow_event_driv.Base.{
  ◌++◌, ℕ, ◌≡◌, ◌≢◌, refl, String, true, false, none, some, [], ◌∷◌, List, eq_iff, arith,
}
use sentinel_flow_event_driv.Base.Dict.{lookup}
use sentinel_flow_event_driv.Base.Text.{contains, to_lower}
use sentinel_flow_event_driv.Events.{TrackingEvent, ScreenedEvent}
use sentinel_flow_event_driv.Broker.{receive_raw}
use sentinel_flow_event_driv.Broker.Subscription.{Context, receive, receive_from}
use sentinel_flow_event_driv.Http.{json_reply}
use sentinel_flow_event_driv.Ports.{Fallible, ok, CrmContact}
use sentinel_flow_event_driv.Fraud.Rules.{
  new_rule_state, geo_velocity_rule, rate_limit_rule, bot_rule,
}
use sentinel_flow_event_driv.Fraud.Service.{standard_rules, judge}
use sentinel_flow_event_driv.Fraud.Memory as Fraud
use sentinel_flow_event_driv.Marketing.Memory as Marketing
use sentinel_flow_event_driv.Marketing.Handlers.{exported, salt, purge_entry}
use sentinel_flow_event_driv.Ingest.Handler.{handle_ingest, stamped}
use sentinel_flow_event_driv.Ingest.Consent.{anonymize_ip, check_gdpr_consent}
use sentinel_flow_event_driv.Marketing.Service.{workflow_for, contact_for}
use sentinel_flow_event_driv.Cluster.{
  broker_port, tracker_port, broker_port, tracker_port, marketing_turn, Cluster, Worker, Step,
  new_cluster, purge, export_data, fraud_turn, run,
}
use sentinel_flow_event_driv.Cluster.Private.{IsPrivate}
use sentinel_flow_event_driv.Cluster.Privacy.{run-IsPrivate}
use sentinel_flow_event_driv.Cluster.Audit.{purge-logs}
use sentinel_flow_event_driv.Cluster.Wired.{wired}
use sentinel_flow_event_driv.Cluster.Journey.{event_becomes_contact}
use sentinel_flow_event_driv.Cluster.Accounting.{count_of, run-IsBalanced}
use sentinel_flow_event_driv.Cluster.Syncing.{Move, does, begins, moves}
use sentinel_flow_event_driv.Base.Word.{add64}
use sentinel_flow_event_driv.Cluster.Erasure.{purge_erases, purge_misses_in_flight}

abbrev signup : TrackingEvent
signup = record {
  event_id = "e1";
  user_id = "u1";
  event_type = "signup";
  ip_address = "10.1.2.3";
  user_agent = "Mozilla/5.0";
  payload = [];
  timestamp = 1;
  gdpr_consent = true;
}

abbrev patient : Context
patient = record { done = λ i. false; sends_first = λ i. true }

abbrev happy_crm : CrmContact → ℕ → Fallible Unit × ℕ
happy_crm contact c = (ok tt, c)

abbrev no_table : ℕ → ℕ
no_table c = c

abbrev digest : String → String
digest s = s

abbrev one_event : List Step
one_event =
    Step.starts_fraud
    ∷ Step.starts_marketing
    ∷ Step.ingests patient 1 "POST" (some signup)
    ∷ Step.turns_fraud patient (λ i. 2)
    ∷ Step.turns_marketing 3
    ∷ []

run-IsPrivate_example : IsPrivate (run happy_crm no_table digest one_event (new_cluster 4 0 7))
run-IsPrivate_example = run-IsPrivate happy_crm no_table digest 4 0 7 one_event

-- The same event, with another request while the worker is in its call of the CRM.
abbrev slow_sync : List Move
slow_sync =
    does Step.starts_fraud
    ∷ does Step.starts_marketing
    ∷ does (Step.ingests patient 1 "POST" (some signup))
    ∷ does (Step.turns_fraud patient (λ i. 2))
    ∷ begins 3
    ∷ does (Step.ingests patient 4 "POST" (some signup))
    ∷ []

run-IsBalanced_example :
    let (w, under_way) = moves happy_crm no_table digest slow_sync (new_cluster 4 0 7, none) in
    w.tracker.crm_attempts
    ≡ add64 (add64 w.tracker.crm_successes w.tracker.crm_failures) (count_of under_way)
run-IsBalanced_example = run-IsBalanced happy_crm no_table digest 4 0 7 slow_sync

u1_given : ◌≢◌ {A = String} "u1" ""
u1_given = ground (arith, eq_iff "u1" "")

u1_differs : ◌≢◌ {A = String} "u1" "u2"
u1_differs = ground (arith, eq_iff "u1" "u2")

-- An event waits in the channel, and one contact is stored.
abbrev waiting : Cluster ℕ
waiting = record {
  broker = record {
    raw_subs = record { buffer = signup ∷ []; capacity = 4; shut = false; panicked = false } ∷ [];
    screened_subs = [];
    closed = false;
    buffer_size = 4;
  };
  rule_state = new_rule_state;
  fraud_repo = record { events = ("u2", []) ∷ [] };
  marketing_repo = record {
    crm =
        (
          "u1",
          record {
            user_id = "u1";
            email = "u1@example.com";
            workflow_triggered = "Welcome & Onboarding Campaign";
            sync_status = "synced";
            synced_at = 1;
            retry_count = 0;
          },
        )
        ∷ [];
    privacy = [];
  };
  tracker = record {
    start_time = 0;
    total_received = 1;
    legitimate = 0;
    fraudulent = 0;
    crm_attempts = 0;
    crm_successes = 0;
    crm_failures = 0;
  };
  crm_state = 0;
  fraud_worker = Worker.listening 0;
  marketing_worker = Worker.idle;
}

purge_erases_example :
    let (reply, w') = purge digest 5 6 "POST" (some "u1") waiting in
    (reply.status_code ≡ 200)
    × (export_data 7 "GET" "u1" w'
        ≡ json_reply 200 (
            exported (record { user_id = "u1"; events = []; crm_contact = none; exported_at = 7 })))
    × (Fraud.get_events_by_user_id "u2" w'.fraud_repo
        ≡ Fraud.get_events_by_user_id "u2" waiting.fraud_repo)
    × (Marketing.get_crm_contact "u2" w'.marketing_repo
        ≡ Marketing.get_crm_contact "u2" waiting.marketing_repo)
purge_erases_example = purge_erases digest 5 6 7 "u1" "u2" waiting u1_given u1_differs

purge_misses_in_flight_example :
    Fraud.get_events_by_user_id "u1"
      (fraud_turn
        (standard_rules no_table)
        patient
        (λ i. 8)
        (Worker.listening 0)
        (purge digest 5 6 "POST" (some "u1") waiting).1).fraud_repo
    ≡ (judge (standard_rules no_table) signup (λ i. 8) new_rule_state).0 ∷ []
unfolding receive_raw receive receive_from
purge_misses_in_flight_example =
    purge_misses_in_flight digest 5 6 (standard_rules no_table) patient (λ i. 8) 0 signup waiting
      u1_given refl

hash_differs : ◌≢◌ {A = String} (append "u1" salt) "u1"
hash_differs = ground (arith, eq_iff (append "u1" salt) "u1")

purge-logs_example :
    let w' = (purge digest 5 6 "POST" (some "u1") waiting).1 in
    let entry = purge_entry digest 5 6 "u1" in
    (Marketing.get_privacy_logs_by_user_id (append "u1" salt) w'.marketing_repo
      ≡ Marketing.get_privacy_logs_by_user_id (append "u1" salt) waiting.marketing_repo
        ++ entry ∷ [])
    × (entry.user_id ≡ append "u1" salt)
    × (entry.action ≡ "GDPR_PURGE")
    × (Marketing.get_privacy_logs_by_user_id "u1" w'.marketing_repo
        ≡ Marketing.get_privacy_logs_by_user_id "u1" waiting.marketing_repo)
purge-logs_example = purge-logs digest 5 6 "u1" "u1" waiting u1_given hash_differs

abbrev quiet : Cluster ℕ
quiet = record waiting { broker = wired 4 [] [] }

-- The verdict on the signup, as the rules compute it.
abbrev verdict : ScreenedEvent
verdict = record {
  tracking_event = record signup { ip_address = "10.1.2.0" };
  is_fraudulent = false;
  fraud_score = 0;
  fraud_reason = "";
  screened_at = 2;
}

event_becomes_contact_example :
    let accepted = handle_ingest broker_port tracker_port patient 1 "POST" (some signup) quiet in
    let screened =
      fraud_turn (standard_rules no_table) patient (λ i. 2) (Worker.listening 0) accepted.1 in
    let synced = marketing_turn happy_crm 3 (Worker.listening 0) screened in
    (accepted.0.status_code ≡ 202)
    × (screened.fraud_repo ≡ Fraud.save_event verdict quiet.fraud_repo)
    × (Marketing.get_crm_contact "u1" synced.marketing_repo
        ≡ ok (record (contact_for "Welcome & Onboarding Campaign" 3 verdict) {
          sync_status = "synced";
        }))
unfolding judge stamped anonymize_ip check_gdpr_consent workflow_for standard_rules
    geo_velocity_rule lookup rate_limit_rule bot_rule contains to_lower
event_becomes_contact_example =
    event_becomes_contact happy_crm (standard_rules no_table) patient 4 1 3 (λ i. 2)
      "Welcome & Onboarding Campaign" signup quiet refl (λ i. refl) (omega arith) refl refl refl
      refl

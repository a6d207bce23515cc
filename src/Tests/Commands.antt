-- ===== src/Tests/Commands.antt =====
-- The other commands, and the shutdown, on a few requests.
use sentinel_flow_event_driv.Base.{ℕ, ◌≡◌, refl, true, false, String, some, [], ◌∷◌, List, map}
use sentinel_flow_event_driv.Events.{TrackingEvent}
use sentinel_flow_event_driv.Broker.{new_in_memory_broker, close}
use sentinel_flow_event_driv.Broker.Subscription.{Context}
use sentinel_flow_event_driv.Broker.Waiting.{AllContinue}
use sentinel_flow_event_driv.Ports.{Fallible, ok, CrmContact}
use sentinel_flow_event_driv.Ingest.Consent.{check_gdpr_consent}
use sentinel_flow_event_driv.Ingest.Handler.{handle_ingest}
use sentinel_flow_event_driv.Cluster.{Cluster, Worker, broker_port, tracker_port, run, new_cluster}
use sentinel_flow_event_driv.Cluster.Wired.{wired}
use sentinel_flow_event_driv.Commands.{post_step, ingest_main, PendingRequest, shutdown}
use sentinel_flow_event_driv.Commands.Isolated.{ingest_queues_for_nobody}
use sentinel_flow_event_driv.Commands.Shutdown.{shutdown_drops_the_queued}

abbrev signup : TrackingEvent
signup = record {
  event_id = "e1";
  user_id = "u1";
  event_type = "signup";
  ip_address = "10.1.2.3";
  user_agent = "Mozilla/5.0";
  payload = [];
  timestamp = 1;
  gdpr_consent = true;
}

abbrev patient : Context
patient = record { done = λ i. false; sends_first = λ i. true }

abbrev happy_crm : CrmContact → ℕ → Fallible Unit × ℕ
happy_crm contact c = (ok tt, c)

abbrev no_table : ℕ → ℕ
no_table c = c

abbrev digest : String → String
digest s = s

ingest_queues_for_nobody_example :
    let w =
      run happy_crm no_table digest
        (map post_step ((patient, 3, "POST", some signup) ∷ []))
        (ingest_main 1 0) in
    let (reply, w') = handle_ingest broker_port tracker_port patient 4 "POST" (some signup) w in
    (reply.status_code ≡ 202) × (w'.broker ≡ new_in_memory_broker 10000)
unfolding check_gdpr_consent
ingest_queues_for_nobody_example =
    ingest_queues_for_nobody happy_crm no_table digest 1 4 0 patient
      ((patient, 3, "POST", some signup) ∷ []) signup (refl, refl)

-- One event waits when the signal comes, and one more is posted.
abbrev busy : Cluster ℕ
busy = record (new_cluster 4 0 0) {
  broker = wired 4 (signup ∷ []) [];
  fraud_worker = Worker.listening 0;
  marketing_worker = Worker.listening 0;
}

abbrev last_post : List PendingRequest
last_post = PendingRequest.posts patient 3 "POST" (some signup) ∷ []

shutdown_drops_the_queued_example :
    let w' = run happy_crm no_table digest (shutdown last_post) busy in
    (w'.rule_state ≡ busy.rule_state)
    × (w'.tracker.legitimate ≡ busy.tracker.legitimate)
    × (w'.tracker.fraudulent ≡ busy.tracker.fraudulent)
    × (w'.tracker.crm_attempts ≡ busy.tracker.crm_attempts)
    × (w'.crm_state ≡ busy.crm_state)
    × (w'.broker.closed ≡ true)
    × (w'.broker.screened_subs ≡ (close busy.broker).screened_subs)
    × AllContinue busy.broker.raw_subs w'.broker.raw_subs
    × (w'.fraud_worker ≡ Worker.returned)
    × (w'.marketing_worker ≡ Worker.returned)
shutdown_drops_the_queued_example =
    shutdown_drops_the_queued happy_crm no_table digest last_post busy

-- ===== src/Commands/Shutdown.antt =====
-- What the shutdown of the processes leaves undone.
use sentinel_flow_event_driv.Base.{
  ℕ, ◌≡◌, refl, ◌∙◌, inl, inr, String, true, Option, none, some, List, [], ◌∷◌, ◌++◌, map, str_eq,
  Bool-cases, Holds-if,
}
use sentinel_flow_event_driv.Base.Word.{Time}
use sentinel_flow_event_driv.Events.{TrackingEvent}
use sentinel_flow_event_driv.Broker.{publish_raw, close}
use sentinel_flow_event_driv.Broker.Subscription.{Context}
use sentinel_flow_event_driv.Broker.Waiting.{
  AllContinue, all_continue, publish_raw-Continue, publish_raw-others, close-raw_subs,
  close-screened_subs,
}
use sentinel_flow_event_driv.Ports.{Fallible, CrmContact}
use sentinel_flow_event_driv.Http.{Reply}
use sentinel_flow_event_driv.Fraud.Service.{event_service}
use sentinel_flow_event_driv.Fraud.Memory as Fraud
use sentinel_flow_event_driv.Analytics.Memory.{increment_metric}
use sentinel_flow_event_driv.Marketing.Handlers.{handle_gdpr_delete, finish_purge}
use sentinel_flow_event_driv.Ingest.Handler.{handle_ingest}
use sentinel_flow_event_driv.Ingest.Handler.Gate.{handle_ingest-Holds}
use sentinel_flow_event_driv.Cluster.{
  Cluster, Worker, Step, broker_port, tracker_port, step, run, purge,
}
use sentinel_flow_event_driv.Commands.{PendingRequest, posts, purges, request_step, shutdown}

module _ {C : Type 0} (past : Cluster C) where
  -- No event was screened and none was consumed since, and both workers have returned.
  abbrev pub IsStopped : Cluster C → Type 0
  IsStopped w =
      (w.rule_state ≡ past.rule_state)
      × (w.tracker.legitimate ≡ past.tracker.legitimate)
      × (w.tracker.fraudulent ≡ past.tracker.fraudulent)
      × (w.tracker.crm_attempts ≡ past.tracker.crm_attempts)
      × (w.crm_state ≡ past.crm_state)
      × (w.broker.closed ≡ past.broker.closed)
      × (w.broker.screened_subs ≡ past.broker.screened_subs)
      × AllContinue past.broker.raw_subs w.broker.raw_subs
      × (w.fraud_worker ≡ Worker.returned)
      × (w.marketing_worker ≡ Worker.returned)

  publish-IsStopped :
      (ctx : Context) (event : TrackingEvent) (w : Cluster C)
      → IsStopped w
      → IsStopped (record w { broker = (publish_raw ctx event w.broker).1 })
  publish-IsStopped ctx event w
        (rules, legit, fraud, crm, state, shut, screened, raw, back, back') =
      let (same_shut, same_screened) = publish_raw-others ctx event w.broker in
      let raw' = publish_raw-Continue past.broker.raw_subs ctx event w.broker raw in
      (
        rules,
        legit,
        fraud,
        crm,
        state,
        same_shut ∙ shut,
        same_screened ∙ screened,
        raw',
        back,
        back',
      )

  ingest-IsStopped :
      (ctx : Context) (now : Time) (method : String) (decoded : Option TrackingEvent)
      (w : Cluster C)
      → IsStopped w
      → IsStopped (handle_ingest broker_port tracker_port ctx now method decoded w).1
  unfolding increment_metric
  ingest-IsStopped =
      handle_ingest-Holds broker_port tracker_port IsStopped (λ w h. h)
        (λ ctx event w clean h. publish-IsStopped ctx event w h)

  purge-IsStopped :
      (sha256_hex : String → String) (now later : Time) (method : String) (decoded : Option String)
      (w : Cluster C)
      → IsStopped w
      → IsStopped (purge sha256_hex now later method decoded w).1
  unfolding purge handle_gdpr_delete event_service finish_purge Fraud.delete_user_events
      Fraud.delete_own_events Fraud.after_delete
  purge-IsStopped sha256_hex now later method none w h =
      Holds-if (λ (p : Reply String × Cluster C). IsStopped p.1) (str_eq method "POST") h h
  purge-IsStopped sha256_hex now later method (some user_id) w h =
      Holds-if (λ (p : Reply String × Cluster C). IsStopped p.1) (str_eq method "POST")
        (elim (Bool-cases (str_eq user_id "")) [
          | inl missing ↦ rw missing h
          | inr given ↦ rw given h
        ])
        h

  module _ (crm : CrmContact → C → Fallible Unit × C) (table : ℕ → ℕ)
      (sha256_hex : String → String) where
    run-IsStopped :
        (in_flight : List PendingRequest) (w : Cluster C)
        → IsStopped w
        → (w' : Cluster C) × (run crm table sha256_hex
              (map request_step in_flight ++ Step.closes ∷ [])
              w
            ≡ record w' { broker = close w'.broker })
          × IsStopped w'
    unfolding run step request_step
    run-IsStopped [] w h = (w, refl, h)
    run-IsStopped (posts ctx now method decoded ∷ in_flight) w h =
        run-IsStopped in_flight _ (ingest-IsStopped ctx now method decoded w h)
    run-IsStopped (purges now later method decoded ∷ in_flight) w h =
        run-IsStopped in_flight _ (purge-IsStopped sha256_hex now later method decoded w h)

-- From the moment when both workers have returned, whatever requests the servers still answer: no event
-- is screened any more and no contact is sent, the closed broker keeps in its channels all that waited
-- in them, and nobody is left to receive it.
pub shutdown_drops_the_queued :
    {C : Type 0} (crm : CrmContact → C → Fallible Unit × C) (table : ℕ → ℕ)
    (sha256_hex : String → String) (in_flight : List PendingRequest) (w : Cluster C)
    → let w' = run crm table sha256_hex (shutdown in_flight) w in
      (w'.rule_state ≡ w.rule_state)
      × (w'.tracker.legitimate ≡ w.tracker.legitimate)
      × (w'.tracker.fraudulent ≡ w.tracker.fraudulent)
      × (w'.tracker.crm_attempts ≡ w.tracker.crm_attempts)
      × (w'.crm_state ≡ w.crm_state)
      × (w'.broker.closed ≡ true)
      × (w'.broker.screened_subs ≡ (close w.broker).screened_subs)
      × AllContinue w.broker.raw_subs w'.broker.raw_subs
      × (w'.fraud_worker ≡ Worker.returned)
      × (w'.marketing_worker ≡ Worker.returned)
unfolding shutdown run step
shutdown_drops_the_queued crm table sha256_hex in_flight w =
    let stopped = record w { fraud_worker = Worker.returned; marketing_worker = Worker.returned } in
    let (w', done, (rules, legit, fraud, attempts, state, shut, screened, raw, back, back')) =
      run-IsStopped w crm table sha256_hex in_flight stopped
        (refl, refl, refl, refl, refl, refl, refl, all_continue w.broker.raw_subs, refl, refl) in
    let (closed, kept) = close-screened_subs w.broker w'.broker shut screened in
    let still = close-raw_subs w.broker.raw_subs w'.broker raw in
    rw done (rules, legit, fraud, attempts, state, closed, kept, still, back, back')

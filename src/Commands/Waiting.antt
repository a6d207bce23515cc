-- ===== src/Commands/Waiting.antt =====
-- The commands that run one worker alone: the worker waits.
use sentinel_flow_event_driv.Base.{
  ℕ, ◌≡◌, ◌≢◌, refl, ap, ◌∙◌, inl, inr, String, true, false, Option, none, some, List, [], ◌∷◌, map,
  ◌⊎◌, str_eq, Bool-cases, Holds-if, if◌then◌else◌,
}
use sentinel_flow_event_driv.Base.Dict.{Dict, lookup, erase}
use sentinel_flow_event_driv.Base.Word.{Time}
use sentinel_flow_event_driv.Broker.{
  InMemoryBroker, new_in_memory_broker, close, subscribe_raw, subscribe_screened, receive_raw,
  receive_screened,
}
use sentinel_flow_event_driv.Broker.Subscription.{Context, make_channel, receive, receive_from}
use sentinel_flow_event_driv.Ports.{Fallible, CrmContact}
use sentinel_flow_event_driv.Http.{Reply, json_reply}
use sentinel_flow_event_driv.Fraud.Service.{event_service}
use sentinel_flow_event_driv.Fraud.Memory as Fraud
use sentinel_flow_event_driv.Fraud.Memory.{or_empty}
use sentinel_flow_event_driv.Marketing.Memory as Marketing
use sentinel_flow_event_driv.Marketing.Handlers.{exported, handle_gdpr_delete, finish_purge}
use sentinel_flow_event_driv.Cluster.{
  Cluster, Worker, Step, new_cluster, step, run, start_fraud, start_marketing, fraud_turn,
  fraud_case, marketing_turn, marketing_case, purge, export_data,
}
use sentinel_flow_event_driv.Cluster.Erasure.{export_shows}
use sentinel_flow_event_driv.Monolith.Boot.{up, exits, getenv}
use sentinel_flow_event_driv.Commands.{
  fraud_main, marketing_main, fraud_step, marketing_step, MarketingEvent, erases, consumes,
}

-- The broker of a command with one worker of a kind.
abbrev one_raw : InMemoryBroker
one_raw = record {
  raw_subs = record { buffer = []; capacity = 10000; shut = false; panicked = false } ∷ [];
  screened_subs = [];
  closed = false;
  buffer_size = 10000;
}

abbrev one_screened : InMemoryBroker
one_screened = record {
  raw_subs = [];
  screened_subs = record { buffer = []; capacity = 10000; shut = false; panicked = false } ∷ [];
  closed = false;
  buffer_size = 10000;
}

module _ {C : Type 0} where
  abbrev fraud_started : Time → C → Cluster C
  fraud_started now c = record (new_cluster 10000 now c) {
    broker = one_raw;
    fraud_worker = Worker.listening 0;
  }

  -- A crash is asked for, or the worker listens.
  fraud_main_lem :
      (env : Dict String) (now : Time) (c : C)
      → fraud_main env now c ≡ (
          if str_eq (getenv env "BE_CRASHER") "1"
          then exits "[Fraud] Service crashed" "broker is closed"
          else up (fraud_started now c))
  unfolding fraud_main start_fraud new_cluster new_in_memory_broker close subscribe_raw make_channel
  fraud_main_lem env now c = elim (Bool-cases (str_eq (getenv env "BE_CRASHER") "1")) [
    | inl h ↦ rw h refl
    | inr h ↦ rw h refl
  ]

  abbrev marketing_started : Time → C → Cluster C
  marketing_started now c = record (new_cluster 10000 now c) {
    broker = one_screened;
    marketing_worker = Worker.listening 0;
  }

  marketing_main_lem :
      (env : Dict String) (now : Time) (c : C)
      → (marketing_main env now c).0 ≡ (
          if str_eq (getenv env "BE_CRASHER_CONSUMER") "1"
          then exits "[Marketing] Consumer failed" "broker is closed"
          else up (marketing_started now c))
  unfolding marketing_main start_marketing new_cluster new_in_memory_broker close subscribe_screened
      make_channel
  marketing_main_lem env now c = elim (Bool-cases (str_eq (getenv env "BE_CRASHER_CONSUMER") "1")) [
    | inl h ↦ rw h refl
    | inr h ↦ rw h refl
  ]

  -- The marketing worker listens to an empty channel, and the repositories know no user.
  abbrev KnowsNobody : Cluster C → Type 0
  KnowsNobody w =
      (w.broker ≡ one_screened)
      × (w.marketing_worker ≡ Worker.listening 0)
      × (w.fraud_repo.events ≡ [])
      × (w.marketing_repo.crm ≡ [])

  purge-KnowsNobody :
      (sha256_hex : String → String) (now later : Time) (method : String) (decoded : Option String)
      (w : Cluster C)
      → KnowsNobody w
      → KnowsNobody (purge sha256_hex now later method decoded w).1
  unfolding purge handle_gdpr_delete event_service finish_purge Fraud.delete_user_events
      Fraud.delete_own_events Fraud.after_delete Marketing.delete_crm_contact
      Marketing.save_privacy_log erase
  purge-KnowsNobody sha256_hex now later method none w h =
      Holds-if (λ (p : Reply String × Cluster C). KnowsNobody p.1) (str_eq method "POST") h h
  purge-KnowsNobody sha256_hex now later method (some user_id) w
        (waits, listens, no_events, no_contacts) =
      Holds-if (λ (p : Reply String × Cluster C). KnowsNobody p.1) (str_eq method "POST")
        (elim (Bool-cases (str_eq user_id "")) [
          | inl missing ↦ rw missing (waits, listens, no_events, no_contacts)
          | inr given ↦ rw given (waits, listens, rw no_events refl, rw no_contacts refl)
        ])
        (waits, listens, no_events, no_contacts)

module _ {C : Type 0} (crm : CrmContact → C → Fallible Unit × C) (table : ℕ → ℕ)
    (sha256_hex : String → String) where
  turn-KnowsNobody :
      (now : Time) (w : Cluster C)
      → KnowsNobody w
      → KnowsNobody (step crm table sha256_hex (Step.turns_marketing now) w)
  unfolding step marketing_turn receive_screened receive receive_from marketing_case
  turn-KnowsNobody now w (waits, listens, no_events, no_contacts) =
      rw (listens, waits) (refl, refl, no_events, no_contacts)

  run-KnowsNobody :
      (happens : List MarketingEvent) (w : Cluster C)
      → KnowsNobody w
      → KnowsNobody (run crm table sha256_hex (map marketing_step happens) w)
  unfolding run marketing_step
  run-KnowsNobody [] w h = h
  run-KnowsNobody (erases now later method decoded ∷ happens) w h =
      run-KnowsNobody happens _
        (unfold step in purge-KnowsNobody sha256_hex now later method decoded w h)
  run-KnowsNobody (consumes now ∷ happens) w h =
      run-KnowsNobody happens _ (turn-KnowsNobody now w h)

  run_waits :
      (now : Time) (c : C) (turns : List (Context × (ℕ → Time)))
      → run crm table sha256_hex (map fraud_step turns) (fraud_started now c) ≡ fraud_started now c
  unfolding run step fraud_step fraud_turn receive_raw receive receive_from fraud_case
  run_waits now c [] = refl
  run_waits now c ((ctx, clock) ∷ turns) = run_waits now c turns

  -- The fraud worker on its own exits where BE_CRASHER is 1. Otherwise it starts, and none of its
  -- turns changes anything: it never gets an event.
  pub fraud_worker_waits :
      (env : Dict String) (now : Time) (c : C) (turns : List (Context × (ℕ → Time)))
      → (str_eq (getenv env "BE_CRASHER") "1" ≡ true)
          × (fraud_main env now c ≡ exits "[Fraud] Service crashed" "broker is closed")
        ⊎ ((w : Cluster C) × (fraud_main env now c ≡ up w)
            × (run crm table sha256_hex (map fraud_step turns) w ≡ w))
  fraud_worker_waits env now c turns = elim (Bool-cases (str_eq (getenv env "BE_CRASHER") "1")) [
    | inl h ↦ inl (h, fraud_main_lem env now c ∙ rw h refl)
    | inr h ↦ inr (fraud_started now c, fraud_main_lem env now c ∙ rw h refl, run_waits now c turns)
  ]

  -- The marketing service on its own exits where BE_CRASHER_CONSUMER is 1. Otherwise it starts, and
  -- after any purges and turns of its worker an export of any user shows no event and no contact.
  pub marketing_knows_nobody :
      (env : Dict String) (now then_ : Time) (c : C) (happens : List MarketingEvent)
      (user_id : String)
      → user_id ≢ ""
      → (str_eq (getenv env "BE_CRASHER_CONSUMER") "1" ≡ true)
          × ((marketing_main env now c).0 ≡ exits "[Marketing] Consumer failed" "broker is closed")
        ⊎ ((w : Cluster C) × ((marketing_main env now c).0 ≡ up w)
            × (export_data then_ "GET" user_id
                  (run crm table sha256_hex (map marketing_step happens) w)
                ≡ json_reply 200 (
                    exported (record {
                      user_id = user_id;
                      events = [];
                      crm_contact = none;
                      exported_at = then_;
                    }))))
  unfolding new_cluster Fraud.get_events_by_user_id lookup
  marketing_knows_nobody env now then_ c happens user_id given =
      elim (Bool-cases (str_eq (getenv env "BE_CRASHER_CONSUMER") "1")) [
        | inl h ↦ inl (h, marketing_main_lem env now c ∙ rw h refl)
        | inr h ↦
            let w = marketing_started now c in
            let w' = run crm table sha256_hex (map marketing_step happens) w in
            let (_, _, no_events, no_contacts) =
              run-KnowsNobody happens w (refl, refl, refl, refl) in
            inr (
              w,
              marketing_main_lem env now c ∙ rw h refl,
              export_shows then_ user_id w' given (ap (λ m. or_empty (lookup user_id m)) no_events)
                  (ap (lookup user_id) no_contacts),
            )
      ]

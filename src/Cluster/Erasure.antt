-- ===== src/Cluster/Erasure.antt =====
-- What a purge by the GDPR handler takes out of the cluster, and what it leaves in.
use sentinel_flow_event_driv.Base.{
  ℕ, ◌≡◌, ◌≢◌, refl, ◌∙◌, String, none, some, List, [], ◌∷◌, if◌then◌else◌, str_eq, str_eq-ne,
  eq_refl, arith, ap,
}
use sentinel_flow_event_driv.Base.Dict.{lookup, erase, lookup-insert, lookup-erase}
use sentinel_flow_event_driv.Base.Word.{Time}
use sentinel_flow_event_driv.Events.{TrackingEvent, ScreenedEvent}
use sentinel_flow_event_driv.Broker.{receive_raw}
use sentinel_flow_event_driv.Broker.Subscription.{Context, item}
use sentinel_flow_event_driv.Http.{json_reply}
use sentinel_flow_event_driv.Fraud.Rules.{FraudRule}
use sentinel_flow_event_driv.Fraud.Service.{judge, screen_event, event_service}
use sentinel_flow_event_driv.Fraud.Memory as Fraud
use sentinel_flow_event_driv.Fraud.Memory.{MemoryFraudRepository, or_empty}
use sentinel_flow_event_driv.Marketing.Memory as Marketing
use sentinel_flow_event_driv.Marketing.Memory.{or_not_found, MemoryMarketingRepository}
use sentinel_flow_event_driv.Marketing.Handlers.{
  handle_gdpr_delete, finish_purge, handle_ccpa_export, finish_export, exported,
}
use sentinel_flow_event_driv.Cluster.{
  Cluster, Worker, purge, export_data, fraud_turn, fraud_case, screen,
}

module _ {C : Type 0} where
  -- The repositories that a purge leaves.
  abbrev pub erased_fraud : String → Cluster C → MemoryFraudRepository
  erased_fraud user_id w = record { events = erase user_id w.fraud_repo.events }

  purge-fraud_repo :
      (sha256_hex : String → String) (now later : Time) (user_id : String) (w : Cluster C)
      → user_id ≢ ""
      → (purge sha256_hex now later "POST" (some user_id) w).1.fraud_repo ≡ erased_fraud user_id w
  unfolding purge handle_gdpr_delete event_service finish_purge Fraud.delete_user_events
      Fraud.delete_own_events Fraud.after_delete
  purge-fraud_repo sha256_hex now later user_id w given = rw (str_eq-ne user_id "" given)

  purge-crm :
      (sha256_hex : String → String) (now later : Time) (user_id : String) (w : Cluster C)
      → user_id ≢ ""
      → (purge sha256_hex now later "POST" (some user_id) w).1.marketing_repo.crm
        ≡ erase user_id (erase user_id w.marketing_repo.crm)
  unfolding purge handle_gdpr_delete event_service finish_purge Fraud.delete_user_events
      Fraud.delete_own_events Fraud.after_delete Marketing.delete_crm_contact
      Marketing.save_privacy_log
  purge-crm sha256_hex now later user_id w given = rw (str_eq-ne user_id "" given)

  purge-status :
      (sha256_hex : String → String) (now later : Time) (user_id : String) (w : Cluster C)
      → user_id ≢ ""
      → (purge sha256_hex now later "POST" (some user_id) w).0.status_code ≡ 200
  unfolding purge handle_gdpr_delete event_service finish_purge Fraud.delete_user_events
  purge-status sha256_hex now later user_id w given = rw (str_eq-ne user_id "" given)

  purge-broker :
      (sha256_hex : String → String) (now later : Time) (user_id : String) (w : Cluster C)
      → user_id ≢ ""
      → ((purge sha256_hex now later "POST" (some user_id) w).1.broker ≡ w.broker)
        × ((purge sha256_hex now later "POST" (some user_id) w).1.rule_state ≡ w.rule_state)
  unfolding purge handle_gdpr_delete event_service finish_purge Fraud.delete_user_events
  purge-broker sha256_hex now later user_id w given = rw (str_eq-ne user_id "" given) (refl, refl)

  events_left :
      (user_id other : String) (w : Cluster C)
      → Fraud.get_events_by_user_id other (erased_fraud user_id w)
        ≡ (if str_eq user_id other then [] else Fraud.get_events_by_user_id other w.fraud_repo)
  unfolding Fraud.get_events_by_user_id
  events_left user_id other w = ground (arith, lookup-erase user_id other w.fraud_repo.events)

  contact_left :
      (user_id other : String) (w : Cluster C)
      → lookup other (erase user_id (erase user_id w.marketing_repo.crm))
        ≡ (if str_eq user_id other then none else lookup other w.marketing_repo.crm)
  contact_left user_id other w = ground (
    arith,
    lookup-erase user_id other (erase user_id w.marketing_repo.crm),
    lookup-erase user_id other w.marketing_repo.crm,
  )

  pub export_shows :
      (now : Time) (user_id : String) (w : Cluster C)
      → user_id ≢ ""
      → Fraud.get_events_by_user_id user_id w.fraud_repo ≡ []
      → lookup user_id w.marketing_repo.crm ≡ none
      → export_data now "GET" user_id w
        ≡ json_reply 200 (
            exported
              (record { user_id = user_id; events = []; crm_contact = none; exported_at = now }))
  unfolding export_data handle_ccpa_export event_service finish_export Marketing.get_crm_contact
  export_shows now user_id w given no_events no_contact =
      rw (str_eq-ne user_id "" given, no_events, no_contact)

-- A purge of a user answers 200, whatever is stored. An export of that user's data right after it
-- shows no event and no contact, and the events and the contact of every other user are as they were.
pub purge_erases :
    {C : Type 0} (sha256_hex : String → String) (now later then_ : Time) (user_id other : String)
    (w : Cluster C)
    → user_id ≢ ""
    → user_id ≢ other
    → let (reply, w') = purge sha256_hex now later "POST" (some user_id) w in
      (reply.status_code ≡ 200)
      × (export_data then_ "GET" user_id w'
          ≡ json_reply 200 (
              exported (record {
                user_id = user_id;
                events = [];
                crm_contact = none;
                exported_at = then_;
              })))
      × (Fraud.get_events_by_user_id other w'.fraud_repo
          ≡ Fraud.get_events_by_user_id other w.fraud_repo)
      × (Marketing.get_crm_contact other w'.marketing_repo
          ≡ Marketing.get_crm_contact other w.marketing_repo)
purge_erases sha256_hex now later then_ user_id other w given differs =
    let repo = purge-fraud_repo sha256_hex now later user_id w given in
    let crm = purge-crm sha256_hex now later user_id w given in
    let self = str_eq-ne user_id other differs in
    (
      purge-status sha256_hex now later user_id w given,
      export_shows then_ user_id (purge sha256_hex now later "POST" (some user_id) w).1 given
          (ap (Fraud.get_events_by_user_id user_id) repo
            ∙ events_left user_id user_id w
            ∙ rw (eq_refl user_id))
          (ap (lookup user_id) crm ∙ contact_left user_id user_id w ∙ rw (eq_refl user_id)),
      ap (Fraud.get_events_by_user_id other) repo ∙ events_left user_id other w ∙ rw self,
      unfold Marketing.get_crm_contact in
          ap or_not_found (ap (lookup other) crm ∙ contact_left user_id other w ∙ rw self),
    )

pub events_after_save :
    (event : ScreenedEvent) (m : MemoryFraudRepository)
    → Fraud.get_events_by_user_id event.user_id m ≡ []
    → Fraud.get_events_by_user_id event.user_id (Fraud.save_event event m) ≡ event ∷ []
unfolding Fraud.get_events_by_user_id Fraud.save_event
events_after_save event m none_yet =
    rw (lookup-insert event.user_id event.user_id, eq_refl event.user_id, none_yet)

turn_stores :
    {C : Type 0} (rules : List FraudRule) (ctx : Context) (clock : ℕ → Time) (place : ℕ)
    (event : TrackingEvent) (w : Cluster C)
    → (receive_raw place w.broker).0 ≡ some (item event)
    → Fraud.get_events_by_user_id event.user_id w.fraud_repo ≡ []
    → Fraud.get_events_by_user_id event.user_id
        (fraud_turn rules ctx clock (Worker.listening place) w).fraud_repo
      ≡ (judge rules event clock w.rule_state).0 ∷ []
unfolding fraud_turn
turn_stores rules ctx clock place event w waits cleared = rw waits (
    unfold fraud_case screen screen_event in
    events_after_save (judge rules event clock w.rule_state).0 w.fraud_repo
      (unfold judge in cleared))

-- A purge does not reach an event that still waits in the channel of the fraud worker: the worker's
-- next turn stores it, so that the repository holds that event of the user again.
pub purge_misses_in_flight :
    {C : Type 0} (sha256_hex : String → String) (now later : Time) (rules : List FraudRule)
    (ctx : Context) (clock : ℕ → Time) (place : ℕ) (event : TrackingEvent) (w : Cluster C)
    → event.user_id ≢ ""
    → (receive_raw place w.broker).0 ≡ some (item event)
    → Fraud.get_events_by_user_id event.user_id
        (fraud_turn rules ctx clock
          (Worker.listening place)
          (purge sha256_hex now later "POST" (some event.user_id) w).1).fraud_repo
      ≡ (judge rules event clock w.rule_state).0 ∷ []
purge_misses_in_flight sha256_hex now later rules ctx clock place event w given waits =
    let w' = (purge sha256_hex now later "POST" (some event.user_id) w).1 in
    let (same, state) = purge-broker sha256_hex now later event.user_id w given in
    let repo = purge-fraud_repo sha256_hex now later event.user_id w given in
    let cleared : Fraud.get_events_by_user_id event.user_id w'.fraud_repo ≡ [] =
      ap (Fraud.get_events_by_user_id event.user_id) repo
      ∙ events_left event.user_id event.user_id w
      ∙ rw (eq_refl event.user_id) in
    turn_stores rules ctx clock place event w' (rw same waits) cleared ∙ rw state

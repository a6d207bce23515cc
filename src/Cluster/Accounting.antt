-- ===== src/Cluster/Accounting.antt =====
-- What the counters of the CRM say of each other, an invariant of every run.
use sentinel_flow_event_driv.Base.{
  ℕ, ◌≡◌, refl, inl, inr, String, Option, none, some, List, [], ◌∷◌, Bool-cases, Option-cases,
  Holds-if, str_eq, arith, false,
}
use sentinel_flow_event_driv.Base.Word.{add64, Time}
use sentinel_flow_event_driv.Events.{TrackingEvent, ScreenedEvent}
use sentinel_flow_event_driv.Broker.{receive_raw, receive_screened}
use sentinel_flow_event_driv.Broker.Subscription.{Context, Received, item, ended, blocks}
use sentinel_flow_event_driv.Ports.{Fallible, ok, err, CrmContact}
use sentinel_flow_event_driv.Analytics.Memory.{
  MemoryTelemetryTracker, counter_of, new_memory_telemetry_tracker, increment_metric, add_to,
}
use sentinel_flow_event_driv.Fraud.Rules.{FraudRule}
use sentinel_flow_event_driv.Fraud.Service.{judge, screen_event, event_service, standard_rules}
use sentinel_flow_event_driv.Ingest.Handler.Gate.{handle_ingest-Holds}
use sentinel_flow_event_driv.Marketing.Service.{workflow_for, record_sync}
use sentinel_flow_event_driv.Marketing.Handlers.{handle_gdpr_delete, finish_purge, has_user_id}
use sentinel_flow_event_driv.Cluster.{
  Cluster, Worker, new_cluster, tracker_port, broker_port, marketing_port, crm_port, screen,
  start_fraud, start_marketing, fraud_case, fraud_turn, marketing_turn, purge, Step, step,
}
use sentinel_flow_event_driv.Cluster.Syncing.{
  begin_workflow, begin_case, begin_turn, finish_sync, finish_turn, finish-begin, Move, does,
  begins, finishes, is_turn, move, moves,
}

-- The attempts are the successes, the failures and the syncs under way together, as int64.
abbrev pub IsBalanced : ℕ → MemoryTelemetryTracker → Type 0
IsBalanced under_way m = m.crm_attempts ≡ add64 (add64 m.crm_successes m.crm_failures) under_way

-- How many contacts are under way to the CRM.
abbrev pub count_of : Option CrmContact → ℕ
count_of none = 0
count_of (some contact) = 1

begun :
    (m : MemoryTelemetryTracker)
    → IsBalanced 0 m
    → IsBalanced 1 (increment_metric "crm_attempts" 1 m)
unfolding increment_metric counter_of add_to
begun m h = omega arith

ended_well :
    (m : MemoryTelemetryTracker)
    → IsBalanced 1 m
    → IsBalanced 0 (increment_metric "crm_successes" 1 m)
      × IsBalanced 0 (increment_metric "crm_failures" 1 m)
unfolding increment_metric counter_of add_to
ended_well m h = (omega arith, omega arith)

-- A counter that is not of the CRM.
other_counter :
    (k : ℕ) (m : MemoryTelemetryTracker)
    → IsBalanced k m
    → IsBalanced k (increment_metric "total_received" 1 m)
      × IsBalanced k (increment_metric "legitimate" 1 m)
      × IsBalanced k (increment_metric "fraudulent" 1 m)
unfolding increment_metric counter_of add_to
other_counter k m h = (h, h, h)

module _ {C : Type 0} where
  -- The counters agree with what is under way.
  abbrev pub Agrees : Cluster C × Option CrmContact → Type 0
  Agrees (w, under_way) = IsBalanced (count_of under_way) w.tracker

  screen_lem :
      (k : ℕ) (rules : List FraudRule) (ctx : Context) (clock : ℕ → Time) (event : TrackingEvent)
      (w : Cluster C)
      → IsBalanced k w.tracker
      → IsBalanced k (screen rules ctx clock event w).tracker
  unfolding screen screen_event
  screen_lem k rules ctx clock event w h =
      let (_, legitimate, fraudulent) = other_counter k w.tracker h in
      elim (Bool-cases (judge rules event clock w.rule_state).0.is_fraudulent) [
        | inl fraud ↦ rw fraud fraudulent
        | inr clear ↦ rw clear legitimate
      ]

  fraud_case_lem :
      (k : ℕ) (rules : List FraudRule) (ctx : Context) (clock : ℕ → Time)
      (r : Option (Received TrackingEvent)) (w : Cluster C)
      → IsBalanced k w.tracker
      → IsBalanced k (fraud_case rules ctx clock r w).tracker
  unfolding fraud_case
  fraud_case_lem k rules ctx clock none w h = h
  fraud_case_lem k rules ctx clock (some blocks) w h = h
  fraud_case_lem k rules ctx clock (some ended) w h = h
  fraud_case_lem k rules ctx clock (some (item event)) w h = screen_lem k rules ctx clock event w h

  fraud_turn_lem :
      (k : ℕ) (rules : List FraudRule) (ctx : Context) (clock : ℕ → Time) (worker : Worker)
      (w : Cluster C)
      → IsBalanced k w.tracker
      → IsBalanced k (fraud_turn rules ctx clock worker w).tracker
  unfolding fraud_turn
  fraud_turn_lem k rules ctx clock Worker.idle w h = h
  fraud_turn_lem k rules ctx clock Worker.returned w h = h
  fraud_turn_lem k rules ctx clock (Worker.listening place) w h =
      fraud_case_lem k rules ctx clock (receive_raw place w.broker).0
        (record w { broker = (receive_raw place w.broker).1 }) h

  record_sync_lem :
      (crm : CrmContact → C → Fallible Unit × C) (contact : CrmContact) (answer : Fallible Unit)
      (w : Cluster C)
      → IsBalanced 1 w.tracker
      → IsBalanced 0
          (record_sync marketing_port tracker_port (crm_port crm) contact (answer, w)).tracker
  unfolding record_sync
  record_sync_lem crm contact (ok _) w h = (ended_well w.tracker h).0
  record_sync_lem crm contact (err _) w h = (ended_well w.tracker h).1

  begin_workflow_lem :
      (workflow : Option String) (now : Time) (event : ScreenedEvent) (w : Cluster C)
      → IsBalanced 0 w.tracker
      → Agrees (begin_workflow workflow now event w)
  unfolding begin_workflow
  begin_workflow_lem none now event w h = h
  begin_workflow_lem (some workflow) now event w h = begun w.tracker h

  begin_case_lem :
      (now : Time) (r : Option (Received ScreenedEvent)) (w : Cluster C)
      → IsBalanced 0 w.tracker
      → Agrees (begin_case now r w)
  unfolding begin_case
  begin_case_lem now none w h = h
  begin_case_lem now (some blocks) w h = h
  begin_case_lem now (some ended) w h = h
  begin_case_lem now (some (item event)) w h =
      Holds-if Agrees event.is_fraudulent h
        (begin_workflow_lem (workflow_for event.event_type) now event w h)

  begin_turn_lem :
      (now : Time) (worker : Worker) (w : Cluster C)
      → IsBalanced 0 w.tracker
      → Agrees (begin_turn now worker w)
  unfolding begin_turn
  begin_turn_lem now Worker.idle w h = h
  begin_turn_lem now Worker.returned w h = h
  begin_turn_lem now (Worker.listening place) w h =
      begin_case_lem now (receive_screened place w.broker).0
        (record w { broker = (receive_screened place w.broker).1 }) h

  finish_turn_lem :
      (crm : CrmContact → C → Fallible Unit × C) (s : Cluster C × Option CrmContact)
      → Agrees s
      → IsBalanced 0 (finish_turn crm s).tracker
  unfolding finish_turn finish_sync
  finish_turn_lem crm (w, none) h = h
  finish_turn_lem crm (w, some contact) h = record_sync_lem crm contact _ _ h

  marketing_turn_lem :
      (crm : CrmContact → C → Fallible Unit × C) (now : Time) (worker : Worker) (w : Cluster C)
      → IsBalanced 0 w.tracker
      → IsBalanced 0 (marketing_turn crm now worker w).tracker
  marketing_turn_lem crm now worker w h =
      rw (finish-begin crm now worker w) at
        (finish_turn_lem crm (begin_turn now worker w) (begin_turn_lem now worker w h))

  purge-tracker :
      (sha256_hex : String → String) (now later : Time) (method : String) (decoded : Option String)
      (w : Cluster C)
      → (purge sha256_hex now later method decoded w).1.tracker ≡ w.tracker
  unfolding purge handle_gdpr_delete event_service finish_purge
  purge-tracker sha256_hex now later method decoded w = elim (Bool-cases (str_eq method "POST")) [
    | inl post ↦ elim (Option-cases (has_user_id decoded)) [
      | inl missing ↦ rw (post, missing) refl
      | inr (user_id, given) ↦ rw (post, given) refl
    ]
    | inr other ↦ rw other refl
  ]

module _ {C : Type 0} (crm : CrmContact → C → Fallible Unit × C) (table : ℕ → ℕ)
    (sha256_hex : String → String) where
  -- A step that is not a turn of the marketing worker, whatever is under way.
  step_lem :
      (k : ℕ) (s : Step) (w : Cluster C)
      → is_turn s ≡ false
      → IsBalanced k w.tracker
      → IsBalanced k (step crm table sha256_hex s w).tracker
  unfolding step start_fraud start_marketing
  step_lem k (Step.ingests ctx now method decoded) w other h =
      handle_ingest-Holds broker_port tracker_port (λ (v : Cluster C). IsBalanced k v.tracker)
        (λ v b. (other_counter k v.tracker b).0) (λ ctx event v p b. b) ctx now method decoded w h
  step_lem k (Step.purges now later method decoded) w other h =
      rw (purge-tracker sha256_hex now later method decoded w) h
  step_lem k Step.starts_fraud w other h = h
  step_lem k Step.starts_marketing w other h = h
  step_lem k Step.stops_fraud w other h = h
  step_lem k Step.stops_marketing w other h = h
  step_lem k Step.closes w other h = h
  step_lem k (Step.turns_fraud ctx clock) w other h =
      fraud_turn_lem k (standard_rules table) ctx clock w.fraud_worker w h
  step_lem k (Step.turns_marketing now) w other h = cc

  turn_or_step :
      (s : Step) (w : Cluster C)
      → IsBalanced 0 w.tracker
      → IsBalanced 0 (step crm table sha256_hex s w).tracker
  turn_or_step (Step.turns_marketing now) w h =
      unfold step in (marketing_turn_lem crm now w.marketing_worker w h)
  turn_or_step s w h = step_lem 0 s w refl h

  move-Agrees :
      (m : Move) (s : Cluster C × Option CrmContact)
      → Agrees s
      → Agrees (move crm table sha256_hex m s)
  unfolding move
  move-Agrees (does s) (w, none) h = turn_or_step s w h
  move-Agrees (does s) (w, some contact) h = elim (Bool-cases (is_turn s)) [
    | inl turn ↦ rw turn h
    | inr other ↦ rw other (step_lem 1 s w other h)
  ]
  move-Agrees (begins now) (w, none) h = begin_turn_lem now w.marketing_worker w h
  move-Agrees (begins now) (w, some contact) h = h
  move-Agrees finishes (w, none) h = finish_turn_lem crm (w, none) h
  move-Agrees finishes (w, some contact) h = finish_turn_lem crm (w, some contact) h

  moves-Agrees :
      (ms : List Move) (s : Cluster C × Option CrmContact)
      → Agrees s
      → Agrees (moves crm table sha256_hex ms s)
  unfolding moves
  moves-Agrees [] s h = h
  moves-Agrees (m ∷ ms) s h = moves-Agrees ms (move crm table sha256_hex m s) (move-Agrees m s h)

-- At every moment of every run of a new cluster, the call of the CRM taken apart from the turn of the
-- worker that makes it, so that all other steps may come in between, and whatever the CRM does: the
-- counter of the attempts is the sum of the successes, the failures and the call that is under way, if
-- there is one, as int64.
pub run-IsBalanced :
    {C : Type 0} (crm : CrmContact → C → Fallible Unit × C) (table : ℕ → ℕ)
    (sha256_hex : String → String) (buffer_size : ℕ) (now : Time) (c : C) (ms : List Move)
    → let (w, under_way) = moves crm table sha256_hex ms (new_cluster buffer_size now c, none) in
      w.tracker.crm_attempts
      ≡ add64 (add64 w.tracker.crm_successes w.tracker.crm_failures) (count_of under_way)
unfolding new_cluster new_memory_telemetry_tracker
run-IsBalanced crm table sha256_hex buffer_size now c ms =
    moves-Agrees crm table sha256_hex ms (new_cluster buffer_size now c, none) (omega arith)

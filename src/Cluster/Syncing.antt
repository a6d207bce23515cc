-- ===== src/Cluster/Syncing.antt =====
-- The turn of the marketing worker in two parts: up to the call of `SyncContact`, which may take long,
-- and from that call on (pkg/domain/marketing/service.go). Between them the other steps go on.
use sentinel_flow_event_driv.Base.{
  ◌≡◌, refl, inl, inr, String, Bool, true, false, Option, none, some, List, [], ◌∷◌, ℕ,
  if◌then◌else◌, Bool-cases, Option-cases,
}
use sentinel_flow_event_driv.Base.Word.{Time}
use sentinel_flow_event_driv.Events.{ScreenedEvent}
use sentinel_flow_event_driv.Broker.{receive_screened}
use sentinel_flow_event_driv.Broker.Subscription.{Received, item, ended, blocks}
use sentinel_flow_event_driv.Ports.{Fallible, CrmContact}
use sentinel_flow_event_driv.Marketing.Service.{
  workflow_for, contact_for, record_sync, run_workflow, process_marketing_workflow, consume,
}
use sentinel_flow_event_driv.Cluster.{
  Cluster, Worker, Step, tracker_port, marketing_port, crm_port, marketing_case, marketing_turn,
  step,
}

module _ {C : Type 0} where
  -- What the first part leaves: the contact of the sync that is under way, if there is one.
  unfoldable pub begin_workflow :
      Option String → Time → ScreenedEvent → Cluster C → Cluster C × Option CrmContact
  begin_workflow none now event w = (w, none)
  begin_workflow (some workflow) now event w =
      (tracker_port.increment_metric "crm_attempts" 1 w, some (contact_for workflow now event))

  unfoldable pub begin_case :
      Time → Option (Received ScreenedEvent) → Cluster C → Cluster C × Option CrmContact
  unfolding begin_workflow
  begin_case now none w = (w, none)
  begin_case now (some blocks) w = (w, none)
  begin_case now (some ended) w = (record w { marketing_worker = Worker.returned }, none)
  begin_case now (some (item event)) w =
      if event.is_fraudulent
      then (w, none)
      else begin_workflow (workflow_for event.event_type) now event w

  unfoldable pub begin_turn : Time → Worker → Cluster C → Cluster C × Option CrmContact
  unfolding begin_case
  begin_turn now (Worker.listening place) w =
      let (r, b) = receive_screened place w.broker in begin_case now r (record w { broker = b })
  begin_turn now _ w = (w, none)

  module _ (crm : CrmContact → C → Fallible Unit × C) where
    unfoldable pub finish_sync : CrmContact → Cluster C → Cluster C
    unfolding record_sync
    finish_sync contact w =
        record_sync marketing_port tracker_port (crm_port crm) contact
          ((crm_port crm).sync_contact contact w)

    -- The second part, where there is one.
    unfoldable pub finish_turn : Cluster C × Option CrmContact → Cluster C
    unfolding finish_sync
    finish_turn (w, none) = w
    finish_turn (w, some contact) = finish_sync contact w

    begin_case_lem :
        (now : Time) (r : Option (Received ScreenedEvent)) (w : Cluster C)
        → finish_turn (begin_case now r w) ≡ marketing_case crm now r w
    unfolding finish_turn begin_case marketing_case consume process_marketing_workflow run_workflow
    begin_case_lem now none w = refl
    begin_case_lem now (some blocks) w = refl
    begin_case_lem now (some ended) w = refl
    begin_case_lem now (some (item event)) w = elim (Bool-cases event.is_fraudulent) [
      | inl fraud ↦ rw fraud refl
      | inr clear ↦ elim (Option-cases (workflow_for event.event_type)) [
        | inl nothing ↦ rw (clear, nothing) refl
        | inr (workflow, found) ↦ rw (clear, found) refl
      ]
    ]

    -- The two parts one after the other, with nothing between them, are the turn of `Cluster`.
    pub finish-begin :
        (now : Time) (worker : Worker) (w : Cluster C)
        → finish_turn (begin_turn now worker w) ≡ marketing_turn crm now worker w
    unfolding begin_turn marketing_turn finish_turn
    finish-begin now Worker.idle w = refl
    finish-begin now Worker.returned w = refl
    finish-begin now (Worker.listening place) w =
        begin_case_lem now (receive_screened place w.broker).0
          (record w { broker = (receive_screened place w.broker).1 })

-- A step of the cluster, of which a whole turn of the marketing worker is one only while no sync is
-- under way, and the two parts of a turn.
pub data Move : Type 0 where
  does : Step → Move
  begins : Time → Move
  finishes : Move

abbrev pub is_turn : Step → Bool
is_turn (Step.turns_marketing now) = true
is_turn _ = false

module _ {C : Type 0} (crm : CrmContact → C → Fallible Unit × C) (table : ℕ → ℕ)
    (sha256_hex : String → String) where
  unfoldable pub move : Move → Cluster C × Option CrmContact → Cluster C × Option CrmContact
  unfolding begin_turn finish_turn
  move (does s) (w, none) = (step crm table sha256_hex s w, none)
  move (does s) (w, some contact) =
      (if is_turn s then w else step crm table sha256_hex s w, some contact)
  move (begins now) (w, none) = begin_turn now w.marketing_worker w
  move (begins now) (w, some contact) = (w, some contact)
  move finishes s = (finish_turn crm s, none)

  unfoldable pub moves : List Move → Cluster C × Option CrmContact → Cluster C × Option CrmContact
  unfolding move
  moves [] s = s
  moves (m ∷ ms) s = moves ms (move m s)

-- ===== src/Mockdb/Errors.antt =====
-- How the failures that the mock database simulates come out of the Postgres repository of events.
use Prim.Native.String.{◌++◌ as append}
use sentinel_flow_event_driv.Base.{
  ℕ, ◌≡◌, refl, ap, String, Bool, true, false, Option, none, some, List, [], if◌then◌else◌,
}
use sentinel_flow_event_driv.Base.Text.{contains, to_lower}
use sentinel_flow_event_driv.Base.Word.{Time}
use sentinel_flow_event_driv.Events.{ScreenedEvent}
use sentinel_flow_event_driv.Ports.{Fallible, ok, err}
use sentinel_flow_event_driv.Fraud.Postgres.{
  Codec, get_events_by_user_id, read_events, read_event, scan_event, delete_user_events,
}
use sentinel_flow_event_driv.Mockdb.{Mock, mock_db, unless}

abbrev to_error : Option String → Fallible (List ScreenedEvent)
to_error (some e) = err e
to_error none = ok []

-- The errors of a deletion: of `Begin`, of the first statement, of the second one, and of `Commit`.
abbrev pub delete_outcome : Mock → Fallible ℕ
delete_outcome mock = elim mock.sim_error [
  | some e ↦ err e
  | none ↦ elim mock.exec_error [
    | some e ↦ err (append "failed to delete events: " e)
    | none ↦
        if mock.fail_crm_delete
        then err "failed to delete CRM contacts: mock crm contacts delete error"
        else unless mock.commit_error (ok 2)
  ]
]

-- A failure of a read, if one is simulated: of the query, of the rows, or of `Scan`.
abbrev pub read_failure : Mock → Option String
read_failure mock = elim mock.sim_error [
  | some e ↦ some (append "failed to query events: " e)
  | none ↦ elim mock.next_error [
    | some e ↦ some e
    | none ↦ if mock.trigger_scan_error then some "failed to scan event row: " else none
  ]
]

module _ (table : ℕ → ℕ) (now : Time) where
  delete_outcome_by_cases :
      (sim exec commit next : Option String) (fail_crm invalid trigger : Bool) (user_id : String)
      → let mock : Mock = record {
        sim_error = sim;
        next_error = next;
        commit_error = commit;
        fail_crm_delete = fail_crm;
        exec_error = exec;
        invalid_json_payload = invalid;
        trigger_scan_error = trigger;
      } in
        (delete_user_events (mock_db table now mock) user_id tt).0 ≡ delete_outcome mock
  unfolding delete_user_events mock_db contains to_lower
  delete_outcome_by_cases (some e) exec commit next fail_crm invalid trigger user_id = refl
  delete_outcome_by_cases none (some e) commit next fail_crm invalid trigger user_id = refl
  delete_outcome_by_cases none none commit next true invalid trigger user_id = refl
  delete_outcome_by_cases none none none next false invalid trigger user_id = refl
  delete_outcome_by_cases none none (some e) next false invalid trigger user_id = refl

  read_failure_by_cases :
      (codec : Codec) (sim exec commit next : Option String) (fail_crm invalid trigger : Bool)
      (user_id e : String)
      → let mock : Mock = record {
        sim_error = sim;
        next_error = next;
        commit_error = commit;
        fail_crm_delete = fail_crm;
        exec_error = exec;
        invalid_json_payload = invalid;
        trigger_scan_error = trigger;
      } in
        read_failure mock ≡ some e
        → get_events_by_user_id (mock_db table now mock) codec user_id tt ≡ err e
  unfolding get_events_by_user_id read_events read_event scan_event mock_db contains to_lower
  read_failure_by_cases codec (some e') exec commit next fail_crm invalid trigger user_id e h =
      ap to_error h
  read_failure_by_cases codec none exec commit (some e') fail_crm invalid trigger user_id e h =
      ap to_error h
  read_failure_by_cases codec none exec commit none fail_crm invalid true user_id e h =
      ap to_error h
  read_failure_by_cases codec none exec commit none fail_crm invalid false user_id e h = cc

  -- Every failure that the mock database simulates comes out of the repository: a deletion returns the
  -- error of the first step that fails, with its own prefix, and otherwise the two rows; and a read
  -- whose query, rows or `Scan` fail returns that error.
  pub mock_failures_surface :
      (codec : Codec) (mock : Mock) (user_id : String)
      → ((delete_user_events (mock_db table now mock) user_id tt).0 ≡ delete_outcome mock)
        × ((e : String)
            → read_failure mock ≡ some e
            → get_events_by_user_id (mock_db table now mock) codec user_id tt ≡ err e)
  mock_failures_surface codec mock user_id = (
    delete_outcome_by_cases mock.sim_error mock.exec_error mock.commit_error mock.next_error
        mock.fail_crm_delete mock.invalid_json_payload mock.trigger_scan_error user_id,
    read_failure_by_cases codec mock.sim_error mock.exec_error mock.commit_error mock.next_error
        mock.fail_crm_delete mock.invalid_json_payload mock.trigger_scan_error user_id,
  )

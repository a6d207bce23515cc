-- ===== src/Tests/Contacts.antt =====
-- The contacts on Postgres, on a server whose table is a function of the users.
use sentinel_flow_event_driv.Base.{
  ℕ, ◌*◌, ◌/◌, ◌≡◌, refl, sym, ap, String, Option, none, some, List, [], ◌∷◌, map, str_eq,
  if◌then◌else◌,
}
use sentinel_flow_event_driv.Base.Word.{Time}
use sentinel_flow_event_driv.Ports.{Fallible, ok, err, ok-injective, CrmContact}
use sentinel_flow_event_driv.Database.{SqlValue, SqlRow, Rows, Database}
use sentinel_flow_event_driv.Marketing.Memory as Memory
use sentinel_flow_event_driv.Marketing.Memory.{new_memory_marketing_repository}
use sentinel_flow_event_driv.Marketing.Postgres.{
  insert_contact, select_contact, delete_contact, save_crm_contact, get_crm_contact,
  delete_crm_contact,
}
use sentinel_flow_event_driv.Marketing.Postgres.Contacts.{
  ServesContacts, ContactCall, kept_value, rows_for, as_kept, calls_stored, in_memory,
  get_crm_contact-memory,
}

abbrev Shelf : Type 0
Shelf = String → Option SqlRow

abbrev to_microseconds : Time → Time
to_microseconds t = t / 1_000 * 1_000

abbrev execute : String → List SqlValue → Shelf → Fallible ℕ × Shelf
execute statement (SqlValue.text user_id ∷ cs) shelf =
    if str_eq statement insert_contact
    then (
      ok 1,
      λ read.
          if str_eq user_id read
          then some (SqlValue.text user_id ∷ map (kept_value to_microseconds) cs)
          else shelf read,
    )
    else if str_eq statement delete_contact
    then (ok 1, λ read. if str_eq user_id read then none else shelf read)
    else (err "unknown statement", shelf)
execute statement _ shelf = (err "wrong arguments", shelf)

abbrev ask : String → List SqlValue → Shelf → Fallible Rows
ask statement (SqlValue.text user_id ∷ []) shelf =
    if str_eq statement select_contact
    then ok (record { all = rows_for (shelf user_id); failure = none })
    else err "unknown statement"
ask statement _ shelf = err "wrong arguments"

abbrev shelf_db : Database Shelf
shelf_db = record {
  exec = execute;
  query = ask;
  begin = λ shelf. (err "no transactions", shelf);
  tx_exec = λ statement args shelf. (err "no transactions", shelf);
  commit = λ shelf. (err "no transactions", shelf);
  rollback = λ shelf. shelf;
}

shelf_serves : ServesContacts shelf_db
shelf_serves = record {
  contacts = λ shelf. shelf;
  kept_time = to_microseconds;
  insert_ok = λ user_id cs shelf n good read. refl;
  insert_err = λ user_id cs shelf e bad read. cc;
  delete_ok = λ user_id shelf n good read. refl;
  delete_err = λ user_id shelf e bad read. cc;
  select_ok = λ user_id shelf rows found whole. sym (ap (λ (r : Rows). r.all) (ok-injective found));
}

abbrev synced : String → Time → CrmContact
synced status time = record {
  user_id = "u1";
  email = "u1@example.org";
  workflow_triggered = "onboarding";
  sync_status = status;
  synced_at = time;
  retry_count = 0;
}

abbrev run : List ContactCall
run =
    ContactCall.saves (synced "failed" 5_001)
    ∷ ContactCall.deletes "u2"
    ∷ ContactCall.saves (synced "synced" 7_002)
    ∷ []

get_crm_contact-memory_example :
    get_crm_contact shelf_db "u1" (calls_stored shelf_db run (λ read. none))
    ≡ Memory.get_crm_contact "u1" (
        in_memory shelf_db
          (as_kept shelf_db shelf_serves)
          run
          (λ read. none)
          new_memory_marketing_repository)
unfolding calls_stored shelf_serves save_crm_contact delete_crm_contact
get_crm_contact-memory_example =
    get_crm_contact-memory shelf_db shelf_serves run "u1" (λ read. none)
      (record { all = rows_for (calls_stored shelf_db run (λ read. none) "u1"); failure = none })
      (λ read. refl) refl refl

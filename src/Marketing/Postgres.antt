-- ===== src/Marketing/Postgres.antt =====
-- pkg/domain/marketing/postgres.go, over a database.
use Prim.Native.String.{◌++◌ as append}
pub mod Contacts
use sentinel_flow_event_driv.Base.{ℕ, String, Option, none, some, List, [], ◌∷◌}
use sentinel_flow_event_driv.Ports.{Fallible, ok, err, CrmContact, PrivacyLog}
use sentinel_flow_event_driv.Database.{SqlValue, SqlRow, Rows, Database, only_error}

abbrev pub insert_contact : String
insert_contact =
    "\n\tINSERT INTO crm_contacts (user_id, email, workflow_triggered, sync_status, synced_at, retry_count)\n\tVALUES ($1, $2, $3, $4, $5, $6)\n\tON CONFLICT (user_id) DO UPDATE SET\n\t\temail = EXCLUDED.email,\n\t\tworkflow_triggered = EXCLUDED.workflow_triggered,\n\t\tsync_status = EXCLUDED.sync_status,\n\t\tsynced_at = EXCLUDED.synced_at,\n\t\tretry_count = EXCLUDED.retry_count;\n\t"

abbrev pub select_contact : String
select_contact =
    "\n\tSELECT user_id, email, workflow_triggered, sync_status, synced_at, retry_count\n\tFROM crm_contacts\n\tWHERE user_id = $1;\n\t"

abbrev pub delete_contact : String
delete_contact = "DELETE FROM crm_contacts WHERE user_id = $1"

abbrev pub insert_log : String
insert_log =
    "\n\tINSERT INTO privacy_logs (log_id, user_id, action, timestamp)\n\tVALUES ($1, $2, $3, $4)\n\tON CONFLICT (log_id) DO NOTHING;\n\t"

abbrev pub select_logs : String
select_logs =
    "\n\tSELECT log_id, user_id, action, timestamp\n\tFROM privacy_logs\n\tWHERE user_id = $1\n\tORDER BY timestamp DESC;\n\t"

abbrev pub contact_columns : CrmContact → SqlRow
contact_columns contact =
    SqlValue.text contact.user_id
    ∷ SqlValue.text contact.email
    ∷ SqlValue.text contact.workflow_triggered
    ∷ SqlValue.text contact.sync_status
    ∷ SqlValue.instant contact.synced_at
    ∷ SqlValue.number contact.retry_count
    ∷ []

abbrev pub scan_contact : SqlRow → Option CrmContact
scan_contact
      (SqlValue.text user_id
        ∷ SqlValue.text email
        ∷ SqlValue.text workflow
        ∷ SqlValue.text status
        ∷ SqlValue.instant synced_at
        ∷ SqlValue.number retry_count
        ∷ []) =
    some (record {
      user_id = user_id;
      email = email;
      workflow_triggered = workflow;
      sync_status = status;
      synced_at = synced_at;
      retry_count = retry_count;
    })
scan_contact _ = none

-- The outcome of `QueryRow(...).Scan(...)`: the first row is scanned, and `ErrNoRows` is the error
-- where there is none. The driver's own text in an error of `Scan` is left out.
pub data RowError : Type 0 where
  no_rows : RowError
  failed : String → RowError

pub data RowResult : Type 0 where
  scanned : CrmContact → RowResult
  missed : RowError → RowResult

abbrev pub scanned_or : Option CrmContact → RowResult
scanned_or none = RowResult.missed (RowError.failed "")
scanned_or (some contact) = RowResult.scanned contact

abbrev pub first_row : List SqlRow → Option String → RowResult
first_row [] none = RowResult.missed RowError.no_rows
first_row [] (some e) = RowResult.missed (RowError.failed e)
first_row (row ∷ rows) failure = scanned_or (scan_contact row)

abbrev pub query_row : Fallible Rows → RowResult
query_row (err e) = RowResult.missed (RowError.failed e)
query_row (ok rows) = first_row rows.all rows.failure

abbrev pub contact_or : RowResult → Fallible CrmContact
contact_or (RowResult.scanned contact) = ok contact
contact_or (RowResult.missed RowError.no_rows) = err "crm contact not found"
contact_or (RowResult.missed (RowError.failed e)) = err (append "failed to query crm contact: " e)

abbrev pub log_columns : PrivacyLog → SqlRow
log_columns entry =
    SqlValue.text entry.log_id
    ∷ SqlValue.text entry.user_id
    ∷ SqlValue.text entry.action
    ∷ SqlValue.instant entry.timestamp
    ∷ []

-- One round of the loop over the rows of logs.
abbrev pub read_log : SqlRow → Fallible PrivacyLog
read_log
      (SqlValue.text log_id
        ∷ SqlValue.text user_id
        ∷ SqlValue.text action
        ∷ SqlValue.instant timestamp
        ∷ []) =
    ok (record { log_id = log_id; user_id = user_id; action = action; timestamp = timestamp })
read_log _ = err "failed to scan privacy log row: "

-- The loop and `rows.Err()`.
unfoldable pub read_logs : Option String → List SqlRow → Fallible (List PrivacyLog)
read_logs none [] = ok []
read_logs (some e) [] = err e
read_logs failure (row ∷ rows) =
    let rest = read_logs failure rows in
    elim (read_log row) [
      | err e ↦ err e
      | ok entry ↦ elim rest [ err e ↦ err e | ok entries ↦ ok (entry ∷ entries) ]
    ]

module _ {W : Type 0} (db : Database W) where
  unfoldable pub save_crm_contact : CrmContact → W → Fallible Unit × W
  save_crm_contact contact w = only_error (db.exec insert_contact (contact_columns contact) w)

  unfoldable pub get_crm_contact : String → W → Fallible CrmContact
  get_crm_contact user_id w =
      contact_or (query_row (db.query select_contact (SqlValue.text user_id ∷ []) w))

  unfoldable pub delete_crm_contact : String → W → Fallible Unit × W
  delete_crm_contact user_id w = only_error (db.exec delete_contact (SqlValue.text user_id ∷ []) w)

  unfoldable pub save_privacy_log : PrivacyLog → W → Fallible Unit × W
  save_privacy_log entry w = only_error (db.exec insert_log (log_columns entry) w)

  unfoldable pub get_privacy_logs_by_user_id : String → W → Fallible (List PrivacyLog)
  unfolding read_logs
  get_privacy_logs_by_user_id user_id w =
      elim (db.query select_logs (SqlValue.text user_id ∷ []) w) [
        | err e ↦ err (append "failed to query privacy logs: " e)
        | ok rows ↦ read_logs rows.failure rows.all
      ]

-- ===== src/Mockdb.antt =====
-- pkg/mockdb/mockdb.go: the database of the repository's own tests, through database/sql. It keeps
-- nothing; its answers hang on the settings and the text of the statement. `table` is Unicode's table of
-- lower-case letters above ASCII, and `now` the clock's reading. A `NextError` is not `io.EOF`.
pub mod Errors
use sentinel_flow_event_driv.Base.{
  ℕ, String, Bool, true, false, ◌&&◌, Option, none, some, List, [], ◌∷◌, map, if◌then◌else◌,
}
use sentinel_flow_event_driv.Base.Lists.{replicate}
use sentinel_flow_event_driv.Base.Text.{codes, to_lower, contains}
use sentinel_flow_event_driv.Base.Word.{Time}
use sentinel_flow_event_driv.Ports.{Fallible, ok, err}
use sentinel_flow_event_driv.Database.{SqlValue, SqlRow, Rows, Database}

pub record Mock : Type 0 where
  pub sim_error : Option String
  pub next_error : Option String
  pub commit_error : Option String
  pub fail_crm_delete : Bool
  pub exec_error : Option String
  pub invalid_json_payload : Bool
  pub trigger_scan_error : Bool

-- `return err`, or the value where the error is nil.
abbrev pub unless : {A : Type 0} → Option String → Fallible A → Fallible A
unless none value = value
unless (some e) value = err e

abbrev pub bad : SqlValue
bad = SqlValue.text "bad-scan-value"

abbrev pub metric_row : String → SqlRow
metric_row name = SqlValue.text name ∷ SqlValue.number 10 ∷ []

abbrev pub metric_rows : Bool → List SqlRow
metric_rows true = (SqlValue.text "total_received" ∷ bad ∷ []) ∷ []
metric_rows false = map metric_row (
    "total_received" ∷ "legitimate" ∷ "fraudulent" ∷ "crm_attempts" ∷ "crm_successes"
    ∷ "crm_failures" ∷ [])

abbrev pub contact_row : Time → SqlRow
contact_row now =
    SqlValue.text "usr_test"
    ∷ SqlValue.text "test@example.com"
    ∷ SqlValue.text "onboarding"
    ∷ SqlValue.text "synced"
    ∷ SqlValue.instant now
    ∷ SqlValue.number 0
    ∷ []

abbrev pub log_row : Time → SqlRow
log_row now =
    SqlValue.text "log_1"
    ∷ SqlValue.text "usr_test"
    ∷ SqlValue.text "GDPR_PURGE"
    ∷ SqlValue.instant now
    ∷ []

abbrev pub payload_of : Bool → String
payload_of invalid = if invalid then "{invalid-json" else "{\"email\":\"test@example.com\"}"

abbrev pub event_row : Bool → Time → SqlRow
event_row invalid now =
    SqlValue.text "ev_1"
    ∷ SqlValue.text "usr_test"
    ∷ SqlValue.text "signup"
    ∷ SqlValue.text "1.2.3.4"
    ∷ SqlValue.text "Mozilla"
    ∷ SqlValue.json (payload_of invalid)
    ∷ SqlValue.instant now
    ∷ SqlValue.flag true
    ∷ SqlValue.flag false
    ∷ SqlValue.score 0
    ∷ SqlValue.text ""
    ∷ SqlValue.instant now
    ∷ []

-- The one row of a table other than the metrics, or a row of as many bad values.
abbrev pub one_row : Bool → ℕ → SqlRow → List SqlRow
one_row scan_error width row = (if scan_error then replicate width bad else row) ∷ []

module _ (table : ℕ → ℕ) (now : Time) (mock : Mock) where
  abbrev pub mentions : String → String → Bool
  mentions query word = contains (to_lower table (codes query)) (codes word)

  -- What `Next` serves, one row at a time.
  abbrev pub served : String → List SqlRow
  served query =
      if mentions query "metrics_counters"
      then metric_rows mock.trigger_scan_error
      else if mentions query "crm_contacts"
      then one_row mock.trigger_scan_error 6 (contact_row now)
      else if mentions query "privacy_logs"
      then one_row mock.trigger_scan_error 4 (log_row now)
      else one_row mock.trigger_scan_error 12 (event_row mock.invalid_json_payload now)

  abbrev pub rows_of : String → Option String → Rows
  rows_of query (some e) = record { all = []; failure = some e }
  rows_of query none = record { all = served query; failure = none }

  -- `Prepare` and `Exec`, with the one row that `RowsAffected` gives.
  abbrev pub mock_exec : String → Fallible ℕ
  mock_exec query = unless mock.sim_error (
      unless mock.exec_error (
        if mock.fail_crm_delete && mentions query "crm_contacts"
        then err "mock crm contacts delete error"
        else ok 1))

  unfoldable pub mock_db : Database Unit
  unfolding contains to_lower
  mock_db = record {
    exec = λ query args w. (mock_exec query, w);
    query = λ query args w. unless mock.sim_error (ok (rows_of query mock.next_error));
    begin = λ w. (unless mock.sim_error (ok tt), w);
    tx_exec = λ query args w. (mock_exec query, w);
    commit = λ w. (unless mock.commit_error (ok tt), w);
    rollback = λ w. w;
  }

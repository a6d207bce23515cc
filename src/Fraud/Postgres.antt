-- ===== src/Fraud/Postgres.antt =====
-- pkg/domain/fraud/postgres.go, over a database. `Codec` is encoding/json on a payload.
use Prim.Native.String.{◌++◌ as append}
pub mod Server
pub mod Log
pub mod Purge
pub mod Run
use mathlib.Core.Option as Option
use sentinel_flow_event_driv.Base.{
  ℕ, String, Bool, Option, none, some, List, [], ◌∷◌, str_eq, if◌then◌else◌,
}
use sentinel_flow_event_driv.Base.Dict.{Dict}
use sentinel_flow_event_driv.Base.Word.{Time, add64}
use sentinel_flow_event_driv.Events.{Value, TrackingEvent, ScreenedEvent}
use sentinel_flow_event_driv.Ports.{Fallible, ok, err}
use sentinel_flow_event_driv.Database.{SqlValue, SqlRow, Rows, Database, only_error}

pub record Codec : Type 0 where
  pub marshal : Dict Value → Fallible String
  pub unmarshal : String → Fallible (Dict Value)

abbrev pub insert_event : String
insert_event =
    "\n\tINSERT INTO events (\n\t\tevent_id, user_id, event_type, ip_address, user_agent, payload, \n\t\ttimestamp, gdpr_consent, is_fraudulent, fraud_score, fraud_reason, screened_at\n\t) VALUES ($1, $2, $3, $4, $5, $6, $7, $8, $9, $10, $11, $12)\n\tON CONFLICT (event_id) DO NOTHING;\n\t"

abbrev pub select_events : String
select_events =
    "\n\tSELECT \n\t\tevent_id, user_id, event_type, ip_address, user_agent, payload, \n\t\ttimestamp, gdpr_consent, is_fraudulent, fraud_score, fraud_reason, screened_at\n\tFROM events \n\tWHERE user_id = $1\n\tORDER BY timestamp DESC;\n\t"

abbrev pub delete_events : String
delete_events = "DELETE FROM events WHERE user_id = $1"

abbrev pub delete_contacts : String
delete_contacts = "DELETE FROM crm_contacts WHERE user_id = $1"

-- The arguments of the insertion, `payload` being the marshalled one.
abbrev pub columns : ScreenedEvent → String → SqlRow
columns event payload =
    SqlValue.text event.event_id
    ∷ SqlValue.text event.user_id
    ∷ SqlValue.text event.event_type
    ∷ SqlValue.text event.ip_address
    ∷ SqlValue.text event.user_agent
    ∷ SqlValue.json payload
    ∷ SqlValue.instant event.timestamp
    ∷ SqlValue.flag event.gdpr_consent
    ∷ SqlValue.flag event.is_fraudulent
    ∷ SqlValue.score event.fraud_score
    ∷ SqlValue.text event.fraud_reason
    ∷ SqlValue.instant event.screened_at
    ∷ []

-- The bytes of the payload's column, which may be NULL.
abbrev pub bytes_of : SqlValue → Option String
bytes_of SqlValue.null = some ""
bytes_of (SqlValue.json bytes) = some bytes
bytes_of (SqlValue.text bytes) = some bytes
bytes_of _ = none

-- `rows.Scan` into the twelve variables: the event with no payload yet, and the payload's bytes.
unfoldable pub scan_event : SqlRow → Option (ScreenedEvent × String)
scan_event
      (SqlValue.text event_id
        ∷ SqlValue.text user_id
        ∷ SqlValue.text event_type
        ∷ SqlValue.text ip_address
        ∷ SqlValue.text user_agent
        ∷ payload
        ∷ SqlValue.instant timestamp
        ∷ SqlValue.flag gdpr_consent
        ∷ SqlValue.flag is_fraudulent
        ∷ SqlValue.score fraud_score
        ∷ SqlValue.text fraud_reason
        ∷ SqlValue.instant screened_at
        ∷ []) =
    Option.map
      (λ (bytes : String).
        let event : TrackingEvent = record {
          event_id = event_id;
          user_id = user_id;
          event_type = event_type;
          ip_address = ip_address;
          user_agent = user_agent;
          payload = [];
          timestamp = timestamp;
          gdpr_consent = gdpr_consent;
        } in
        let screened : ScreenedEvent = record {
          tracking_event = event;
          is_fraudulent = is_fraudulent;
          fraud_score = fraud_score;
          fraud_reason = fraud_reason;
          screened_at = screened_at;
        } in
        (screened, bytes))
      (bytes_of payload)
scan_event _ = none

abbrev pub with_payload : ScreenedEvent → Dict Value → ScreenedEvent
with_payload event payload = record event {
  tracking_event = record event.tracking_event { payload = payload };
}

-- The payload of a scanned event, where there are bytes.
abbrev pub decode_payload : Codec → ScreenedEvent → Fallible (Dict Value) → Fallible ScreenedEvent
decode_payload codec event (ok payload) = ok (with_payload event payload)
decode_payload codec event (err e) = err (append "failed to unmarshal event payload: " e)

-- One round of the loop over the rows. The driver's own text in the error of `Scan` is left out.
unfoldable pub read_event : Codec → Option (ScreenedEvent × String) → Fallible ScreenedEvent
read_event codec none = err "failed to scan event row: "
read_event codec (some (event, bytes)) =
    if str_eq bytes "" then ok event else decode_payload codec event (codec.unmarshal bytes)

-- The loop and `rows.Err()`.
unfoldable pub read_events : Codec → Option String → List SqlRow → Fallible (List ScreenedEvent)
unfolding read_event scan_event
read_events codec none [] = ok []
read_events codec (some e) [] = err e
read_events codec failure (row ∷ rows) =
    let rest = read_events codec failure rows in
    elim (read_event codec (scan_event row)) [
      | err e ↦ err e
      | ok event ↦ elim rest [ err e ↦ err e | ok events ↦ ok (event ∷ events) ]
    ]

module _ {W : Type 0} (db : Database W) where
  unfoldable pub save_event : Codec → ScreenedEvent → W → Fallible Unit × W
  save_event codec event w = elim (codec.marshal event.payload) [
    | err e ↦ (err (append "failed to marshal event payload: " e), w)
    | ok payload ↦ only_error (db.exec insert_event (columns event payload) w)
  ]

  unfoldable pub get_events_by_user_id : Codec → String → W → Fallible (List ScreenedEvent)
  unfolding read_events
  get_events_by_user_id codec user_id w =
      elim (db.query select_events (SqlValue.text user_id ∷ []) w) [
        | err e ↦ err (append "failed to query events: " e)
        | ok rows ↦ read_events codec rows.failure rows.all
      ]

  -- After `Commit`. The deferred `Rollback` does nothing once the transaction is committed.
  abbrev pub after_commit : ℕ → ℕ → Fallible Unit × W → Fallible ℕ × W
  after_commit events contacts (err e, w) = (err e, db.rollback w)
  after_commit events contacts (ok _, w) = (ok (add64 events contacts), w)

  abbrev pub after_contacts : ℕ → Fallible ℕ × W → Fallible ℕ × W
  after_contacts events (err e, w) =
      (err (append "failed to delete CRM contacts: " e), db.rollback w)
  after_contacts events (ok contacts, w) = after_commit events contacts (db.commit w)

  abbrev pub after_events : String → Fallible ℕ × W → Fallible ℕ × W
  after_events user_id (err e, w) = (err (append "failed to delete events: " e), db.rollback w)
  after_events user_id (ok events, w) =
      after_contacts events (db.tx_exec delete_contacts (SqlValue.text user_id ∷ []) w)

  abbrev pub after_begin : String → Fallible Unit × W → Fallible ℕ × W
  after_begin user_id (err e, w) = (err e, w)
  after_begin user_id (ok _, w) =
      after_events user_id (db.tx_exec delete_events (SqlValue.text user_id ∷ []) w)

  unfoldable pub delete_user_events : String → W → Fallible ℕ × W
  delete_user_events user_id w = after_begin user_id (db.begin w)

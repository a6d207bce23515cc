-- ===== src/Marketing/Handlers.antt =====
-- pkg/domain/marketing/handlers.go, over any fraud service and repository. The request of a deletion
-- is given as encoding/json decodes it (`none` where the decoder returns an error), and `sha256_hex`
-- stands for the SHA-256 digest of a text in hexadecimal. A clock reads a time since 1970.
pub mod Audit
use Prim.Native.String.{◌++◌ as append}
use sentinel_flow_event_driv.Base.{
  ℕ, ◌-◌, ◌*◌, String, Option, none, some, List, str_eq, if◌then◌else◌,
}
use sentinel_flow_event_driv.Base.Text.{decimal}
use sentinel_flow_event_driv.Base.Word.{Time, second}
use sentinel_flow_event_driv.Events.{ScreenedEvent}
use sentinel_flow_event_driv.Http.{Reply, http_error, json_reply}
use sentinel_flow_event_driv.Ports.{
  Fallible, ok, err, CrmContact, PrivacyLog, MarketingRepository, FraudEventService,
}

-- The salt of `NewMarketingService`.
abbrev pub salt : String
salt = "SentinelFlowSuperSecretSaltForGDPRCompliance"

unfoldable pub hash_identifier : (String → String) → String → String → String
hash_identifier sha256_hex identifier salt_text = sha256_hex (append identifier salt_text)

-- `UnixNano`, of a Time that counts from the year 1.
unfoldable pub unix_nano : Time → ℕ
unix_nano now = now - 62_135_596_800 * second

-- The two calls of `time.Now()` may read two times.
unfoldable pub purge_entry : (String → String) → Time → Time → String → PrivacyLog
unfolding hash_identifier unix_nano
purge_entry sha256_hex now later user_id = record {
  log_id = append "purge-" (decimal (unix_nano now));
  user_id = hash_identifier sha256_hex user_id salt;
  action = "GDPR_PURGE";
  timestamp = later;
}

unfoldable pub purged_text : String → ℕ → String
purged_text hashed scrubbed =
    append "{\"status\": \"purged\", \"user_id_hashed\": \""
      (append hashed (append "\", \"records_scrubbed\": " (append (decimal scrubbed) "}")))

-- What the export of a user holds.
pub record Export : Type 0 where
  pub user_id : String
  pub events : List ScreenedEvent
  pub crm_contact : Option CrmContact
  pub exported_at : Time

pub data ExportBody : Type 0 where
  message : String → ExportBody
  exported : Export → ExportBody

abbrev pub export_error : String → ℕ → Reply ExportBody
export_error text code = record {
  status_code = code;
  content_type = "text/plain; charset=utf-8";
  body = message (append text "\n");
}

-- The contact, or the text "no crm contact synced" (`none`) for any error.
abbrev pub contact_of : Fallible CrmContact → Option CrmContact
contact_of (ok c) = some c
contact_of (err _) = none

-- `req.UserID == ""` is refused as an undecodable request is.
abbrev pub has_user_id : Option String → Option String
has_user_id none = none
has_user_id (some user_id) = if str_eq user_id "" then none else some user_id

module _ {W : Type 0} (fraud : FraudEventService W) (repo : MarketingRepository W) where
  -- From the answer of `DeleteUserEvents` on; errors of the two later calls are only logged.
  unfoldable pub finish_purge :
      (String → String) → Time → Time → String → Fallible ℕ × W → Reply String × W
  unfolding http_error purge_entry purged_text
  finish_purge sha256_hex now later user_id (err _, w) =
      (http_error "{\"error\": \"failed to scrub records\"}" 500, w)
  finish_purge sha256_hex now later user_id (ok scrubbed, w) =
      let entry = purge_entry sha256_hex now later user_id in
      let without_contact = (repo.delete_crm_contact user_id w).1 in
      (
        json_reply 200 (purged_text entry.user_id scrubbed),
        (repo.save_privacy_log entry without_contact).1,
      )

  unfoldable pub handle_gdpr_delete :
      (String → String) → Time → Time → String → Option String → W → Reply String × W
  unfolding http_error finish_purge
  handle_gdpr_delete sha256_hex now later method decoded w =
      if str_eq method "POST"
      then elim (has_user_id decoded) [
        | none ↦ (http_error "{\"error\": \"invalid json or user_id missing\"}" 400, w)
        | some user_id ↦ finish_purge sha256_hex now later user_id (fraud.delete_events user_id w)
      ]
      else (http_error "Method not allowed" 405, w)

  -- From the answer of `GetEventsByUserID` on.
  unfoldable pub finish_export :
      Time → String → Fallible (List ScreenedEvent) → W → Reply ExportBody
  finish_export now user_id (err _) w = export_error "{\"error\": \"failed to export data\"}" 500
  finish_export now user_id (ok events) w = json_reply 200 (
      exported (record {
        user_id = user_id;
        events = events;
        crm_contact = contact_of (repo.get_crm_contact user_id w);
        exported_at = now;
      }))

  unfoldable pub handle_ccpa_export : Time → String → String → W → Reply ExportBody
  unfolding finish_export
  handle_ccpa_export now method user_id w =
      if str_eq method "GET"
      then if str_eq user_id ""
        then export_error "{\"error\": \"user_id query parameter is required\"}" 400
        else finish_export now user_id (fraud.events_by_user_id user_id w) w
      else export_error "Method not allowed" 405

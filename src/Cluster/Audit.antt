-- ===== src/Cluster/Audit.antt =====
-- What a purge by the GDPR handler writes to the audit log.
use Prim.Native.String.{◌++◌ as append}
use sentinel_flow_event_driv.Base.{
  ◌≡◌, ◌≢◌, refl, ◌∙◌, String, some, [], ◌∷◌, ◌++◌, str_eq-ne, eq_refl,
}
use sentinel_flow_event_driv.Base.Word.{Time}
use sentinel_flow_event_driv.Fraud.Service.{event_service}
use sentinel_flow_event_driv.Fraud.Memory as Fraud
use sentinel_flow_event_driv.Marketing.Memory.{
  get_privacy_logs_by_user_id, save_privacy_log, delete_crm_contact,
}
use sentinel_flow_event_driv.Marketing.Handlers.{
  salt, hash_identifier, purge_entry, handle_gdpr_delete, finish_purge,
}
use sentinel_flow_event_driv.Marketing.Handlers.Audit.{logs-save}
use sentinel_flow_event_driv.Cluster.{Cluster, purge}

purge-logs_of :
    {C : Type 0} (sha256_hex : String → String) (now later : Time) (user_id reader : String)
    (w : Cluster C)
    → user_id ≢ ""
    → get_privacy_logs_by_user_id reader
        (purge sha256_hex now later "POST" (some user_id) w).1.marketing_repo
      ≡ get_privacy_logs_by_user_id reader
          (save_privacy_log (purge_entry sha256_hex now later user_id) w.marketing_repo)
unfolding purge handle_gdpr_delete event_service finish_purge Fraud.delete_user_events
    Fraud.after_delete delete_crm_contact get_privacy_logs_by_user_id save_privacy_log
purge-logs_of sha256_hex now later user_id reader w given = rw (str_eq-ne user_id "" given)

-- A purge of a user appends one entry to the audit log, under the salted hash of the user's id and
-- not under the id, with the action GDPR_PURGE; all that the log holds under other names is as it was.
pub purge-logs :
    {C : Type 0} (sha256_hex : String → String) (now later : Time) (user_id other : String)
    (w : Cluster C)
    → user_id ≢ ""
    → sha256_hex (append user_id salt) ≢ other
    → let w' = (purge sha256_hex now later "POST" (some user_id) w).1 in
      let entry = purge_entry sha256_hex now later user_id in
      let hashed = sha256_hex (append user_id salt) in
      (get_privacy_logs_by_user_id hashed w'.marketing_repo
        ≡ get_privacy_logs_by_user_id hashed w.marketing_repo ++ entry ∷ [])
      × (entry.user_id ≡ hashed)
      × (entry.action ≡ "GDPR_PURGE")
      × (get_privacy_logs_by_user_id other w'.marketing_repo
          ≡ get_privacy_logs_by_user_id other w.marketing_repo)
unfolding purge_entry hash_identifier
purge-logs sha256_hex now later user_id other w given differs =
    let entry = purge_entry sha256_hex now later user_id in
    let hashed = sha256_hex (append user_id salt) in
    let m = w.marketing_repo in
    (
      purge-logs_of sha256_hex now later user_id hashed w given
          ∙ logs-save entry hashed m
          ∙ rw (eq_refl hashed),
      refl,
      refl,
      purge-logs_of sha256_hex now later user_id other w given
          ∙ logs-save entry other m
          ∙ rw (str_eq-ne hashed other differs),
    )

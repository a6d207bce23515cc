-- ===== src/Marketing/Handlers/Audit.antt =====
-- The audit log of the purges.
use sentinel_flow_event_driv.Base.{◌≡◌, String, [], ◌∷◌, ◌++◌, str_eq, if◌then◌else◌, arith}
use sentinel_flow_event_driv.Base.Dict.{lookup, lookup-insert}
use sentinel_flow_event_driv.Ports.{PrivacyLog}
use sentinel_flow_event_driv.Marketing.Memory.{
  MemoryMarketingRepository, or_no_logs, save_privacy_log, get_privacy_logs_by_user_id,
}

-- Saving an entry appends it to the log of its user, and leaves the logs of all others as they were.
pub logs-save :
    (log : PrivacyLog) (user_id : String) (m : MemoryMarketingRepository)
    → get_privacy_logs_by_user_id user_id (save_privacy_log log m) ≡ (
        if str_eq log.user_id user_id
        then get_privacy_logs_by_user_id log.user_id m ++ log ∷ []
        else get_privacy_logs_by_user_id user_id m)
unfolding get_privacy_logs_by_user_id save_privacy_log
logs-save log user_id m =
    let logs = or_no_logs (lookup log.user_id m.privacy) ++ log ∷ [] in
    ground (arith, lookup-insert log.user_id user_id logs m.privacy)

-- ===== src/Marketing/Memory.antt =====
-- pkg/domain/marketing/memory.go. Each method runs under its lock and is one step.
use sentinel_flow_event_driv.Base.{String, Option, none, some, List, [], ◌∷◌, ◌++◌}
use sentinel_flow_event_driv.Base.Dict.{Dict, lookup, insert, erase}
use sentinel_flow_event_driv.Ports.{Fallible, ok, err, CrmContact, PrivacyLog}

pub record MemoryMarketingRepository : Type 0 where
  pub crm : Dict CrmContact
  pub privacy : Dict (List PrivacyLog)

abbrev pub new_memory_marketing_repository : MemoryMarketingRepository
new_memory_marketing_repository = record { crm = []; privacy = [] }

unfoldable pub save_crm_contact : CrmContact → MemoryMarketingRepository → MemoryMarketingRepository
save_crm_contact contact m = record m { crm = insert contact.user_id contact m.crm }

abbrev pub or_not_found : Option CrmContact → Fallible CrmContact
or_not_found none = err "crm contact not found"
or_not_found (some c) = ok c

unfoldable pub get_crm_contact : String → MemoryMarketingRepository → Fallible CrmContact
get_crm_contact user_id m = or_not_found (lookup user_id m.crm)

unfoldable pub delete_crm_contact : String → MemoryMarketingRepository → MemoryMarketingRepository
delete_crm_contact user_id m = record m { crm = erase user_id m.crm }

abbrev pub or_no_logs : Option (List PrivacyLog) → List PrivacyLog
or_no_logs none = []
or_no_logs (some logs) = logs

unfoldable pub save_privacy_log : PrivacyLog → MemoryMarketingRepository → MemoryMarketingRepository
save_privacy_log log m = record m {
  privacy = insert log.user_id (or_no_logs (lookup log.user_id m.privacy) ++ log ∷ []) m.privacy;
}

-- The copy of the slice, or an empty one.
unfoldable pub get_privacy_logs_by_user_id : String → MemoryMarketingRepository → List PrivacyLog
get_privacy_logs_by_user_id user_id m = or_no_logs (lookup user_id m.privacy)

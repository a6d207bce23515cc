-- ===== src/Fraud/Memory/Log.antt =====
-- The in-memory repository of events, against the plain log of what was saved.
use sentinel_flow_event_driv.Base.{◌≡◌, String, Bool, List, [], ◌∷◌, ◌++◌, str_eq, if◌then◌else◌}
use sentinel_flow_event_driv.Events.{ScreenedEvent}
use sentinel_flow_event_driv.Fraud.Memory.{
  MemoryFraudRepository, save_event, get_events_by_user_id, delete_own_events,
}

pub data Call : Type 0 where
  saves : ScreenedEvent → Call
  purges : String → Call

unfoldable pub call : Call → MemoryFraudRepository → MemoryFraudRepository
call (saves event) m = save_event event m
call (purges user_id) m = (delete_own_events user_id m).1

unfoldable pub calls : List Call → MemoryFraudRepository → MemoryFraudRepository
calls [] m = m
calls (c ∷ cs) m = calls cs (call c m)

-- The specification: one list of all events, the oldest first, from which a purge takes those of a
-- user.
abbrev pub is_of : String → ScreenedEvent → Bool
is_of user_id event = str_eq event.user_id user_id

unfoldable pub events_of : String → List ScreenedEvent → List ScreenedEvent
events_of user_id [] = []
events_of user_id (e ∷ log) =
    let rest = events_of user_id log in if is_of user_id e then e ∷ rest else rest

unfoldable pub without : String → List ScreenedEvent → List ScreenedEvent
without user_id [] = []
without user_id (e ∷ log) =
    let rest = without user_id log in if is_of user_id e then rest else e ∷ rest

abbrev pub call_log : Call → List ScreenedEvent → List ScreenedEvent
call_log (saves event) log = log ++ event ∷ []
call_log (purges user_id) log = without user_id log

unfoldable pub calls_log : List Call → List ScreenedEvent → List ScreenedEvent
calls_log [] log = log
calls_log (c ∷ cs) log = calls_log cs (call_log c log)

-- The repository holds of every user that user's events of the log.
abbrev pub Holds : MemoryFraudRepository → List ScreenedEvent → Type 0
Holds m log = (user_id : String) → get_events_by_user_id user_id m ≡ events_of user_id log

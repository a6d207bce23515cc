-- ===== src/Fraud/Memory.antt =====
-- pkg/domain/fraud/memory.go. `crmDeleter`, where it is set, acts on a state `X` outside the
-- repository. The events are pointers in Go; nobody writes through them.
pub mod Log
use sentinel_flow_event_driv.Base.{ℕ, suc, ◌+◌, String, Option, none, some, List, [], ◌∷◌, ◌++◌}
use sentinel_flow_event_driv.Base.Lists.{length}
use sentinel_flow_event_driv.Base.Dict.{Dict, lookup, insert, erase}
use sentinel_flow_event_driv.Events.{ScreenedEvent}

pub record MemoryFraudRepository : Type 0 where
  pub events : Dict (List ScreenedEvent)

abbrev pub new_memory_fraud_repository : MemoryFraudRepository
new_memory_fraud_repository = record { events = [] }

-- `m.events[userID]`: no entry reads as nil.
abbrev pub or_empty : Option (List ScreenedEvent) → List ScreenedEvent
or_empty none = []
or_empty (some es) = es

unfoldable pub save_event : ScreenedEvent → MemoryFraudRepository → MemoryFraudRepository
save_event event m =
    let old = or_empty (lookup event.user_id m.events) in
    record m { events = insert event.user_id (old ++ event ∷ []) m.events }

-- The copy of the slice, or an empty one.
unfoldable pub get_events_by_user_id : String → MemoryFraudRepository → List ScreenedEvent
get_events_by_user_id user_id m = or_empty (lookup user_id m.events)

-- The part of `DeleteUserEvents` under the lock: the count and the repository.
unfoldable pub delete_own_events : String → MemoryFraudRepository → ℕ × MemoryFraudRepository
delete_own_events user_id m =
    (length (or_empty (lookup user_id m.events)), record m { events = erase user_id m.events })

-- The call of `crmDeleter`, and `count++`.
unfoldable pub after_delete : {X : Type 0} → Option (String → X → X) → String → ℕ → X → ℕ × X
after_delete none user_id count x = (count, x)
after_delete (some crm_deleter) user_id count x = (suc count, crm_deleter user_id x)

unfoldable pub delete_user_events :
    {X : Type 0}
    → Option (String → X → X)
    → String
    → MemoryFraudRepository × X
    → ℕ × MemoryFraudRepository × X
unfolding delete_own_events after_delete
delete_user_events crm_deleter user_id (m, x) =
    let (count, m') = delete_own_events user_id m in
    let (total, x') = after_delete crm_deleter user_id count x in (total, m', x')

-- ===== src/Simulator/Legitimate.antt =====
-- The simulator's legitimate traffic before the fraud rules.
use mathlib.Core.List.{Permᴰ}
use sentinel_flow_event_driv.Base.{
  ℕ, ◌+◌, ◌≤◌, ◌≡◌, refl, ◌∙◌, inl, inr, true, String, List, [], ◌∷◌, ◌++◌, map, le→leb, leb,
  if_true,
}
use sentinel_flow_event_driv.Base.Lists.{length, All, All-append}
use sentinel_flow_event_driv.Base.Orders.{All-perm}
use sentinel_flow_event_driv.Base.Word.{Time}
use sentinel_flow_event_driv.Events.{TrackingEvent}
use sentinel_flow_event_driv.Fraud.Rules.{new_rule_state, scored, rate_reason}
use sentinel_flow_event_driv.Fraud.Rules.RateLimit.{Arrival, after_arrivals, IsOrdered}
use sentinel_flow_event_driv.Fraud.Service.{standard_rules, judge}
use sentinel_flow_event_driv.Fraud.Service.Scores.{fraudulent_iff}
use sentinel_flow_event_driv.Simulator.{
  legit_users, legit_types, legit_event, legit_traffic, events_of_user, events_of_users,
}
use sentinel_flow_event_driv.Simulator.Address.{
  received, IsRecent, arrive, All-front, HasAddress, crowd_lem,
}

abbrev HasLegitIp : TrackingEvent → Type 0
HasLegitIp = HasAddress "192.168.1.15"

user-HasLegitIp :
    (clock : ℕ → Time) (i : ℕ) (user : String) (types : List String)
    → All HasLegitIp (events_of_user clock i user types)
unfolding events_of_user legit_event
user-HasLegitIp clock i user [] = tt
user-HasLegitIp clock i user (event ∷ events) = (refl, user-HasLegitIp clock (i + 1) user events)

users-HasLegitIp :
    (clock : ℕ → Time) (i : ℕ) (users : List String)
    → All HasLegitIp (events_of_users clock i users)
unfolding events_of_users
users-HasLegitIp clock i [] = tt
users-HasLegitIp clock i (user ∷ users) =
    All-append HasLegitIp (events_of_user clock i user legit_types)
      (events_of_users clock (i + 4) users) (user-HasLegitIp clock i user legit_types)
      (users-HasLegitIp clock (i + 4) users)

-- All events of the legitimate traffic come from one address. In whatever order they reach the rules,
-- one that comes after ten others within five seconds, with the rate limit as these leave it, is judged
-- fraudulent: of the twelve events the last two are.
pub legitimate_is_flagged :
    (table : ℕ → ℕ) (clock readings : ℕ → Time) (log later : List Arrival) (event : TrackingEvent)
    → Permᴰ (map (λ a. a.0) (log ++ (event, readings 1) ∷ later)) (legit_traffic clock)
    → 10 ≤ length log
    → IsOrdered 0 (map arrive log ++ (received event, readings 1) ∷ [])
    → All (IsRecent (readings 1)) log
    → (judge
        (standard_rules table)
        (received event)
        readings
        (after_arrivals (map arrive log) new_rule_state)).0.is_fraudulent
      ≡ true
unfolding legit_traffic
legitimate_is_flagged table clock readings log later event perm many ordered recent =
    let all = All-perm HasLegitIp perm (users-HasLegitIp clock 0 legit_users) in
    let (before, here) = All-front HasLegitIp log later (event, readings 1) all in
    let exceeds =
      crowd_lem "192.168.1.15" log event (readings 1) before here ordered recent
      ∙ if_true (leb 10 (length log)) (scored 7 rate_reason) (scored 0 "")
          (le→leb 10 (length log) many) in
    (fraudulent_iff table (received event) readings
        (after_arrivals (map arrive log) new_rule_state)).1
      (inr (inl exceeds))

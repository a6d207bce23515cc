-- ===== src/Simulator/Caught.antt =====
-- What the fraud rules make of the attacks of the simulator.
use mathlib.Core.List.{Permᴰ}
use sentinel_flow_event_driv.Base.{
  ℕ, zero, suc, ◌+◌, ◌≡◌, refl, sym, ap, ◌∙◌, inl, inr, true, String, none, List, [], ◌∷◌, ◌++◌,
  map, leb, Bool-cases,
}
use sentinel_flow_event_driv.Base.Lists.{length, All}
use sentinel_flow_event_driv.Base.Orders.{All-perm}
use sentinel_flow_event_driv.Base.Dict.{lookup}
use sentinel_flow_event_driv.Base.Text.{codes, to_lower, contains, lower_rune, has_prefix}
use sentinel_flow_event_driv.Base.Word.{Time}
use sentinel_flow_event_driv.Events.{TrackingEvent}
use sentinel_flow_event_driv.Fraud.Rules.{
  RuleState, new_rule_state, scored, rate_reason, bot_reason, bot_verdict, geo_reason, country_of,
  rate_limit_rule, geo_velocity_rule, geo_evaluate,
}
use sentinel_flow_event_driv.Fraud.Rules.RateLimit.{Arrival, after_arrivals, IsOrdered}
use sentinel_flow_event_driv.Fraud.Service.{standard_rules, judge}
use sentinel_flow_event_driv.Fraud.Service.Scores.{fraudulent_iff, ExceedsRate}
use sentinel_flow_event_driv.Simulator.Address.{
  received, IsRecent, arrive, All-front, HasAddress, crowd_lem,
}
use sentinel_flow_event_driv.Simulator.Attacks.{
  bots, bot_event, bot_events, bot_traffic, burst_event, burst_events, burst_traffic,
}

-- The agent of an event has a signature of a bot.
abbrev HasBotAgent : (ℕ → ℕ) → String → Type 0
HasBotAgent table agent = bot_verdict table (codes agent) ≡ scored 8 bot_reason

agents : (table : ℕ → ℕ) → All (λ b. HasBotAgent table b.1) bots
unfolding bot_verdict contains to_lower lower_rune has_prefix
agents table = (refl, (refl, (refl, tt)))

pub mozilla : (table : ℕ → ℕ) → bot_verdict table (codes "Mozilla/5.0") ≡ scored 0 ""
unfolding bot_verdict contains to_lower lower_rune has_prefix
mozilla table = refl

bots_flagged :
    (table : ℕ → ℕ) (clock readings : ℕ → Time) (state : RuleState) (i : ℕ)
    (of_bots : List (String × String))
    → All (λ b. HasBotAgent table b.1) of_bots
    → All
        (λ event.
          (judge (standard_rules table) (received event) readings state).0.is_fraudulent ≡ true)
        (bot_events clock i of_bots)
unfolding bot_events bot_event
bots_flagged table clock readings state i [] h = tt
bots_flagged table clock readings state i ((user_id, agent) ∷ others) h =
    let event = bot_event user_id agent (clock (i + i)) (clock (i + i + 1)) in
    (
      (fraudulent_iff table (received event) readings state).1 (inl h.0),
      bots_flagged table clock readings state (suc i) others h.1,
    )

-- Each of the three events with the agent of a bot is judged fraudulent, whatever the service has seen
-- before and whenever it sees the event.
pub bots_are_flagged :
    (table : ℕ → ℕ) (clock readings : ℕ → Time) (state : RuleState)
    → All
        (λ event.
          (judge (standard_rules table) (received event) readings state).0.is_fraudulent ≡ true)
        (bot_traffic clock)
bots_are_flagged table clock readings state =
    bots_flagged table clock readings state 0 bots (agents table)

-- What the rules look at in an event of the burst.
abbrev IsSpam : TrackingEvent → Type 0
IsSpam event =
    HasAddress "103.120.15.40" event
    × (event.user_agent ≡ "Mozilla/5.0")
    × (lookup "country" event.payload ≡ none)

burst-IsSpam : (clock : ℕ → Time) (left i : ℕ) → All IsSpam (burst_events clock left i)
unfolding burst_events burst_event lookup
burst-IsSpam clock zero i = tt
burst-IsSpam clock (suc left) i = ((refl, refl, refl), burst-IsSpam clock left (suc i))

All-addresses :
    (log : List Arrival) → All (λ a. IsSpam a.0) log → All (λ a. HasAddress "103.120.15.40" a.0) log
All-addresses [] h = tt
All-addresses (a ∷ log) h = (h.0.0, All-addresses log h.1)

-- Only the rate limit can speak against such an event.
spam_iff :
    (table : ℕ → ℕ) (event : TrackingEvent) (readings : ℕ → Time) (state : RuleState)
    → IsSpam event
    → (judge (standard_rules table) (received event) readings state).0.is_fraudulent ≡ true
    → ExceedsRate table (received event) readings state
unfolding geo_velocity_rule geo_evaluate country_of
spam_iff table event readings state (_, agent, nowhere) h =
    elim ((fraudulent_iff table (received event) readings state).0 h) [
      | inl is_bot ↦
          let clash : scored 8 bot_reason ≡ scored 0 "" =
            sym is_bot ∙ ap (λ s. bot_verdict table (codes s)) agent ∙ mozilla table in
          cc
      | inr (inl exceeds) ↦ exceeds
      | inr (inr travels) ↦
          let clash : scored 0 "" ≡ scored 9 geo_reason = rw nowhere at travels in cc
    ]

-- In whatever order the events of the burst reach the rules, one that comes after others which all lie
-- less than five seconds back, with the rate limit as these leave it, is judged fraudulent exactly if
-- there are at least ten of them: of the fifteen events the last five are, and the first ten are not.
pub burst_is_limited :
    (table : ℕ → ℕ) (clock readings : ℕ → Time) (log later : List Arrival) (event : TrackingEvent)
    → Permᴰ (map (λ a. a.0) (log ++ (event, readings 1) ∷ later)) (burst_traffic clock)
    → IsOrdered 0 (map arrive log ++ (received event, readings 1) ∷ [])
    → All (IsRecent (readings 1)) log
    → (judge
        (standard_rules table)
        (received event)
        readings
        (after_arrivals (map arrive log) new_rule_state)).0.is_fraudulent
      ≡ leb 10 (length log)
burst_is_limited table clock readings log later event perm ordered recent =
    let all = All-perm IsSpam perm (burst-IsSpam clock 15 1) in
    let (before, here) = All-front IsSpam log later (event, readings 1) all in
    let state = after_arrivals (map arrive log) new_rule_state in
    let limit =
      crowd_lem "103.120.15.40" log event (readings 1) (All-addresses log before) here.0 ordered
        recent in
    elim (Bool-cases (leb 10 (length log))) [
      | inl many ↦
          (fraudulent_iff table (received event) readings state).1
            (inr (inl (limit ∙ rw many refl)))
          ∙ sym many
      | inr few ↦
          elim (Bool-cases
            (judge (standard_rules table) (received event) readings state).0.is_fraudulent) [
              | inr legitimate ↦ legitimate ∙ sym few
              | inl fraud ↦
                  let quiet : (rate_limit_rule.evaluate (received event) (readings 1) state).0
                      ≡ scored 0 "" =
                    limit ∙ rw few refl in
                  let clash : scored 7 rate_reason ≡ scored 0 "" =
                    sym (spam_iff table event readings state here fraud) ∙ quiet in
                  cc
            ]
    ]

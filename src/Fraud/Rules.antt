-- ===== src/Fraud/Rules.antt =====
-- pkg/domain/fraud/rules.go. A rule takes the event, its reading of the clock and the rule state, and
-- gives its answer and the new state; the state's mutex makes each rule one step. A score is in
-- tenths: the scores of the rules are 0.4, 0.7, 0.8 and 0.9, and no sum of them comes so near to 0.5
-- or 1.0, which the service compares with, that the rounding of float64 could decide.
pub mod Bot
pub mod RateLimit
pub mod Geo
use sentinel_flow_event_driv.Base.{
  ℕ, ◌*◌, String, Bool, true, false, ◌&&◌, ◌||◌, not, Option, none, some, List, [], ◌∷◌, ◌++◌, ltb,
  str_eq, if◌then◌else◌,
}
use sentinel_flow_event_driv.Base.Lists.{length}
use sentinel_flow_event_driv.Base.Dict.{Dict, lookup, insert}
use sentinel_flow_event_driv.Base.Text.{codes, to_lower, contains}
use sentinel_flow_event_driv.Base.Word.{Time, second, elapsed}
use sentinel_flow_event_driv.Events.{Value, TrackingEvent}

pub record UserGeoHistory : Type 0 where
  pub last_country : String
  pub last_time : Time

pub record RuleState : Type 0 where
  pub ip_history : Dict (List Time)
  pub user_history : Dict UserGeoHistory

abbrev pub new_rule_state : RuleState
new_rule_state = record { ip_history = []; user_history = [] }

-- `(score, reason, nil)`, or an error.
pub data Evaluation : Type 0 where
  scored : ℕ → String → Evaluation
  fails : String → Evaluation

pub record FraudRule : Type 0 where
  pub name : String
  pub evaluate : TrackingEvent → Time → RuleState → Evaluation × RuleState

abbrev pub bot_reason : String
bot_reason = "known bot/crawler user-agent signature"

abbrev pub rate_reason : String
rate_reason = "high-frequency events from single IP (rate limit exceeded)"

abbrev pub geo_reason : String
geo_reason = "geo-velocity anomaly: user IP location changed too fast"

-- The verdict of the bot rule on the code points of a user agent. `table` is the part of Unicode's
-- table of lower-case letters above ASCII.
unfoldable pub bot_verdict : (ℕ → ℕ) → List ℕ → Evaluation
bot_verdict table [] = scored 4 "empty user-agent"
bot_verdict table (c ∷ cs) =
    let ua = to_lower table (c ∷ cs) in
    if contains ua (codes "bot")
      || contains ua (codes "crawler")
      || contains ua (codes "headless")
      || contains ua (codes "spider")
      || contains ua (codes "python-requests")
      || contains ua (codes "curl")
    then scored 8 bot_reason
    else scored 0 ""

unfoldable pub bot_rule : (ℕ → ℕ) → FraudRule
unfolding bot_verdict
bot_rule table = record {
  name = "Bot Detection";
  evaluate = λ event now state. (bot_verdict table (codes event.user_agent), state);
}

-- `state.IPHistory[ip]`: no entry reads as nil.
abbrev pub or_nil : Option (List Time) → List Time
or_nil none = []
or_nil (some ts) = ts

abbrev pub stamps_of : String → RuleState → List Time
stamps_of ip state = or_nil (lookup ip state.ip_history)

-- The loop over `history`.
unfoldable pub active_stamps : Time → List Time → List Time
active_stamps now [] = []
active_stamps now (t ∷ ts) =
    let rest = active_stamps now ts in if ltb (elapsed now t) (5 * second) then t ∷ rest else rest

unfoldable pub rate_limit_rule : FraudRule
unfolding active_stamps
rate_limit_rule = record {
  name = "IP Rate Limiting";
  evaluate = λ event now state.
      let active = active_stamps now (stamps_of event.ip_address state) ++ now ∷ [] in
      (
        if ltb 10 (length active) then scored 7 rate_reason else scored 0 "",
        record state { ip_history = insert event.ip_address active state.ip_history },
      );
}

-- `countryVal.(string)`, where there is a text that is not empty.
abbrev pub country_of_value : Option Value → Option String
country_of_value (some (Value.text s)) = if str_eq s "" then none else some s
country_of_value _ = none

unfoldable pub country_of : TrackingEvent → Option String
country_of event = country_of_value (lookup "country" event.payload)

-- `exists`, another country, and less than ten seconds.
unfoldable pub too_fast : String → Time → Option UserGeoHistory → Bool
too_fast country now none = false
too_fast country now (some last) =
    not (str_eq last.last_country country) && ltb (elapsed now last.last_time) (10 * second)

-- The rule on the country of the event, if it has one. The record of a flagged user stays as it is.
unfoldable pub geo_evaluate : Option String → String → Time → RuleState → Evaluation × RuleState
unfolding too_fast
geo_evaluate none user now state = (scored 0 "", state)
geo_evaluate (some country) user now state =
    if too_fast country now (lookup user state.user_history)
    then (scored 9 geo_reason, state)
    else (
      scored 0 "",
      record state {
        user_history =
            insert user (record { last_country = country; last_time = now }) state.user_history;
      },
    )

unfoldable pub geo_velocity_rule : FraudRule
unfolding country_of geo_evaluate
geo_velocity_rule = record {
  name = "Geo-Velocity Anomaly";
  evaluate = λ event now state. geo_evaluate (country_of event) event.user_id now state;
}

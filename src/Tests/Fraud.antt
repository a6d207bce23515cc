-- ===== src/Tests/Fraud.antt =====
-- pkg/domain/fraud: the theorems on short runs of events.
use sentinel_flow_event_driv.Base.{
  ℕ, ◌+◌, ◌<◌, ◌≤◌, ◌≡◌, ◌↔◌, ◌⊎◌, true, none, String, [], ◌∷◌, arith, ltb, if◌then◌else◌,
}
use sentinel_flow_event_driv.Base.Text.{codes, to_lower, IsPartOf}
use sentinel_flow_event_driv.Events.{Value, TrackingEvent, ScreenedEvent}
use sentinel_flow_event_driv.Fraud.Rules.{
  new_rule_state, scored, bot_reason, rate_reason, bot_verdict, rate_limit_rule, geo_velocity_rule,
  country_of,
}
use sentinel_flow_event_driv.Fraud.Rules.Bot.{Signature, signature_text, bot_verdict_iff}
use sentinel_flow_event_driv.Fraud.Rules.RateLimit.{
  after_arrivals, count_recent, times_of, rate_limit-window,
}
use sentinel_flow_event_driv.Fraud.Rules.Geo.{after_travels, move, moves_of, geo-moves}
use sentinel_flow_event_driv.Fraud.Service.{standard_rules, judge}
use sentinel_flow_event_driv.Fraud.Service.Scores.{
  sum_points, judge_score, IsBot, ExceedsRate, TravelsTooFast, fraudulent_iff,
}

abbrev from_country : String → TrackingEvent
from_country country = record {
  event_id = "e1";
  user_id = "u1";
  event_type = "signup";
  ip_address = "10.1.2.0";
  user_agent = "curl/8.0";
  payload = ("country", Value.text country) ∷ [];
  timestamp = 1;
  gdpr_consent = true;
}

abbrev no_table : ℕ → ℕ
no_table c = c

bot_verdict_iff_example :
    (bot_verdict no_table (codes "GoogleBot") ≡ scored 8 bot_reason)
    ↔ ((s : Signature) × IsPartOf (signature_text s) (to_lower no_table (codes "GoogleBot")))
bot_verdict_iff_example = bot_verdict_iff no_table (codes "GoogleBot")

rate_limit-window_example :
    (rate_limit_rule.evaluate
      (from_country "ID")
      7
      (after_arrivals ((from_country "ID", 5) ∷ (from_country "ID", 6) ∷ []) new_rule_state)).0
    ≡ (if ltb 10 (
          count_recent 7
            (times_of "10.1.2.0" ((from_country "ID", 5) ∷ (from_country "ID", 6) ∷ []))
          + 1)
        then scored 7 rate_reason
        else scored 0 "")
rate_limit-window_example =
    rate_limit-window ((from_country "ID", 5) ∷ (from_country "ID", 6) ∷ []) (from_country "ID") 7
      (omega arith, (omega arith, (omega arith, tt)))

geo-moves_example :
    (geo_velocity_rule.evaluate
      (from_country "US")
      7
      (after_travels ((from_country "ID", 5) ∷ []) new_rule_state)).0
    ≡ (move (country_of (from_country "US")) 7 (moves_of "u1" ((from_country "ID", 5) ∷ []) none)).0
geo-moves_example = geo-moves ((from_country "ID", 5) ∷ []) (from_country "US") 7

judge_score_example :
    let screened =
      (judge (standard_rules no_table) (from_country "ID") (λ i. 9) new_rule_state).0 in
    let total =
      sum_points (standard_rules no_table) (from_country "ID") (λ i. 9) 0 new_rule_state in
    (screened.fraud_score ≤ 10)
    × ((screened.fraud_score ≡ total) ⊎ (10 < total) × (screened.fraud_score ≡ 10))
    × ((screened.is_fraudulent ≡ true) ↔ (5 ≤ screened.fraud_score))
judge_score_example =
    judge_score (standard_rules no_table) (from_country "ID") (λ i. 9) new_rule_state

fraudulent_iff_example :
    ((judge (standard_rules no_table) (from_country "ID") (λ i. 9) new_rule_state).0.is_fraudulent
      ≡ true)
    ↔ (IsBot no_table (from_country "ID") (λ i. 9) new_rule_state
        ⊎ ExceedsRate no_table (from_country "ID") (λ i. 9) new_rule_state
        ⊎ TravelsTooFast no_table (from_country "ID") (λ i. 9) new_rule_state)
fraudulent_iff_example = fraudulent_iff no_table (from_country "ID") (λ i. 9) new_rule_state

abbrev stored : ScreenedEvent
stored = record {
  tracking_event = from_country "ID";
  is_fraudulent = true;
  fraud_score = 8;
  fraud_reason = bot_reason;
  screened_at = 2;
}

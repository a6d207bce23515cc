-- ===== src/Simulator/Traveller.antt =====
-- The impossible travel of the simulator, against the geo-velocity rule.
use sentinel_flow_event_driv.Base.{
  ℕ, ◌+◌, ◌*◌, ◌<◌, ◌≡◌, refl, ap, ◌∙◌, inr, true, none, some, ltb, arith,
}
use sentinel_flow_event_driv.Base.Dict.{lookup, lookup-insert}
use sentinel_flow_event_driv.Base.Word.{Time, second, elapsed}
use sentinel_flow_event_driv.Fraud.Rules.{
  UserGeoHistory, RuleState, bot_rule, rate_limit_rule, geo_velocity_rule, geo_evaluate, country_of,
  too_fast,
}
use sentinel_flow_event_driv.Fraud.Service.{standard_rules, judge}
use sentinel_flow_event_driv.Fraud.Service.Scores.{fraudulent_iff, judge-states_after}
use sentinel_flow_event_driv.Simulator.Address.{received}
use sentinel_flow_event_driv.Simulator.Attacks.{geo_event, departure, landing}

seen_in_indonesia :
    (table : ℕ → ℕ) (now : Time) (readings : ℕ → Time) (state : RuleState)
    → lookup "usr_traveller" state.user_history ≡ none
    → lookup "usr_traveller"
        (judge (standard_rules table) (received (departure now)) readings state).1.user_history
      ≡ some (record { last_country = "ID"; last_time = readings 2 })
unfolding geo_event standard_rules bot_rule rate_limit_rule geo_velocity_rule geo_evaluate
    country_of too_fast lookup
seen_in_indonesia table now readings state new =
    let here : UserGeoHistory = record { last_country = "ID"; last_time = readings 2 } in
    ap (λ (s : RuleState). lookup "usr_traveller" s.user_history)
      (judge-states_after (standard_rules table) (received (departure now)) readings state)
    ∙ rw new (lookup-insert "usr_traveller" "usr_traveller" here state.user_history)

-- Of a traveller whom the rules have not seen before, the event from Japan is judged fraudulent when
-- the geo-velocity rule sees it less than ten seconds after the one from Indonesia, whatever came of
-- other users and addresses before.
pub traveller_is_flagged :
    (table : ℕ → ℕ) (now later : Time) (first next : ℕ → Time) (state : RuleState)
    → lookup "usr_traveller" state.user_history ≡ none
    → next 2 < first 2 + 10 * second
    → let (_, state') = judge (standard_rules table) (received (departure now)) first state in
      (judge (standard_rules table) (received (landing later)) next state').0.is_fraudulent ≡ true
unfolding geo_velocity_rule geo_evaluate country_of too_fast geo_event lookup
traveller_is_flagged table now later first next state new soon =
    let state' = (judge (standard_rules table) (received (departure now)) first state).1 in
    let seen = seen_in_indonesia table now first state new in
    let near : ltb (elapsed (next 2) (first 2)) (10 * second) ≡ true = ground arith in
    (fraudulent_iff table (received (landing later)) next state').1
      (inr (inr (rw (seen, near) refl)))

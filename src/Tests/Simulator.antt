-- ===== src/Tests/Simulator.antt =====
-- scripts/simulator: the legitimate traffic, in the order of the loops.
use mathlib.Core.List.Permᴰ
use sentinel_flow_event_driv.Base.{ℕ, ◌+◌, ◌≡◌, refl, true, List, [], ◌∷◌, ◌++◌, map, arith}
use sentinel_flow_event_driv.Base.Dict.{lookup}
use sentinel_flow_event_driv.Base.Word.{Time}
use sentinel_flow_event_driv.Events.{TrackingEvent}
use sentinel_flow_event_driv.Fraud.Rules.{new_rule_state}
use sentinel_flow_event_driv.Fraud.Rules.RateLimit.{Arrival, after_arrivals}
use sentinel_flow_event_driv.Fraud.Service.{standard_rules, judge}
use sentinel_flow_event_driv.Simulator.{
  legit_types, legit_event, legit_traffic, events_of_user, events_of_users,
}
use sentinel_flow_event_driv.Simulator.Address.{received, arrive}
use sentinel_flow_event_driv.Simulator.Attacks.{departure, landing}
use sentinel_flow_event_driv.Simulator.Traveller.{traveller_is_flagged}
use sentinel_flow_event_driv.Simulator.Legitimate.{legitimate_is_flagged}

abbrev clock : ℕ → Time
clock i = i

abbrev no_table : ℕ → ℕ
no_table c = c

abbrev at_seven : TrackingEvent → Arrival
at_seven event = (event, 7)

abbrev first_ten : List Arrival
first_ten = map at_seven (
    events_of_user clock 0 "usr_alpha" legit_types
    ++ events_of_user clock 4 "usr_beta" legit_types
    ++ events_of_user clock 8 "usr_gamma" ("signup" ∷ "view_item" ∷ []))

abbrev eleventh : TrackingEvent
eleventh = legit_event "usr_gamma" "cart_abandoned" (clock 20) (clock 21)

abbrev twelfth : TrackingEvent
twelfth = legit_event "usr_gamma" "checkout_completed" (clock 22) (clock 23)

legitimate_is_flagged_example :
    (judge
      (standard_rules no_table)
      (received eleventh)
      (λ i. 7)
      (after_arrivals (map arrive first_ten) new_rule_state)).0.is_fraudulent
    ≡ true
unfolding legit_traffic events_of_user events_of_users
legitimate_is_flagged_example =
    legitimate_is_flagged no_table clock (λ i. 7) first_ten (at_seven twelfth ∷ []) eleventh
      (Permᴰ.refl (legit_traffic clock)) (omega arith) (ground arith) (ground arith)

traveller_is_flagged_example :
    let (_, state) =
      judge (standard_rules no_table) (received (departure 0)) (λ i. i) new_rule_state in
    (judge (standard_rules no_table) (received (landing 1)) (λ i. i + 7) state).0.is_fraudulent
    ≡ true
unfolding lookup
traveller_is_flagged_example =
    traveller_is_flagged no_table 0 1 (λ i. i) (λ i. i + 7) new_rule_state refl (omega arith)

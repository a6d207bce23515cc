-- ===== src/Fraud/Service/Scores.antt =====
-- The score and the verdict of the service.
use sentinel_flow_event_driv.Base.{
  ℕ, suc, ◌+◌, ◌≤◌, ◌<◌, ◌≡◌, refl, ap, ◌∙◌, ◌≢◌, ◌⊎◌, inr, ◌↔◌, String, true, Option, none, some,
  List, [], ◌∷◌, arith, leb,
}
use sentinel_flow_event_driv.Base.Text.{codes}
use sentinel_flow_event_driv.Base.Word.{Time}
use sentinel_flow_event_driv.Events.{TrackingEvent}
use sentinel_flow_event_driv.Fraud.Rules.{
  RuleState, Evaluation, scored, fails, FraudRule, bot_reason, rate_reason, geo_reason, bot_verdict,
  bot_rule, rate_limit_rule, geo_velocity_rule, geo_evaluate, country_of,
}
use sentinel_flow_event_driv.Fraud.Service.{
  standard_rules, Tally, count_evaluation, apply_rules, screened_of, judge,
}

abbrev pub points : Evaluation → ℕ
points (scored n _) = n
points (fails _) = 0

score_of_count :
    (r : Evaluation × RuleState) (t : Tally)
    → ((count_evaluation r t).fraud_score ≡ t.fraud_score + points r.0)
      × ((count_evaluation r t).state ≡ r.1)
unfolding count_evaluation
score_of_count (fails e, state) t = (omega arith, refl)
score_of_count (scored n reason, state) t = ground arith

-- The scores of the rules, each on the state that the rules before it have left.
abbrev pub sum_points : List FraudRule → TrackingEvent → (ℕ → Time) → ℕ → RuleState → ℕ
sum_points [] event clock i state = 0
sum_points (rule ∷ rules) event clock i state =
    let (e, state') = rule.evaluate event (clock i) state in
    points e + sum_points rules event clock (suc i) state'

score_of_rules :
    (rules : List FraudRule) (event : TrackingEvent) (clock : ℕ → Time) (i : ℕ) (t : Tally)
    → (apply_rules rules event clock i t).fraud_score
      ≡ t.fraud_score + sum_points rules event clock i t.state
unfolding apply_rules
score_of_rules [] event clock i t = omega arith
score_of_rules (rule ∷ rules) event clock i t =
    let r = rule.evaluate event (clock i) t.state in
    score_of_rules rules event clock (suc i) (count_evaluation r t)
    ∙ rw ((score_of_count r t).0, (score_of_count r t).1) (omega arith)

-- Whatever the rules are, with their scores in tenths, the score is the sum of the scores of the
-- rules that do not fail, or 10 where the sum is greater, and the event is fraudulent exactly if its
-- score is at least 5.
pub judge_score :
    (rules : List FraudRule) (event : TrackingEvent) (clock : ℕ → Time) (state : RuleState)
    → let screened = (judge rules event clock state).0 in
      let total = sum_points rules event clock 0 state in
      (screened.fraud_score ≤ 10)
      × ((screened.fraud_score ≡ total) ⊎ (10 < total) × (screened.fraud_score ≡ 10))
      × ((screened.is_fraudulent ≡ true) ↔ (5 ≤ screened.fraud_score))
unfolding judge screened_of
judge_score rules event clock state = ground (
  arith,
  score_of_rules rules event clock 0 (record { fraud_score = 0; reasons = []; state = state }),
)

bot_verdict_cases :
    (table : ℕ → ℕ) (ua : List ℕ)
    → (bot_verdict table ua ≡ scored 8 bot_reason)
      ⊎ (bot_verdict table ua ≢ scored 8 bot_reason) × (points (bot_verdict table ua) ≤ 4)
unfolding bot_verdict
bot_verdict_cases table [] = inr ((λ e. cc), omega arith)
bot_verdict_cases table (c ∷ cs) = ground arith

rate_cases :
    (event : TrackingEvent) (now : Time) (state : RuleState)
    → let r = rate_limit_rule.evaluate event now state in
      ((r.0 ≡ scored 7 rate_reason) ⊎ (r.0 ≡ scored 0 "")) × (r.1.user_history ≡ state.user_history)
unfolding rate_limit_rule
rate_cases event now state = ground arith

geo_cases :
    (country : Option String) (user : String) (now : Time) (state other : RuleState)
    → other.user_history ≡ state.user_history
    → let e = (geo_evaluate country user now other).0 in
      ((e ≡ scored 9 geo_reason) ⊎ (e ≡ scored 0 ""))
      × (e ≡ (geo_evaluate country user now state).0)
unfolding geo_evaluate
geo_cases none user now state other h = (inr refl, refl)
geo_cases (some country) user now state other h = rw h (ground arith)

-- The state after an event, rule by rule.
abbrev pub states_after : List FraudRule → TrackingEvent → (ℕ → Time) → ℕ → RuleState → RuleState
states_after [] event clock i state = state
states_after (rule ∷ rules) event clock i state =
    states_after rules event clock (suc i) (rule.evaluate event (clock i) state).1

state_of_rules :
    (rules : List FraudRule) (event : TrackingEvent) (clock : ℕ → Time) (i : ℕ) (t : Tally)
    → (apply_rules rules event clock i t).state ≡ states_after rules event clock i t.state
unfolding apply_rules
state_of_rules [] event clock i t = refl
state_of_rules (rule ∷ rules) event clock i t =
    let r = rule.evaluate event (clock i) t.state in
    state_of_rules rules event clock (suc i) (count_evaluation r t)
    ∙ ap (states_after rules event clock (suc i)) (score_of_count r t).1

-- A rule's changes of the state stay whether it scores, does not score or fails.
pub judge-states_after :
    (rules : List FraudRule) (event : TrackingEvent) (clock : ℕ → Time) (state : RuleState)
    → (judge rules event clock state).1 ≡ states_after rules event clock 0 state
unfolding judge
judge-states_after rules event clock state =
    state_of_rules rules event clock 0 (record { fraud_score = 0; reasons = []; state = state })

verdict_of_total :
    (rules : List FraudRule) (event : TrackingEvent) (clock : ℕ → Time) (state : RuleState)
    → (judge rules event clock state).0.is_fraudulent ≡ leb 5 (sum_points rules event clock 0 state)
unfolding judge screened_of
verdict_of_total rules event clock state = ap (leb 5) (
    score_of_rules rules event clock 0 (record { fraud_score = 0; reasons = []; state = state })
    ∙ omega arith)

fraud_of_points :
    (b r g g' : Evaluation)
    → (b ≡ scored 8 bot_reason) ⊎ (b ≢ scored 8 bot_reason) × (points b ≤ 4)
    → (r ≡ scored 7 rate_reason) ⊎ (r ≡ scored 0 "")
    → (g ≡ scored 9 geo_reason) ⊎ (g ≡ scored 0 "")
    → g ≡ g'
    → (leb 5 (points b + (points r + (points g + 0))) ≡ true)
      ↔ ((b ≡ scored 8 bot_reason) ⊎ (r ≡ scored 7 rate_reason) ⊎ (g' ≡ scored 9 geo_reason))
fraud_of_points b r g g' hb hr hg same = ground arith

module _ (table : ℕ → ℕ) (event : TrackingEvent) (clock : ℕ → Time) (state : RuleState) where
  -- What each rule says of the event on its own.
  abbrev pub IsBot : Type 0
  IsBot = bot_verdict table (codes event.user_agent) ≡ scored 8 bot_reason

  abbrev pub ExceedsRate : Type 0
  ExceedsRate = (rate_limit_rule.evaluate event (clock 1) state).0 ≡ scored 7 rate_reason

  abbrev pub TravelsTooFast : Type 0
  TravelsTooFast = (geo_velocity_rule.evaluate event (clock 2) state).0 ≡ scored 9 geo_reason

  -- With the rules of the service, an event is fraudulent exactly if the bot rule finds a signature,
  -- or the rate limit is exceeded, or the travel is too fast, each judged by the state before the
  -- event: any one of them is enough, and an empty user agent is not.
  pub fraudulent_iff :
      ((judge (standard_rules table) event clock state).0.is_fraudulent ≡ true)
      ↔ (IsBot ⊎ ExceedsRate ⊎ TravelsTooFast)
  unfolding standard_rules bot_rule geo_velocity_rule
  fraudulent_iff =
      let after_rate = (rate_limit_rule.evaluate event (clock 1) state).1 in
      let rate = rate_cases event (clock 1) state in
      let geo = geo_cases (country_of event) event.user_id (clock 2) state after_rate rate.1 in
      rw (verdict_of_total (standard_rules table) event clock state) (
        fraud_of_points (bot_verdict table (codes event.user_agent))
          (rate_limit_rule.evaluate event (clock 1) state).0
          (geo_evaluate (country_of event) event.user_id (clock 2) after_rate).0
          (geo_evaluate (country_of event) event.user_id (clock 2) state).0
          (bot_verdict_cases table (codes event.user_agent)) rate.0 geo.0 geo.1)

-- ===== src/Fraud/Service.antt =====
-- pkg/domain/fraud/service.go, over any repository, tracker and broker. What the service logs is left
-- out. `clock` is asked at the number of a rule, and after the last rule for the time of screening.
pub mod Scores
use Prim.Native.String.{◌++◌ as append}
use sentinel_flow_event_driv.Base.{
  ℕ, zero, suc, ◌+◌, String, Bool, true, false, Option, none, some, List, [], ◌∷◌, ◌++◌, ltb, leb,
  if◌then◌else◌,
}
use sentinel_flow_event_driv.Base.Word.{Time}
use sentinel_flow_event_driv.Base.Lists.{length}
use sentinel_flow_event_driv.Events.{TrackingEvent, ScreenedEvent}
use sentinel_flow_event_driv.Broker.Subscription.{Context}
use sentinel_flow_event_driv.Ports.{
  Fallible, TelemetryTracker, Publisher, FraudRepository, FraudEventService,
}
use sentinel_flow_event_driv.Fraud.Rules.{
  RuleState, new_rule_state, Evaluation, scored, fails, FraudRule, bot_rule, rate_limit_rule,
  geo_velocity_rule,
}

-- The rules of `NewFraudService`.
unfoldable pub standard_rules : (ℕ → ℕ) → List FraudRule
standard_rules table = bot_rule table ∷ rate_limit_rule ∷ geo_velocity_rule ∷ []

-- The variables of the loop over the rules.
pub record Tally : Type 0 where
  pub fraud_score : ℕ
  pub reasons : List String
  pub state : RuleState

-- An error is logged, and the loop goes on; what the rule has changed of the state stays changed.
unfoldable pub count_evaluation : Evaluation × RuleState → Tally → Tally
count_evaluation (fails _, state) t = record t { state = state }
count_evaluation (scored score reason, state) t =
    if ltb 0 score
    then record {
      fraud_score = t.fraud_score + score;
      reasons = t.reasons ++ reason ∷ [];
      state = state;
    }
    else record t { state = state }

unfoldable pub apply_rules : List FraudRule → TrackingEvent → (ℕ → Time) → ℕ → Tally → Tally
unfolding count_evaluation
apply_rules [] event clock i t = t
apply_rules (rule ∷ rules) event clock i t =
    apply_rules rules event clock (suc i)
      (count_evaluation (rule.evaluate event (clock i) t.state) t)

-- `strings.Join(reasons, ", ")`
unfoldable pub join : List String → String
join [] = ""
join (s ∷ []) = s
join (s ∷ s' ∷ rest) = append s (append ", " (join (s' ∷ rest)))

-- The screened event, with the score capped at 1.0.
unfoldable pub screened_of : TrackingEvent → Tally → Time → ScreenedEvent
unfolding join
screened_of event t now = record {
  tracking_event = event;
  is_fraudulent = leb 5 t.fraud_score;
  fraud_score = if ltb 10 t.fraud_score then 10 else t.fraud_score;
  fraud_reason = join t.reasons;
  screened_at = now;
}

unfoldable pub judge :
    List FraudRule → TrackingEvent → (ℕ → Time) → RuleState → ScreenedEvent × RuleState
unfolding apply_rules screened_of
judge rules event clock state =
    let t =
      apply_rules rules event clock 0 (record { fraud_score = 0; reasons = []; state = state }) in
    (screened_of event t (clock (length rules)), t.state)

module _ {W : Type 0} (repo : FraudRepository W) (tracker : TelemetryTracker W)
    (broker : Publisher W) where
  -- `ScreenEvent`: save, count, publish; an error of the first or the last is only logged.
  unfoldable pub screen_event :
      List FraudRule → Context → (ℕ → Time) → TrackingEvent → RuleState × W → RuleState × W
  unfolding judge
  screen_event rules ctx clock event (state, w) =
      let (screened, state') = judge rules event clock state in
      let saved = (repo.save_event screened w).1 in
      let counted =
        tracker.increment_metric (if screened.is_fraudulent then "fraudulent" else "legitimate") 1
          saved in
      (state', (broker.publish_screened ctx screened counted).1)

-- `GetEventsByUserID` and `DeleteUserEvents` of the service, which hand the call on to the repository.
unfoldable pub event_service : {W : Type 0} → FraudRepository W → FraudEventService W
event_service repo = record {
  events_by_user_id = repo.get_events_by_user_id;
  delete_events = repo.delete_user_events;
}

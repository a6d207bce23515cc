-- ===== src/Fraud/Rules/Geo.antt =====
-- The travels of one user, against the events of all users.
use sentinel_flow_event_driv.Base.{
  ◌≡◌, refl, ◌∙◌, String, Bool, false, not, ◌&&◌, Option, none, some, List, [], ◌∷◌, arith, ltb,
  str_eq, if◌then◌else◌, eq_iff,
}
use sentinel_flow_event_driv.Base.Dict.{lookup, lookup-insert}
use sentinel_flow_event_driv.Base.Word.{Time, elapsed}
use sentinel_flow_event_driv.Events.{TrackingEvent}
use sentinel_flow_event_driv.Fraud.Rules.{
  UserGeoHistory, RuleState, new_rule_state, Evaluation, scored, geo_reason, country_of, too_fast,
  geo_evaluate, geo_velocity_rule,
}
use sentinel_flow_event_driv.Fraud.Rules.RateLimit.{Arrival}

-- The rule over a run of events, the earliest first.
unfoldable pub after_travels : List Arrival → RuleState → RuleState
after_travels [] state = state
after_travels ((event, t) ∷ log) state =
    after_travels log (geo_velocity_rule.evaluate event t state).1

-- The specification, for one user: where the user was last seen, and the verdict on a move from there.
abbrev pub Seen : Type 0
Seen = Option UserGeoHistory

-- In another country than the last one, less than ten seconds after it.
abbrev pub jumps : String → Time → Seen → Bool
jumps country now none = false
jumps country now (some last) =
    not (str_eq last.last_country country) && ltb (elapsed now last.last_time) 10_000_000_000

unfoldable pub move : Option String → Time → Seen → Evaluation × Seen
move none now seen = (scored 0 "", seen)
move (some country) now seen =
    if jumps country now seen
    then (scored 9 geo_reason, seen)
    else (scored 0 "", some (record { last_country = country; last_time = now }))

-- A user's own moves out of the events of all users.
unfoldable pub moves_of : String → List Arrival → Seen → Seen
unfolding move
moves_of user [] seen = seen
moves_of user ((event, t) ∷ log) seen =
    moves_of user log
      (if str_eq event.user_id user then (move (country_of event) t seen).1 else seen)

too_fast_lem :
    (country : String) (now : Time) (seen : Seen)
    → too_fast country now seen ≡ jumps country now seen
unfolding too_fast
too_fast_lem country now none = refl
too_fast_lem country now (some last) = refl

verdict_of_move :
    (country : Option String) (user : String) (t : Time) (state : RuleState)
    → (geo_evaluate country user t state).0 ≡ (move country t (lookup user state.user_history)).0
unfolding geo_evaluate move
verdict_of_move none user t state = refl
verdict_of_move (some country) user t state =
    ground (arith, too_fast_lem country t (lookup user state.user_history))

seen_after :
    (country : Option String) (user other : String) (t : Time) (state : RuleState)
    → lookup other (geo_evaluate country user t state).1.user_history ≡ (
        if str_eq user other
        then (move country t (lookup other state.user_history)).1
        else lookup other state.user_history)
unfolding geo_evaluate move
seen_after none user other t state = ground arith
seen_after (some country) user other t state =
    let here : UserGeoHistory = record { last_country = country; last_time = t } in
    ground (
      arith,
      eq_iff user other,
      too_fast_lem country t (lookup user state.user_history),
      lookup-insert user other here state.user_history,
    )

-- The state after the events of all users holds, for each user, where that user's own events lead
-- from where the user was seen before.
seen_after_travels :
    (log : List Arrival) (user : String) (state : RuleState)
    → lookup user (after_travels log state).user_history
      ≡ moves_of user log (lookup user state.user_history)
unfolding after_travels moves_of geo_velocity_rule
seen_after_travels [] user state = refl
seen_after_travels ((event, t) ∷ log) user state =
    seen_after_travels log user (geo_velocity_rule.evaluate event t state).1
    ∙ rw (seen_after (country_of event) event.user_id user t state)

-- After any run of events of any users, the rule answers an event of a user as that user's own events
-- alone say: each event with a country moves the user there, or is flagged and moves nobody, if the
-- user was last seen in another country less than ten seconds before.
pub geo-moves :
    (log : List Arrival) (event : TrackingEvent) (t : Time)
    → (geo_velocity_rule.evaluate event t (after_travels log new_rule_state)).0
      ≡ (move (country_of event) t (moves_of event.user_id log none)).0
unfolding geo_velocity_rule lookup
geo-moves log event t =
    verdict_of_move (country_of event) event.user_id t (after_travels log new_rule_state)
    ∙ rw (seen_after_travels log event.user_id new_rule_state)

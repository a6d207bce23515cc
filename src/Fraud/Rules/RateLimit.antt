-- ===== src/Fraud/Rules/RateLimit.antt =====
-- The sliding window of the rate limit, against the log of all events.
use sentinel_flow_event_driv.Base.{
  ℕ, suc, ◌+◌, ◌*◌, ◌≤◌, ◌≡◌, refl, ap, ◌∙◌, inl, inr, String, List, [], ◌∷◌, ◌++◌, arith,
  Bool-cases, ltb, str_eq, if◌then◌else◌, eq_iff,
}
use mathlib.Core.List.{append_assoc, append-nil}
use sentinel_flow_event_driv.Base.Lists.{length, length-append}
use sentinel_flow_event_driv.Base.Dict.{lookup, lookup-insert}
use sentinel_flow_event_driv.Base.Word.{Time, second, elapsed}
use sentinel_flow_event_driv.Events.{TrackingEvent}
use sentinel_flow_event_driv.Fraud.Rules.{
  RuleState, new_rule_state, or_nil, scored, rate_reason, stamps_of, active_stamps, rate_limit_rule,
}

-- An event and the time at which the rule sees it.
abbrev pub Arrival : Type 0
Arrival = TrackingEvent × Time

-- The rule over a run of events, the earliest first.
unfoldable pub after_arrivals : List Arrival → RuleState → RuleState
after_arrivals [] state = state
after_arrivals ((event, t) ∷ log) state =
    after_arrivals log (rate_limit_rule.evaluate event t state).1

-- The specification: all times at which an address was seen, ...
unfoldable pub times_of : String → List Arrival → List Time
times_of ip [] = []
times_of ip ((event, t) ∷ log) =
    let rest = times_of ip log in if str_eq event.ip_address ip then t ∷ rest else rest

-- ... and how many of them lie less than five seconds back.
unfoldable pub count_recent : Time → List Time → ℕ
count_recent now [] = 0
count_recent now (t ∷ ts) =
    let rest = count_recent now ts in if ltb (elapsed now t) (5 * second) then suc rest else rest

-- The arrivals follow one another in time, from a time on.
abbrev pub IsOrdered : Time → List Arrival → Type 0
IsOrdered t [] = Unit
IsOrdered t (a ∷ log) = (t ≤ a.1) × IsOrdered a.1 log

length-active_stamps :
    (now : Time) (ts : List Time) → length (active_stamps now ts) ≡ count_recent now ts
unfolding active_stamps count_recent
length-active_stamps now [] = refl
length-active_stamps now (t ∷ ts) = ground (arith, length-active_stamps now ts)

active_stamps-append :
    (now : Time) (xs ys : List Time)
    → active_stamps now (xs ++ ys) ≡ active_stamps now xs ++ active_stamps now ys
unfolding active_stamps
active_stamps-append now [] ys = refl
active_stamps-append now (x ∷ xs) ys = ground (arith, active_stamps-append now xs ys)

-- What has left the window does not come back to it.
active_stamps-later :
    (now later : Time) (ts : List Time)
    → now ≤ later
    → active_stamps later (active_stamps now ts) ≡ active_stamps later ts
unfolding active_stamps
active_stamps-later now later [] h = refl
active_stamps-later now later (t ∷ ts) h = ground (arith, active_stamps-later now later ts h)

-- The state remembers of every address what a window that ends now or later can still hold.
abbrev Remembers : RuleState → List Arrival → Time → Type 0
Remembers state past now =
    (ip : String) (later : Time)
    → now ≤ later
    → active_stamps later (stamps_of ip state) ≡ active_stamps later (times_of ip past)

times_of-append :
    (ip : String) (xs ys : List Arrival) → times_of ip (xs ++ ys) ≡ times_of ip xs ++ times_of ip ys
unfolding times_of
times_of-append ip [] ys = refl
times_of-append ip (x ∷ xs) ys = ground (arith, times_of-append ip xs ys)

stamps_after :
    (event : TrackingEvent) (t : Time) (state : RuleState) (ip : String)
    → stamps_of ip (rate_limit_rule.evaluate event t state).1 ≡ (
        if str_eq event.ip_address ip
        then active_stamps t (stamps_of event.ip_address state) ++ t ∷ []
        else stamps_of ip state)
unfolding rate_limit_rule
stamps_after event t state ip =
    let active = active_stamps t (stamps_of event.ip_address state) ++ t ∷ [] in
    ap or_nil (lookup-insert event.ip_address ip active state.ip_history)
    ∙ (elim (Bool-cases (str_eq event.ip_address ip)) [ inl same ↦ rw same | inr other ↦ rw other ])

times_of_one :
    (ip : String) (event : TrackingEvent) (t : Time)
    → times_of ip ((event, t) ∷ []) ≡ (if str_eq event.ip_address ip then t ∷ [] else [])
unfolding times_of
times_of_one ip event t = refl

Remembers-step :
    (event : TrackingEvent) (t now : Time) (state : RuleState) (past : List Arrival)
    → now ≤ t
    → Remembers state past now
    → Remembers (rate_limit_rule.evaluate event t state).1 (past ++ (event, t) ∷ []) t
Remembers-step event t now state past h r ip later k =
    let old = r ip later (omega arith) in
    elim (Bool-cases (str_eq event.ip_address ip)) [
      | inl same ↦
          let here : event.ip_address ≡ ip = (eq_iff event.ip_address ip).0 same in
          rw (stamps_after event t state ip, times_of-append ip past, times_of_one, same)
            (rw
              (
                active_stamps-append later,
                active_stamps-append later,
                active_stamps-later t later (stamps_of event.ip_address state) k,
                here,
              )
              (rw old))
      | inr other ↦
          rw (stamps_after event t state ip, times_of-append ip past, times_of_one, other)
            (rw append-nil old)
    ]

verdict_of_state :
    (past : List Arrival) (event : TrackingEvent) (t now : Time) (state : RuleState)
    → now ≤ t
    → Remembers state past now
    → (rate_limit_rule.evaluate event t state).0 ≡ (
        if ltb 10 (count_recent t (times_of event.ip_address past) + 1)
        then scored 7 rate_reason
        else scored 0 "")
verdict_of_state past event t now state h r =
    let stamps = stamps_of event.ip_address state in
    let count : length (active_stamps t stamps ++ t ∷ [])
        ≡ count_recent t (times_of event.ip_address past) + 1 =
      length-append (active_stamps t stamps) (t ∷ [])
      ∙ rw (r event.ip_address t h, length-active_stamps) in
    unfold rate_limit_rule in rw count

verdict_after_log :
    (log past : List Arrival) (event : TrackingEvent) (t now : Time) (state : RuleState)
    → IsOrdered now (log ++ (event, t) ∷ [])
    → Remembers state past now
    → (rate_limit_rule.evaluate event t (after_arrivals log state)).0 ≡ (
        if ltb 10 (count_recent t (times_of event.ip_address (past ++ log)) + 1)
        then scored 7 rate_reason
        else scored 0 "")
unfolding after_arrivals
verdict_after_log [] past event t now state h r =
    rw append-nil (verdict_of_state past event t now state h.0 r)
verdict_after_log ((e, s) ∷ log) past event t now state h r = rw append_assoc at (
    verdict_after_log log (past ++ (e, s) ∷ []) event t s (rate_limit_rule.evaluate e s state).1 h.1
      (Remembers-step e s now state past h.0 r))

-- Where the clock does not run backwards over the events that a new rule state has seen, the rule
-- answers as the log of all these events says, though it keeps only a window of it: an event exceeds
-- the limit exactly if it is at least the eleventh that came from its address within five seconds,
-- itself included.
pub rate_limit-window :
    (log : List Arrival) (event : TrackingEvent) (t : Time)
    → IsOrdered 0 (log ++ (event, t) ∷ [])
    → (rate_limit_rule.evaluate event t (after_arrivals log new_rule_state)).0 ≡ (
        if ltb 10 (count_recent t (times_of event.ip_address log) + 1)
        then scored 7 rate_reason
        else scored 0 "")
unfolding lookup times_of
rate_limit-window log event t h =
    verdict_after_log log [] event t 0 new_rule_state h (λ ip later k. refl)

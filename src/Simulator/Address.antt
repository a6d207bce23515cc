-- ===== src/Simulator/Address.antt =====
-- Traffic from one address before the rate limit.
use sentinel_flow_event_driv.Base.{
  suc, ◌+◌, ◌*◌, ◌<◌, ◌≡◌, refl, ap, ◌∙◌, true, String, List, [], ◌∷◌, ◌++◌, map, arith, eq_refl,
  ltb, leb, if◌then◌else◌,
}
use sentinel_flow_event_driv.Base.Lists.{length, All}
use sentinel_flow_event_driv.Base.Word.{Time, second, elapsed}
use sentinel_flow_event_driv.Events.{TrackingEvent}
use sentinel_flow_event_driv.Ingest.Consent.{anonymize_ip}
use sentinel_flow_event_driv.Fraud.Rules.{new_rule_state, rate_limit_rule, scored, rate_reason}
use sentinel_flow_event_driv.Fraud.Rules.RateLimit.{
  Arrival, after_arrivals, times_of, count_recent, IsOrdered, rate_limit-window,
}

-- An event as the fraud worker receives it.
abbrev pub received : TrackingEvent → TrackingEvent
received event = record event { ip_address = anonymize_ip event.ip_address }

-- Arrivals less than five seconds before a time.
abbrev pub IsRecent : Time → Arrival → Type 0
IsRecent t a = t < a.1 + 5 * second

abbrev pub arrive : Arrival → Arrival
arrive a = (received a.0, a.1)

-- The members of a part in front.
pub All-front :
    (P : TrackingEvent → Type 0) (log later : List Arrival) (a : Arrival)
    → All P (map (λ b. b.0) (log ++ a ∷ later))
    → All (λ b. P b.0) log × P a.0
All-front P [] later a h = (tt, h.0)
All-front P (b ∷ log) later a h =
    let (rest, last) = All-front P log later a h.1 in ((h.0, rest), last)

module _ (address : String) where
  abbrev pub HasAddress : TrackingEvent → Type 0
  HasAddress event = event.ip_address ≡ address

  count-IsRecent :
      (t : Time) (log : List Arrival)
      → All (λ a. HasAddress a.0) log
      → All (IsRecent t) log
      → count_recent t (times_of (anonymize_ip address) (map arrive log)) ≡ length log
  unfolding count_recent times_of
  count-IsRecent t [] h r = refl
  count-IsRecent t (a ∷ log) h r =
      let rest = count-IsRecent t log h.1 r.1 in
      let same = eq_refl (anonymize_ip address) in
      let recent = r.0 in
      let near : ltb (elapsed t a.1) (5 * second) ≡ true = ground arith in
      rw (h.0, same, near) (ap suc rest)

  -- The verdict of the rate limit on an event after recent ones from its address.
  pub crowd_lem :
      (log : List Arrival) (event : TrackingEvent) (t : Time)
      → All (λ a. HasAddress a.0) log
      → HasAddress event
      → IsOrdered 0 (map arrive log ++ (received event, t) ∷ [])
      → All (IsRecent t) log
      → (rate_limit_rule.evaluate
          (received event)
          t
          (after_arrivals (map arrive log) new_rule_state)).0
        ≡ (if leb 10 (length log) then scored 7 rate_reason else scored 0 "")
  crowd_lem log event t h here ordered recent =
      let seen : count_recent t (times_of (received event).ip_address (map arrive log))
          ≡ length log =
        rw here (count-IsRecent t log h recent) in
      rate_limit-window (map arrive log) (received event) t ordered ∙ rw seen (ground arith)

-- ===== src/Simulator/Queue.antt =====
-- The simulator's traffic before the ingest gateway.
use Prim.Native.String.{◌++◌ as append}
use text.Mathlib.TextLemmas.{append-eq-nil_iff}
use mathlib.Core.List.{Permᴰ, append_assoc, append-nil}
use sentinel_flow_event_driv.Base.{
  ℕ, zero, suc, ◌+◌, ◌≤◌, ◌<◌, ◌≡◌, refl, ap, ◌∙◌, inl, inr, Bool-cases, true, false, String,
  Option, none, some, List, [], ◌∷◌, ◌++◌, map, arith, ltb, ◌≢◌, str_eq, str_eq-ne, eq_iff,
}
use sentinel_flow_event_driv.Base.Lists.{length, length-append, replicate, All, All-append}
use sentinel_flow_event_driv.Base.Orders.{All-perm, length-perm}
use sentinel_flow_event_driv.Base.Text.{decimal}
use sentinel_flow_event_driv.Marketing.Handlers.{unix_nano}
use sentinel_flow_event_driv.Base.Word.{Time}
use sentinel_flow_event_driv.Events.{TrackingEvent}
use sentinel_flow_event_driv.Broker.{publish_raw}
use sentinel_flow_event_driv.Broker.Subscription.{Context, push}
use sentinel_flow_event_driv.Broker.Delivery.{IsLive, deliver, publish-delivers}
use sentinel_flow_event_driv.Http.{json_reply}
use sentinel_flow_event_driv.Analytics.Memory.{increment_metric}
use sentinel_flow_event_driv.Ingest.Consent.{check_gdpr_consent, needs_consent}
use sentinel_flow_event_driv.Ingest.Handler.{
  lacks_field, after_publish, accept_event, ingest_decoded, handle_ingest,
}
use sentinel_flow_event_driv.Cluster.{Cluster, broker_port, tracker_port}
use sentinel_flow_event_driv.Cluster.Wired.{wired, published, stamped_consent, unused}
use sentinel_flow_event_driv.Simulator.{
  legit_types, legit_users, legit_event, legit_traffic, events_of_user, events_of_users,
}
use sentinel_flow_event_driv.Simulator.Attacks.{
  bots, bot_event, bot_events, bot_traffic, burst_event, burst_events, burst_traffic, geo_event,
  compliance_event,
}
use sentinel_flow_event_driv.Simulator.Session.{traffic, post_all}

-- An event that the handler lets through.
abbrev pub Passes : TrackingEvent → Type 0
Passes event =
    (lacks_field event ≡ false) × (check_gdpr_consent event.event_type event.gdpr_consent ≡ none)

publish_room :
    (ctx : Context) (n : ℕ) (now : Time) (event : TrackingEvent) (raw : List TrackingEvent)
    → IsLive ctx
    → length raw < n
    → publish_raw ctx event (wired n raw []) ≡ (none, wired n (raw ++ event ∷ []) [])
unfolding deliver push
publish_room ctx n now event raw live room =
    let has_room : ltb (length raw) n ≡ true = ground arith in
    (publish-delivers ctx event (unused now event) (wired n raw []) refl live).0 ∙ rw has_room

module _ {C : Type 0} where
  ingest_room :
      (ctx : Context) (n : ℕ) (now : Time) (event : TrackingEvent) (raw : List TrackingEvent)
      (w : Cluster C)
      → IsLive ctx
      → length raw < n
      → Passes event
      → handle_ingest broker_port tracker_port ctx now "POST"
          (some event)
          (record w { broker = wired n raw [] })
        ≡ (
          json_reply 202 "{\"status\": \"accepted\", \"message\": \"event queued for screening\"}",
          record w {
            broker = wired n (raw ++ published now event ∷ []) [];
            tracker = increment_metric "total_received" 1 w.tracker;
          },
        )
  unfolding handle_ingest ingest_decoded accept_event after_publish
  ingest_room ctx n now event raw w live room (full, consent) =
      rw
        (
          full,
          stamped_consent now event ∙ consent,
          publish_room ctx n now (published now event) raw live room,
        )
        refl

  posts_queue :
      (wire : TrackingEvent → Option TrackingEvent) (ctx : Context) (n : ℕ) (now : Time)
      (events raw : List TrackingEvent) (w : Cluster C)
      → ((event : TrackingEvent) → wire event ≡ some event)
      → IsLive ctx
      → length raw + length events ≤ n
      → All Passes events
      → let (codes, w') = post_all wire ctx now events (record w { broker = wired n raw [] }) in
        (codes ≡ replicate (length events) 202)
        × (w'.broker ≡ wired n (raw ++ map (published now) events) [])
  unfolding post_all
  posts_queue wire ctx n now [] raw w faithful live room passes = (refl, rw append-nil refl)
  posts_queue wire ctx n now (event ∷ events) raw w faithful live room (passes, others) =
      let counted = record w { tracker = increment_metric "total_received" 1 w.tracker } in
      let one = ingest_room ctx n now event raw w live (ground arith) passes in
      let more = length-append raw (published now event ∷ []) in
      let (codes, queued) =
        posts_queue wire ctx n now events (raw ++ published now event ∷ []) counted faithful live
          (ground arith) others in
      rw (faithful event, one) (ap (λ c. 202 ∷ c) codes, queued ∙ rw append_assoc refl)

prefixed-str_eq : (front back : String) → front ≢ "" → str_eq (append front back) "" ≡ false
prefixed-str_eq front back given =
    str_eq-ne (append front back) "" (λ e. given (append-eq-nil_iff.0 e).0)

granted : (kind : String) → check_gdpr_consent kind true ≡ none
unfolding check_gdpr_consent
granted kind = elim (Bool-cases (needs_consent kind)) [ inl h ↦ rw h refl | inr h ↦ rw h refl ]

user-Passes :
    (clock : ℕ → Time) (i : ℕ) (user : String) (types : List String)
    → str_eq user "" ≡ false
    → All (λ kind. str_eq kind "" ≡ false) types
    → All Passes (events_of_user clock i user types)
unfolding events_of_user legit_event check_gdpr_consent
user-Passes clock i user [] named kinds = tt
user-Passes clock i user (kind ∷ kinds_) named (here, others) =
    let numbered = append user (append "-" (decimal (unix_nano (clock (i + i))))) in
    let full = prefixed-str_eq "evt-legit-" numbered (ground (arith, eq_iff "evt-legit-" "")) in
    (
      (rw (full, named, here) refl, granted kind),
      user-Passes clock (i + 1) user kinds_ named others,
    )

bot-Passes :
    (user_id agent : String) (now later : Time)
    → str_eq user_id "" ≡ false
    → Passes (bot_event user_id agent now later)
unfolding bot_event check_gdpr_consent
bot-Passes user_id agent now later named =
    let full =
      prefixed-str_eq "evt-bot-" (append user_id (append "-" (decimal (unix_nano now))))
        (ground (arith, eq_iff "evt-bot-" "")) in
    (rw (full, named) refl, refl)

bots-Passes :
    (clock : ℕ → Time) (i : ℕ) (of_bots : List (String × String))
    → All (λ b. str_eq b.0 "" ≡ false) of_bots
    → All Passes (bot_events clock i of_bots)
unfolding bot_events
bots-Passes clock i [] named = tt
bots-Passes clock i ((user_id, agent) ∷ of_bots) (here, others) = (
  bot-Passes user_id agent (clock (i + i)) (clock (i + i + 1)) here,
  bots-Passes clock (suc i) of_bots others,
)

burst-Passes : (clock : ℕ → Time) (left i : ℕ) → All Passes (burst_events clock left i)
unfolding burst_events burst_event check_gdpr_consent
burst-Passes clock zero i = tt
burst-Passes clock (suc left) i =
    let full =
      prefixed-str_eq "evt-burst-" (decimal (unix_nano (clock (i + i))))
        (ground (arith, eq_iff "evt-burst-" "")) in
    ((rw full refl, refl), burst-Passes clock left (suc i))

users-Passes :
    (clock : ℕ → Time) (i : ℕ) (users : List String)
    → All (λ user. str_eq user "" ≡ false) users
    → All Passes (events_of_users clock i users)
unfolding events_of_users
users-Passes clock i [] named = tt
users-Passes clock i (user ∷ users) (here, others) =
    All-append Passes (events_of_user clock i user legit_types)
      (events_of_users clock (i + 4) users)
      (user-Passes clock i user legit_types here (refl, (refl, (refl, (refl, tt)))))
      (users-Passes clock (i + 4) users others)

pub traffic-Passes : (clock : ℕ → ℕ → Time) → All Passes (traffic clock)
unfolding traffic legit_traffic geo_event compliance_event check_gdpr_consent
traffic-Passes clock =
    let legit = users-Passes (clock 0) 0 legit_users (refl, (refl, (refl, tt))) in
    let bot = bots-Passes (clock 1) 0 bots (refl, (refl, (refl, tt))) in
    let front = All-append Passes (legit_traffic (clock 0)) (bot_traffic (clock 1)) legit bot in
    let attacks =
      All-append Passes (legit_traffic (clock 0) ++ bot_traffic (clock 1)) (burst_traffic (clock 2))
        front (burst-Passes (clock 2) 15 1) in
    All-append Passes (legit_traffic (clock 0) ++ bot_traffic (clock 1) ++ burst_traffic (clock 2))
      _ attacks ((refl, refl), ((refl, refl), ((refl, refl), tt)))

-- Posted in any order, under a context that is not done and through JSON unchanged, to modules whose
-- broker is open and has one raw subscriber, with room in its empty channel for all 33 of them, the
-- events of the simulator are all answered 202, and the channel gets each of them, with its masked
-- address, in the order of the posts.
pub simulation_is_queued :
    {C : Type 0} (wire : TrackingEvent → Option TrackingEvent) (ctx : Context) (n : ℕ) (now : Time)
    (clock : ℕ → ℕ → Time) (events : List TrackingEvent) (w : Cluster C)
    → ((event : TrackingEvent) → wire event ≡ some event)
    → IsLive ctx
    → 33 ≤ n
    → Permᴰ events (traffic clock)
    → w.broker ≡ wired n [] []
    → let (codes, w') = post_all wire ctx now events w in
      (codes ≡ replicate 33 202) × (w'.broker ≡ wired n (map (published now) events) [])
unfolding traffic legit_traffic events_of_users events_of_user bot_events burst_events
simulation_is_queued wire ctx n now clock events w faithful live room perm empty =
    let count : length events ≡ 33 = length-perm perm in
    let queued =
      posts_queue wire ctx n now events [] w faithful live (ground arith)
        (All-perm Passes perm (traffic-Passes clock)) in
    let start : w ≡ record w { broker = wired n [] [] } = ap (λ b. record w { broker = b }) empty in
    (
      ap (λ v. (post_all wire ctx now events v).0) start
          ∙ queued.0
          ∙ ap (λ k. replicate k 202) count,
      ap (λ v. (post_all wire ctx now events v).1.broker) start ∙ queued.1,
    )

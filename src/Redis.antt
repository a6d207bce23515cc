-- ===== src/Redis.antt =====
-- pkg/broker/redis.go, over the client of go-redis: its operations on a state `C` of their own, with a
-- number for each `*redis.PubSub`. `Coding` is encoding/json on an event. A method is one step; in Go the
-- lock is released after a publisher's look at `closed`, so that a `Close` may still come before its
-- call of the client.
use Prim.Native.String.{◌++◌ as append}
pub mod Forward
pub mod Connect
pub mod Closed
use sentinel_flow_event_driv.Base.{
  ℕ, zero, suc, String, Bool, true, false, Option, none, some, List, [], ◌∷◌, ◌++◌, ltb, ◌==◌,
  if◌then◌else◌,
}
use sentinel_flow_event_driv.Base.Word.{sign_bit}
use sentinel_flow_event_driv.Events.{TrackingEvent, ScreenedEvent}
use sentinel_flow_event_driv.Ports.{Fallible, ok, err}
use sentinel_flow_event_driv.Redis.Forward.{Forwarder, new_forwarder}

pub record Client (C : Type 0) : Type 0 where
  -- `Publish(ctx, channel, data).Err()`
  pub publish : String → String → C → Option String × C
  pub subscribe : String → C → ℕ × C
  pub close_pubsub : ℕ → C → C
  pub close_client : C → Option String × C

pub record Coding (E : Type 0) : Type 0 where
  pub marshal : E → Fallible String
  pub unmarshal : String → Option E

pub record RedisBroker (C : Type 0) : Type 0 where
  pub client : C
  pub pubsubs : List ℕ
  pub closed : Bool
  pub buffer_size : ℕ

abbrev pub ping_retries : ℕ
ping_retries = 10

-- The loop of pings, whose answers are given by their number: `pingErr` at the end.
unfoldable pub ping_rounds : (ℕ → Option String) → ℕ → ℕ → Option String → Option String
ping_rounds pings zero attempt ping_err = ping_err
ping_rounds pings (suc left) attempt ping_err =
    let rest = ping_rounds pings left (suc attempt) (pings attempt) in
    elim (pings attempt) [ none ↦ none | some e ↦ rest ]

-- `bufferSize <= 0` is the default capacity; a pattern from the sign bit on is negative.
abbrev pub size_or_default : ℕ → ℕ
size_or_default buffer_size =
    if buffer_size == 0 then 10000 else if ltb buffer_size sign_bit then buffer_size else 10000

abbrev pub after_pings : {C : Type 0} → C → ℕ → Option String → Fallible (RedisBroker C)
after_pings client buffer_size (some e) = err (append "failed to ping redis: " e)
after_pings client buffer_size none = ok (record {
  client = client;
  pubsubs = [];
  closed = false;
  buffer_size = size_or_default buffer_size;
})

-- `NewRedisBroker`, given what `redis.ParseURL` and `redis.NewClient` make of the URL.
unfoldable pub new_redis_broker :
    {C : Type 0} → Fallible C → (ℕ → Option String) → ℕ → Fallible (RedisBroker C)
unfolding ping_rounds
new_redis_broker (err e) pings buffer_size = err (append "failed to parse redis URL: " e)
new_redis_broker (ok client) pings buffer_size =
    after_pings client buffer_size (ping_rounds pings ping_retries 0 none)

abbrev pub published :
    {C : Type 0} → RedisBroker C → Option String × C → Fallible Unit × RedisBroker C
published r (none, client) = (ok tt, record r { client = client })
published r (some e, client) = (err e, record r { client = client })

module _ {C : Type 0} (redis : Client C) where
  -- `PublishRaw` and `PublishScreened`, which differ in the channel, the coding and a word.
  abbrev pub publish_event :
      {E : Type 0} → String → String → Coding E → E → RedisBroker C → Fallible Unit × RedisBroker C
  publish_event channel failure coding event r =
      if r.closed then (err "broker is closed", r) else elim (coding.marshal event) [
        | err e ↦ (err (append failure e), r)
        | ok data_text ↦ published r (redis.publish channel data_text r.client)
      ]

  unfoldable pub publish_raw :
      Coding TrackingEvent → TrackingEvent → RedisBroker C → Fallible Unit × RedisBroker C
  publish_raw = publish_event "sentinel_flow_raw" "failed to marshal raw event: "

  unfoldable pub publish_screened :
      Coding ScreenedEvent → ScreenedEvent → RedisBroker C → Fallible Unit × RedisBroker C
  publish_screened = publish_event "sentinel_flow_screened" "failed to marshal screened event: "

  -- `SubscribeRaw` and `SubscribeScreened`, with the goroutine in its first state.
  abbrev pub subscribe_to :
      (E : Type 0) → String → RedisBroker C → Fallible (Forwarder E) × RedisBroker C
  subscribe_to E channel r =
      let (pubsub, client) = redis.subscribe channel r.client in
      if r.closed then (err "broker is closed", r) else (
        ok (new_forwarder r.buffer_size),
        record r { client = client; pubsubs = r.pubsubs ++ pubsub ∷ [] },
      )

  unfoldable pub subscribe_raw : RedisBroker C → Fallible (Forwarder TrackingEvent) × RedisBroker C
  subscribe_raw = subscribe_to TrackingEvent "sentinel_flow_raw"

  unfoldable pub subscribe_screened :
      RedisBroker C → Fallible (Forwarder ScreenedEvent) × RedisBroker C
  subscribe_screened = subscribe_to ScreenedEvent "sentinel_flow_screened"

  -- `for _, ps := range r.pubsubs { ps.Close() }`
  unfoldable pub close_all : List ℕ → C → C
  close_all [] client = client
  close_all (pubsub ∷ pubsubs) client = close_all pubsubs (redis.close_pubsub pubsub client)

  unfoldable pub close : RedisBroker C → Fallible Unit × RedisBroker C
  unfolding close_all
  close r =
      if r.closed
      then (ok tt, r)
      else published (record r { closed = true })
          (redis.close_client (close_all r.pubsubs r.client))

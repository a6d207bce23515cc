-- ===== src/Broker.antt =====
-- pkg/broker/broker.go: the interface `Broker` and the in-memory broker. A Go channel is a bounded
-- queue with a closed flag; the two kinds of subscribers run the same code over their own channels,
-- which is written once here, over the type of the events. Each method runs under the broker's lock
-- and is one step. Publishers share the lock in Go, so that their sends on several channels may come
-- between one another; a single channel's offers and receives in any order are in Broker.History. Events
-- are pointers in Go; nothing writes through them once they are published.
pub mod Subscription
pub mod Delivery
pub mod History
pub mod Shutdown
pub mod Contents
pub mod Waiting
use sentinel_flow_event_driv.Base.{
  ℕ, zero, suc, Bool, true, false, ◌&&◌, not, Option, none, some, List, [], ◌∷◌, ◌++◌, map, ltb,
  ◌==◌, if◌then◌else◌,
}
use sentinel_flow_event_driv.Base.Lists.{get_elem?}
use sentinel_flow_event_driv.Base.Word.{sign_bit}
use sentinel_flow_event_driv.Events.{TrackingEvent, ScreenedEvent}
use sentinel_flow_event_driv.Broker.Subscription.{
  Channel, make_channel, close_channel, Context, offer_all, Received, receive,
}

-- The errors that a publisher or subscriber gets.
pub data BrokerError : Type 0 where
  broker_closed : BrokerError
  context_error : BrokerError

pub record InMemoryBroker : Type 0 where
  pub raw_subs : List (Channel TrackingEvent)
  pub screened_subs : List (Channel ScreenedEvent)
  pub closed : Bool
  pub buffer_size : ℕ

-- `bufferSize <= 0` is the default capacity; a pattern from the sign bit on is negative.
unfoldable pub new_in_memory_broker : ℕ → InMemoryBroker
new_in_memory_broker buffer_size = record {
  raw_subs = [];
  screened_subs = [];
  closed = false;
  buffer_size =
      if buffer_size == 0 then 10000 else if ltb buffer_size sign_bit then buffer_size else 10000;
}

abbrev pub error_of : Bool → Option BrokerError
error_of true = none
error_of false = some context_error

unfoldable pub publish_raw :
    Context → TrackingEvent → InMemoryBroker → Option BrokerError × InMemoryBroker
unfolding offer_all
publish_raw ctx event b =
    let (subs, complete) = offer_all ctx event 0 b.raw_subs in
    if b.closed then (some broker_closed, b) else (error_of complete, record b { raw_subs = subs })

unfoldable pub publish_screened :
    Context → ScreenedEvent → InMemoryBroker → Option BrokerError × InMemoryBroker
unfolding offer_all
publish_screened ctx event b =
    let (subs, complete) = offer_all ctx event 0 b.screened_subs in
    if b.closed
    then (some broker_closed, b)
    else (error_of complete, record b { screened_subs = subs })

-- The handle of a subscription is its place among the subscribers.
unfoldable pub subscribe_raw : InMemoryBroker → Option BrokerError × InMemoryBroker
unfolding make_channel
subscribe_raw b =
    if b.closed
    then (some broker_closed, b)
    else (none, record b { raw_subs = b.raw_subs ++ make_channel b.buffer_size ∷ [] })

unfoldable pub subscribe_screened : InMemoryBroker → Option BrokerError × InMemoryBroker
unfolding make_channel
subscribe_screened b =
    if b.closed
    then (some broker_closed, b)
    else (none, record b { screened_subs = b.screened_subs ++ make_channel b.buffer_size ∷ [] })

-- `Close`, which never fails.
unfoldable pub close : InMemoryBroker → InMemoryBroker
unfolding close_channel
close b = if b.closed then b else record b {
  closed = true;
  raw_subs = map close_channel b.raw_subs;
  screened_subs = map close_channel b.screened_subs;
}

abbrev pub replace_at {ℓ} : {A : Type ℓ} → ℕ → A → List A → List A
replace_at i a [] = []
replace_at zero a (x ∷ xs) = a ∷ xs
replace_at (suc i) a (x ∷ xs) = x ∷ replace_at i a xs

-- A consumer's `<-ch` on the subscription at a place; `none` where there is no such subscription.
unfoldable pub receive_raw : ℕ → InMemoryBroker → Option (Received TrackingEvent) × InMemoryBroker
unfolding receive
receive_raw i b = elim (get_elem? b.raw_subs i) [
  | none ↦ (none, b)
  | some ch ↦
      let (r, ch') = receive ch in (some r, record b { raw_subs = replace_at i ch' b.raw_subs })
]

unfoldable pub receive_screened :
    ℕ → InMemoryBroker → Option (Received ScreenedEvent) × InMemoryBroker
unfolding receive
receive_screened i b = elim (get_elem? b.screened_subs i) [
  | none ↦ (none, b)
  | some ch ↦
      let (r, ch') = receive ch in
      (some r, record b { screened_subs = replace_at i ch' b.screened_subs })
]

-- ===== src/Redis/Forward.antt =====
-- The goroutine of a subscription in pkg/broker/redis.go, one step at a time: it takes a message from
-- the client's channel, decodes it, and sends the event on the subscriber's channel. The steps of the
-- others stand beside it, and come in any order. The deferred `pubsub.Close()`, which concerns the client
-- only, is left out.
pub mod Order
use sentinel_flow_event_driv.Base.{
  ℕ, String, Bool, true, false, ◌||◌, Option, none, some, List, [], ◌∷◌, ◌++◌, if◌then◌else◌,
}
use sentinel_flow_event_driv.Broker.Subscription.{
  Channel, make_channel, close_channel, push, has_room, Received, receive,
}

pub record Forwarder (E : Type 0) : Type 0 where
  pub inbox : List String  -- `redisCh`
  pub inbox_closed : Bool
  pub pending : Option E  -- the event of the inner `select`
  pub out : Channel E
  pub returned : Bool

unfoldable pub new_forwarder : {E : Type 0} → ℕ → Forwarder E
unfolding make_channel
new_forwarder buffer_size = record {
  inbox = [];
  inbox_closed = false;
  pending = none;
  out = make_channel buffer_size;
  returned = false;
}

pub data ForwardStep : Type 0 where
  arrives : String → ForwardStep  -- the client puts a message on its channel
  ends : ForwardStep  -- the client closes its channel, as `Close` of the broker has it do
  turns : ForwardStep  -- the goroutine goes on, if it can, by a case other than `ctx.Done()`
  gives_up : ForwardStep  -- it goes on by the case `ctx.Done()`
  takes : ForwardStep  -- the subscriber receives

module _ {E : Type 0} where
  -- The deferred calls close the subscriber's channel; an event in the inner `select` is lost.
  abbrev pub finish : Forwarder E → Forwarder E
  finish f = record f { pending = none; out = close_channel f.out; returned = true }

  -- The inner `select`: the send waits for room. Only `finish` closes the channel, and the goroutine
  -- takes no turn after it, so that it never sends on a closed one.
  abbrev pub send_event : E → Forwarder E → Forwarder E
  send_event event f =
      if has_room f.out then record f { pending = none; out = push event f.out } else f

module _ {E : Type 0} (unmarshal : String → Option E) where
  -- The outer `select` and the decoding, after which a text that is none of an event is passed over.
  abbrev pub take_message : List String → Forwarder E → Forwarder E
  take_message [] f = if f.inbox_closed then finish f else f
  take_message (payload ∷ rest) f = record f { inbox = rest; pending = unmarshal payload }

  abbrev pub turn : Option E → Forwarder E → Forwarder E
  turn (some event) f = send_event event f
  turn none f = take_message f.inbox f

  unfoldable pub forward : ForwardStep → Forwarder E → Forwarder E
  unfolding close_channel push receive
  forward (ForwardStep.arrives payload) f =
      if f.inbox_closed then f else record f { inbox = f.inbox ++ payload ∷ [] }
  forward ForwardStep.ends f = record f { inbox_closed = true }
  forward ForwardStep.turns f = if f.returned then f else turn f.pending f
  forward ForwardStep.gives_up f = if f.returned then f else finish f
  forward ForwardStep.takes f = record f { out = (receive f.out).1 }

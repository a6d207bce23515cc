-- ===== src/Redis/Closed.antt =====
-- A Redis broker that has been closed.
use sentinel_flow_event_driv.Base.{
  ◌≡◌, refl, String, true, Option, none, some, List, [], ◌∷◌, arith, map,
}
use sentinel_flow_event_driv.Events.{TrackingEvent, ScreenedEvent}
use sentinel_flow_event_driv.Ports.{Fallible, ok, err}
use sentinel_flow_event_driv.Redis.{
  Client, Coding, RedisBroker, publish_raw, publish_screened, subscribe_raw, subscribe_screened,
  close,
}

pub data Operation : Type 0 where
  publishes_raw : TrackingEvent → Operation
  publishes_screened : ScreenedEvent → Operation
  subscribes_raw subscribes_screened closes : Operation

abbrev failure_of : {A : Type 0} → Fallible A → Option String
failure_of (ok _) = none
failure_of (err e) = some e

module _ {C : Type 0} (redis : Client C) (raw : Coding TrackingEvent)
    (screened : Coding ScreenedEvent) where
  -- The error of an operation, if it has one, and the broker after it.
  unfoldable pub operate : Operation → RedisBroker C → Option String × RedisBroker C
  unfolding publish_raw publish_screened subscribe_raw subscribe_screened close
  operate (Operation.publishes_raw event) r =
      let out = publish_raw redis raw event r in (failure_of out.0, out.1)
  operate (Operation.publishes_screened event) r =
      let out = publish_screened redis screened event r in (failure_of out.0, out.1)
  operate Operation.subscribes_raw r = let out = subscribe_raw redis r in (failure_of out.0, out.1)
  operate Operation.subscribes_screened r =
      let out = subscribe_screened redis r in (failure_of out.0, out.1)
  operate Operation.closes r = let out = close redis r in (failure_of out.0, out.1)

  unfoldable pub operate_all : List Operation → RedisBroker C → List (Option String) × RedisBroker C
  operate_all [] r = ([], r)
  operate_all (o ∷ os) r =
      let (e, r') = operate o r in let (es, last) = operate_all os r' in (e ∷ es, last)

  -- A closed broker refuses all but `Close`, which has nothing to do.
  abbrev pub refusal : Operation → Option String
  refusal Operation.closes = none
  refusal _ = some "broker is closed"

  operate-closed :
      (o : Operation) (r : RedisBroker C) → r.closed ≡ true → operate o r ≡ (refusal o, r)
  unfolding operate publish_raw publish_screened subscribe_raw subscribe_screened close
  operate-closed (Operation.publishes_raw event) r h = ground arith
  operate-closed (Operation.publishes_screened event) r h = ground arith
  operate-closed Operation.subscribes_raw r h = ground arith
  operate-closed Operation.subscribes_screened r h = ground arith
  operate-closed Operation.closes r h = ground arith

  close-closed : (r : RedisBroker C) → (close redis r).1.closed ≡ true
  unfolding close
  close-closed r = ground arith

  operate_all-closed :
      (os : List Operation) (r : RedisBroker C)
      → r.closed ≡ true
      → operate_all os r ≡ (map refusal os, r)
  unfolding operate_all
  operate_all-closed [] r h = refl
  operate_all-closed (o ∷ os) r h = rw (operate-closed o r h, operate_all-closed os r h) refl

  -- After `Close`, also one that returns an error, every operation but `Close` is refused as on a
  -- closed broker, a further `Close` returns no error, and none of them changes the broker or uses the
  -- client.
  pub close_is_final :
      (r : RedisBroker C) (os : List Operation)
      → operate_all os (close redis r).1 ≡ (map refusal os, (close redis r).1)
  close_is_final r os = operate_all-closed os (close redis r).1 (close-closed r)

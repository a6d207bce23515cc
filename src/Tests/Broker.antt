-- ===== src/Tests/Broker.antt =====
-- pkg/broker: the theorems on brokers with a few subscribers and events.
use sentinel_flow_event_driv.Base.{ℕ, ◌≡◌, refl, true, false, none, some, List, [], ◌∷◌, map, arith}
use sentinel_flow_event_driv.Base.Lists.{get_elem?}
use sentinel_flow_event_driv.Events.{TrackingEvent, ScreenedEvent}
use sentinel_flow_event_driv.Broker.Subscription.{Channel, Context, close_channel, receive, ended}
use sentinel_flow_event_driv.Broker.{
  InMemoryBroker, close, new_in_memory_broker, publish_raw, publish_screened,
}
use sentinel_flow_event_driv.Broker.Delivery.{deliver, publish-delivers}
use sentinel_flow_event_driv.Broker.History.{Turn, offers, receives, turns, taken, taken_all}
use sentinel_flow_event_driv.Broker.Shutdown.{
  publishes_raw, subscribes_raw, closes, acts, IsSound, broker_life-IsSound, close-drains,
}

abbrev visit : TrackingEvent
visit = record {
  event_id = "e1";
  user_id = "u1";
  event_type = "signup";
  ip_address = "10.1.2.0";
  user_agent = "Mozilla/5.0";
  payload = [];
  timestamp = 1;
  gdpr_consent = true;
}

abbrev screened : ScreenedEvent
screened = record {
  tracking_event = visit;
  is_fraudulent = false;
  fraud_score = 0;
  fraud_reason = "";
  screened_at = 2;
}

abbrev patient : Context
patient = record { done = λ i. false; sends_first = λ i. true }

abbrev two_subscribers : InMemoryBroker
two_subscribers = record {
  raw_subs =
      record { buffer = []; capacity = 2; shut = false; panicked = false }
      ∷ record { buffer = visit ∷ visit ∷ []; capacity = 2; shut = false; panicked = false }
      ∷ [];
  screened_subs = record { buffer = []; capacity = 2; shut = false; panicked = false } ∷ [];
  closed = false;
  buffer_size = 2;
}

publish-delivers_example :
    (publish_raw patient visit two_subscribers
      ≡ (none, record two_subscribers { raw_subs = map (deliver visit) two_subscribers.raw_subs }))
    × (publish_screened patient screened two_subscribers ≡ (
      none,
      record two_subscribers {
        screened_subs = map (deliver screened) two_subscribers.screened_subs;
      },
    ))
publish-delivers_example = publish-delivers patient visit screened two_subscribers refl (λ i. refl)

abbrev small : Channel ℕ
small = record { buffer = []; capacity = 2; shut = false; panicked = false }

abbrev small_life : List (Turn ℕ)
small_life = offers patient 0 1 ∷ receives ∷ offers patient 3 2 ∷ []

taken_all_example : taken (turns small_life ([], small)) ≡ 1 ∷ 2 ∷ []
taken_all_example = taken_all small_life ([], small) refl (omega arith) (refl, (refl, tt))

broker_life-IsSound_example : IsSound (
    acts
      (subscribes_raw ∷ publishes_raw patient visit ∷ closes ∷ publishes_raw patient visit ∷ [])
      (new_in_memory_broker 1))
broker_life-IsSound_example =
    broker_life-IsSound 1
      (subscribes_raw ∷ publishes_raw patient visit ∷ closes ∷ publishes_raw patient visit ∷ [])

close-drains_example :
    let full : Channel TrackingEvent = record {
      buffer = visit ∷ visit ∷ [];
      capacity = 2;
      shut = false;
      panicked = false;
    } in
    (get_elem? (close two_subscribers).raw_subs 1 ≡ some (close_channel full))
    × ((turns (receives ∷ receives ∷ []) ([], close_channel full)).0 ≡ visit ∷ visit ∷ [])
    × ((receive (turns (receives ∷ receives ∷ []) ([], close_channel full)).1).0 ≡ ended)
close-drains_example =
    close-drains two_subscribers 1
      (record { buffer = visit ∷ visit ∷ []; capacity = 2; shut = false; panicked = false }) refl
      refl

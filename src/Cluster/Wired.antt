-- ===== src/Cluster/Wired.antt =====
-- A broker with one subscriber of each kind, and the event that the ingest handler publishes.
use sentinel_flow_event_driv.Base.{
  ℕ, ◌<◌, ◌≡◌, refl, ◌∙◌, true, false, none, List, [], ◌∷◌, ltb, ◌==◌, Bool-cases, inl, inr, arith,
}
use sentinel_flow_event_driv.Base.Word.{Time}
use sentinel_flow_event_driv.Events.{TrackingEvent, ScreenedEvent}
use sentinel_flow_event_driv.Broker.{InMemoryBroker, publish_raw, publish_screened}
use sentinel_flow_event_driv.Broker.Subscription.{Context, push}
use sentinel_flow_event_driv.Broker.Delivery.{IsLive, deliver, publish-delivers}
use sentinel_flow_event_driv.Ingest.Consent.{anonymize_ip, check_gdpr_consent}
use sentinel_flow_event_driv.Ingest.Handler.{stamped}

-- An open broker with one subscriber of each kind, and what waits in their channels.
abbrev pub wired : ℕ → List TrackingEvent → List ScreenedEvent → InMemoryBroker
wired n raw screened = record {
  raw_subs = record { buffer = raw; capacity = n; shut = false; panicked = false } ∷ [];
  screened_subs = record { buffer = screened; capacity = n; shut = false; panicked = false } ∷ [];
  closed = false;
  buffer_size = n;
}

pub publish_wired :
    (ctx : Context) (n : ℕ) (raw : TrackingEvent) (screened : ScreenedEvent)
    → IsLive ctx
    → 0 < n
    → (publish_raw ctx raw (wired n [] []) ≡ (none, wired n (raw ∷ []) []))
      × (publish_screened ctx screened (wired n [] []) ≡ (none, wired n [] (screened ∷ [])))
unfolding deliver push
publish_wired ctx n raw screened live room =
    let has_room : ltb 0 n ≡ true = ground arith in
    let (to_raw, to_screened) = publish-delivers ctx raw screened (wired n [] []) refl live in
    (to_raw ∙ rw has_room, to_screened ∙ rw has_room)

-- The event that the handler publishes.
abbrev pub published : Time → TrackingEvent → TrackingEvent
published now event = record (stamped now event) {
  ip_address = anonymize_ip (stamped now event).ip_address;
}

pub stamped_consent :
    (now : Time) (event : TrackingEvent)
    → check_gdpr_consent (stamped now event).event_type (stamped now event).gdpr_consent
      ≡ check_gdpr_consent event.event_type event.gdpr_consent
unfolding stamped
stamped_consent now event = elim (Bool-cases (event.timestamp == 0)) [
  | inl unset ↦ rw unset refl
  | inr set ↦ rw set refl
]

abbrev pub unused : Time → TrackingEvent → ScreenedEvent
unused now event = record {
  tracking_event = event;
  is_fraudulent = false;
  fraud_score = 0;
  fraud_reason = "";
  screened_at = now;
}

-- ===== src/Ingest/Handler/Gate.antt =====
-- What passes the ingest handler: a condition on the events that it publishes, for any broker and
-- tracker.
use sentinel_flow_event_driv.Base.{
  ◌≡◌, ◌⊎◌, refl, inl, inr, String, Bool, true, false, Option, none, some, str_eq, ◌==◌, Bool-cases,
  arith, eq_iff,
}
use sentinel_flow_event_driv.Base.Word.{Time}
use sentinel_flow_event_driv.Events.{TrackingEvent}
use sentinel_flow_event_driv.Broker.{BrokerError}
use sentinel_flow_event_driv.Broker.Subscription.{Context}
use sentinel_flow_event_driv.Ports.{TelemetryTracker, Publisher}
use sentinel_flow_event_driv.Ingest.Consent.{anonymize_ip, check_gdpr_consent}
use sentinel_flow_event_driv.Ingest.Handler.{
  lacks_field, stamped, after_publish, accept_event, ingest_decoded, handle_ingest,
}

-- The types of the behavioural events.
abbrev pub IsBehavioural : String → Type 0
IsBehavioural event_type = (event_type ≡ "click") ⊎ (event_type ≡ "view_item")

-- The required fields are there, a behavioural event carries the consent, and the address is one that
-- `anonymize_ip` returns.
pub record IsClean (event : TrackingEvent) : Type 0 where
  pub complete : lacks_field event ≡ false
  pub consented : IsBehavioural event.event_type → event.gdpr_consent ≡ true
  pub masked : (address : String) × (event.ip_address ≡ anonymize_ip address)

consent_of :
    (event_type : String) (gdpr_consent : Bool)
    → check_gdpr_consent event_type gdpr_consent ≡ none
    → IsBehavioural event_type
    → gdpr_consent ≡ true
unfolding check_gdpr_consent
consent_of event_type true e behavioural = refl
consent_of event_type false e (inl click) = ground (arith, eq_iff event_type "click")
consent_of event_type false e (inr view) = ground (arith, eq_iff event_type "view_item")

stamped_lem :
    (now : Time) (event : TrackingEvent)
    → lacks_field event ≡ false
    → lacks_field (stamped now event) ≡ false
unfolding stamped
stamped_lem now event h = elim (Bool-cases (event.timestamp == 0)) [
  | inl unset ↦ rw unset h
  | inr set ↦ rw set h
]

module _ {W : Type 0} (broker : Publisher W) (tracker : TelemetryTracker W) (Holds : W → Type 0)
    (counts : (w : W) → Holds w → Holds (tracker.increment_metric "total_received" 1 w))
    (publishes : (ctx : Context) (event : TrackingEvent) (w : W)
      → IsClean event
      → Holds w
      → Holds (broker.publish_raw ctx event w).1) where
  after_publish-Holds :
      (r : Option BrokerError) (w : W) → Holds w → Holds (after_publish broker tracker (r, w)).1
  unfolding after_publish
  after_publish-Holds none w h = counts w h
  after_publish-Holds (some e) w h = h

  accept_event-Holds :
      (ctx : Context) (event : TrackingEvent) (consent : Option String) (w : W)
      → lacks_field event ≡ false
      → check_gdpr_consent event.event_type event.gdpr_consent ≡ consent
      → Holds w
      → Holds (accept_event broker tracker ctx event consent w).1
  unfolding accept_event
  accept_event-Holds ctx event (some e) w full given h = counts w h
  accept_event-Holds ctx event none w full given h =
      let masked = record event { ip_address = anonymize_ip event.ip_address } in
      let clean : IsClean masked = record {
        complete = full;
        consented = consent_of event.event_type event.gdpr_consent given;
        masked = (event.ip_address, refl);
      } in
      after_publish-Holds _ _ (publishes ctx masked w clean h)

  ingest_decoded-Holds :
      (ctx : Context) (now : Time) (decoded : Option TrackingEvent) (w : W)
      → Holds w
      → Holds (ingest_decoded broker tracker ctx now decoded w).1
  unfolding ingest_decoded
  ingest_decoded-Holds ctx now none w h = h
  ingest_decoded-Holds ctx now (some event) w h = elim (Bool-cases (lacks_field event)) [
    | inl lacks ↦ rw (lacks, ingest_decoded) h
    | inr full ↦
        rw (full, ingest_decoded)
          (accept_event-Holds ctx (stamped now event) _ w (stamped_lem now event full) refl h)
  ]

  pub handle_ingest-Holds :
      (ctx : Context) (now : Time) (method : String) (decoded : Option TrackingEvent) (w : W)
      → Holds w
      → Holds (handle_ingest broker tracker ctx now method decoded w).1
  unfolding handle_ingest
  handle_ingest-Holds ctx now method decoded w h = elim (Bool-cases (str_eq method "POST")) [
    | inl post ↦ rw post (ingest_decoded-Holds ctx now decoded w h)
    | inr other ↦ rw other h
  ]

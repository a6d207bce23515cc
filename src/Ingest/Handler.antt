-- ===== src/Ingest/Handler.antt =====
-- pkg/domain/ingest/handler.go, over any broker and tracker. The body of the request is given as
-- encoding/json decodes it: `none` where the decoder returns an error.
pub mod Gate
use sentinel_flow_event_driv.Base.{
  ℕ, String, Bool, true, false, not, ◌&&◌, ◌||◌, Option, none, some, str_eq, ◌==◌, if◌then◌else◌,
}
use sentinel_flow_event_driv.Base.Word.{Time}
use sentinel_flow_event_driv.Events.{TrackingEvent}
use sentinel_flow_event_driv.Http.{Reply, http_error, json_reply}
use sentinel_flow_event_driv.Broker.{BrokerError}
use sentinel_flow_event_driv.Broker.Subscription.{Context}
use sentinel_flow_event_driv.Ports.{TelemetryTracker, Publisher}
use sentinel_flow_event_driv.Ingest.Consent.{anonymize_ip, check_gdpr_consent}

-- `event.EventID == "" || event.UserID == "" || event.EventType == ""`
abbrev pub lacks_field : TrackingEvent → Bool
lacks_field event =
    str_eq event.event_id "" || str_eq event.user_id "" || str_eq event.event_type ""

-- `event.Timestamp.IsZero()`
unfoldable pub stamped : Time → TrackingEvent → TrackingEvent
stamped now event = if event.timestamp == 0 then record event { timestamp = now } else event

module _ {W : Type 0} (broker : Publisher W) (tracker : TelemetryTracker W) where
  -- The end of the handler, by the error of `PublishRaw`.
  unfoldable pub after_publish : Option BrokerError × W → Reply String × W
  unfolding http_error
  after_publish (some _, w) = (http_error "{\"error\": \"internal broker error\"}" 500, w)
  after_publish (none, w) = (
    json_reply 202 "{\"status\": \"accepted\", \"message\": \"event queued for screening\"}",
    tracker.increment_metric "total_received" 1 w,
  )

  -- From the check of the consent on.
  unfoldable pub accept_event : Context → TrackingEvent → Option String → W → Reply String × W
  unfolding after_publish
  accept_event ctx event (some _) w = (
    json_reply 400
        "{\"error\": \"GDPR compliance check failed: consent required for behavioral tracking\"}",
    tracker.increment_metric "total_received" 1 w,
  )
  accept_event ctx event none w =
      let masked = record event { ip_address = anonymize_ip event.ip_address } in
      after_publish (broker.publish_raw ctx masked w)

  -- From the decoder's result on.
  unfoldable pub ingest_decoded : Context → Time → Option TrackingEvent → W → Reply String × W
  unfolding http_error accept_event stamped
  ingest_decoded ctx now none w = (http_error "{\"error\": \"invalid json payload\"}" 400, w)
  ingest_decoded ctx now (some event) w =
      let event' = stamped now event in
      if lacks_field event
      then (json_reply 400 "{\"error\": \"event_id, user_id, and event_type are required\"}", w)
      else accept_event ctx event' (check_gdpr_consent event'.event_type event'.gdpr_consent) w

  unfoldable pub handle_ingest :
      Context → Time → String → Option TrackingEvent → W → Reply String × W
  unfolding http_error ingest_decoded
  handle_ingest ctx now method decoded w =
      if str_eq method "POST"
      then ingest_decoded ctx now decoded w
      else (http_error "Method not allowed" 405, w)

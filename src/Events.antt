-- ===== src/Events.antt =====
-- pkg/broker/events.go. A text of the payload is what the code looks for; the other dynamic types of
-- a decoded JSON value are kept apart, and a number is its literal.
use sentinel_flow_event_driv.Base.{ℕ, String, Bool}
use sentinel_flow_event_driv.Base.Dict.{Dict}
use sentinel_flow_event_driv.Base.Word.{Time}

-- The values of `interface{}` that encoding/json decodes to.
mutual
  pub data Value : Type 0 where
    null : Value
    boolean : Bool → Value
    number : String → Value
    text : String → Value
    array : Items → Value
    object : Members → Value

  pub data Items : Type 0 where
    no_items : Items
    item : Value → Items → Items

  pub data Members : Type 0 where
    no_members : Members
    member : String → Value → Members → Members

pub record TrackingEvent : Type 0 where
  pub event_id : String
  pub user_id : String
  pub event_type : String
  pub ip_address : String
  pub user_agent : String
  pub payload : Dict Value
  pub timestamp : Time
  pub gdpr_consent : Bool

-- `fraud_score` is in tenths (see Fraud.Rules).
pub record ScreenedEvent : Type 0 where
  pub tracking_event : TrackingEvent
  pub open tracking_event use *
  pub is_fraudulent : Bool
  pub fraud_score : ℕ
  pub fraud_reason : String
  pub screened_at : Time

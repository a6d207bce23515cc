-- ===== src/Simulator.antt =====
-- scripts/simulator/traffic.go: the events of the traffic that is meant to be legitimate.
use Prim.Native.String.{◌++◌ as append}
pub mod Address
pub mod Legitimate
pub mod Attacks
pub mod Caught
pub mod Traveller
pub mod Session
pub mod Queue
pub mod Compliance
use sentinel_flow_event_driv.Base.{ℕ, ◌+◌, true, String, List, [], ◌∷◌, ◌++◌}
use sentinel_flow_event_driv.Base.Text.{decimal}
use sentinel_flow_event_driv.Base.Word.{Time}
use sentinel_flow_event_driv.Events.{Value, TrackingEvent}
use sentinel_flow_event_driv.Marketing.Handlers.{unix_nano}

abbrev pub legit_users : List String
legit_users = "usr_alpha" ∷ "usr_beta" ∷ "usr_gamma" ∷ []

abbrev pub legit_types : List String
legit_types = "signup" ∷ "view_item" ∷ "cart_abandoned" ∷ "checkout_completed" ∷ []

-- The two calls of `time.Now()` may read two times.
unfoldable pub legit_event : String → String → Time → Time → TrackingEvent
unfolding decimal unix_nano
legit_event user event now later = record {
  event_id = append "evt-legit-" (append user (append "-" (decimal (unix_nano now))));
  user_id = user;
  event_type = event;
  ip_address = "192.168.1.15";
  user_agent =
      "Mozilla/5.0 (Macintosh; Intel Mac OS X 10_15_7) AppleWebKit/537.36 (KHTML, like Gecko) Chrome/120.0.0.0 Safari/537.36";
  payload = ("email", Value.text (append user "@gmail.com")) ∷ ("country", Value.text "ID") ∷ [];
  timestamp = later;
  gdpr_consent = true;
}

-- The inner loop, over the event types, and the outer one, over the users, whose `i`-th event reads the
-- clock at `2 i` and `2 i + 1`.
unfoldable pub events_of_user : (ℕ → Time) → ℕ → String → List String → List TrackingEvent
unfolding legit_event
events_of_user clock i user [] = []
events_of_user clock i user (event ∷ events) =
    legit_event user event (clock (i + i)) (clock (i + i + 1))
    ∷ events_of_user clock (i + 1) user events

unfoldable pub events_of_users : (ℕ → Time) → ℕ → List String → List TrackingEvent
unfolding events_of_user
events_of_users clock i [] = []
events_of_users clock i (user ∷ users) =
    events_of_user clock i user legit_types ++ events_of_users clock (i + 4) users

unfoldable pub legit_traffic : (ℕ → Time) → List TrackingEvent
unfolding events_of_users
legit_traffic clock = events_of_users clock 0 legit_users

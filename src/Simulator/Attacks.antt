-- ===== src/Simulator/Attacks.antt =====
-- scripts/simulator/traffic.go: the events of the traffic that is meant to be caught, and the event of
-- the user who asks for export and deletion. The loop's `i`-th event reads the clock at `2 i` and
-- `2 i + 1`.
use Prim.Native.String.{◌++◌ as append}
use sentinel_flow_event_driv.Base.{ℕ, zero, suc, ◌+◌, true, String, List, [], ◌∷◌}
use sentinel_flow_event_driv.Base.Text.{decimal}
use sentinel_flow_event_driv.Base.Word.{Time}
use sentinel_flow_event_driv.Events.{Value, TrackingEvent}
use sentinel_flow_event_driv.Marketing.Handlers.{unix_nano}

-- `bots`, with the user id and the agent.
abbrev pub bots : List (String × String)
bots =
    ("bot_google", "Googlebot/2.1 (+http://www.google.com/bot.html)")
    ∷ ("bot_scraping", "HeadlessChrome/109.0.0.0 Safari/537.36")
    ∷ ("bot_python", "python-requests/2.28.1")
    ∷ []

unfoldable pub bot_event : String → String → Time → Time → TrackingEvent
unfolding decimal unix_nano
bot_event user_id agent now later = record {
  event_id = append "evt-bot-" (append user_id (append "-" (decimal (unix_nano now))));
  user_id = user_id;
  event_type = "click";
  ip_address = "8.8.8.8";
  user_agent = agent;
  payload = ("target", Value.text "login_payload") ∷ [];
  timestamp = later;
  gdpr_consent = true;
}

unfoldable pub bot_events : (ℕ → Time) → ℕ → List (String × String) → List TrackingEvent
unfolding bot_event
bot_events clock i [] = []
bot_events clock i ((user_id, agent) ∷ others) =
    bot_event user_id agent (clock (i + i)) (clock (i + i + 1)) ∷ bot_events clock (suc i) others

abbrev pub bot_traffic : (ℕ → Time) → List TrackingEvent
bot_traffic clock = bot_events clock 0 bots

unfoldable pub burst_event : ℕ → Time → Time → TrackingEvent
unfolding decimal unix_nano
burst_event i now later = record {
  event_id = append "evt-burst-" (decimal (unix_nano now));
  user_id = "usr_spammer";
  event_type = "click";
  ip_address = "103.120.15.40";
  user_agent = "Mozilla/5.0";
  payload = ("click_id", Value.number (decimal i)) ∷ [];
  timestamp = later;
  gdpr_consent = true;
}

-- `for i := 1; i <= 15; i++`, from a number on.
unfoldable pub burst_events : (ℕ → Time) → ℕ → ℕ → List TrackingEvent
unfolding burst_event
burst_events clock zero i = []
burst_events clock (suc left) i =
    burst_event i (clock (i + i)) (clock (i + i + 1)) ∷ burst_events clock left (suc i)

abbrev pub burst_traffic : (ℕ → Time) → List TrackingEvent
burst_traffic clock = burst_events clock 15 1

-- The two events of the traveller, `evt1` and `evt2`.
unfoldable pub geo_event : String → String → String → Time → TrackingEvent
geo_event event_id ip_address country now = record {
  event_id = event_id;
  user_id = "usr_traveller";
  event_type = "click";
  ip_address = ip_address;
  user_agent = "Mozilla/5.0";
  payload = ("country", Value.text country) ∷ [];
  timestamp = now;
  gdpr_consent = true;
}

abbrev pub departure : Time → TrackingEvent
departure = geo_event "evt-geo-1" "114.122.0.1" "ID"

abbrev pub landing : Time → TrackingEvent
landing = geo_event "evt-geo-2" "126.0.0.1" "JP"

unfoldable pub compliance_event : Time → TrackingEvent
compliance_event now = record {
  event_id = "evt-comp-1";
  user_id = "usr_privacy_advocate";
  event_type = "signup";
  ip_address = "10.0.0.2";
  user_agent = "Mozilla/5.0";
  payload = ("email", Value.text "privacy@advocate.org") ∷ [];
  timestamp = now;
  gdpr_consent = true;
}

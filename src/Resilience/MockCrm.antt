-- ===== src/Resilience/MockCrm.antt =====
-- The mock CRM server of pkg/resilience/resilient_client.go. The roll of `rand.Intn(100)` is an
-- argument; the answer comes with the time that the handler sleeps first.
use sentinel_flow_event_driv.Base.{ℕ, ◌*◌, String, ◌&&◌, ltb, leb, if◌then◌else◌}
use sentinel_flow_event_driv.Base.Word.{second}

pub record MockAnswer : Type 0 where
  pub sleeps : ℕ
  pub status_code : ℕ
  pub body : String

unfoldable pub mock_crm : ℕ → MockAnswer
mock_crm roll =
    if ltb roll 5
    then record { sleeps = 3 * second; status_code = 504; body = "{\"error\": \"timeout\"}" }
    else if leb 5 roll && ltb roll 20
    then record { sleeps = 0; status_code = 503; body = "{\"error\": \"service unavailable\"}" }
    else record {
      sleeps = 0;
      status_code = 200;
      body = "{\"status\": \"synced\", \"message\": \"contact updated successfully\"}";
    }

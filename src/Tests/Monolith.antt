-- ===== src/Tests/Monolith.antt =====
-- cmd/monolith: the start on the mock database, with a Redis that answers the third ping.
use sentinel_flow_event_driv.Base.{
  ℕ, ◌↔◌, false, String, Option, none, some, [], ◌∷◌, ◌==◌, str_eq, if◌then◌else◌,
}
use sentinel_flow_event_driv.Ports.{ok, err}
use sentinel_flow_event_driv.Config.{load_config}
use sentinel_flow_event_driv.Mockdb.{Mock, mock_db}
use sentinel_flow_event_driv.Monolith.Boot.{Host, boot}
use sentinel_flow_event_driv.Monolith.Boot.Ready.{IsUp, IsReady, boot_iff_IsReady}

abbrev no_table : ℕ → ℕ
no_table c = c

abbrev healthy : Mock
healthy = record {
  sim_error = none;
  next_error = none;
  commit_error = none;
  fail_crm_delete = false;
  exec_error = none;
  invalid_json_payload = false;
  trigger_scan_error = false;
}

abbrev third_ping : ℕ → Option String
third_ping k = if k == 2 then none else some "connection refused"

abbrev test_host : Host Unit ℕ
test_host = record {
  env = ("DATABASE_TYPE", "postgres-mock") ∷ ("BROKER_TYPE", "redis") ∷ [];
  open_database = λ driver url. if str_eq driver "mockdb" then ok tt else err "unknown driver";
  ping_database = λ db. none;
  is_missing = λ path. str_eq path "pkg/db/migrations/0001_init.sql";
  read_file = λ path. ok "CREATE TABLE";
  redis_client = λ url. ok 0;
  redis_pings = λ client. third_ping;
}

boot_iff_IsReady_example :
    IsUp (boot (mock_db no_table 7 healthy) test_host 5)
    ↔ IsReady (mock_db no_table 7 healthy) test_host (load_config test_host.env)
boot_iff_IsReady_example = boot_iff_IsReady (mock_db no_table 7 healthy) test_host 5

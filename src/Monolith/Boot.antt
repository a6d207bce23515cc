-- ===== src/Monolith/Boot.antt =====
-- cmd/monolith/helpers.go, and `main` of cmd/monolith/main.go up to the wiring of the modules. What
-- the operating system, database/sql and the Redis client answer is a parameter, `Host`. What is
-- logged at level Info is left out.
pub mod Ready
use sentinel_flow_event_driv.Base.{
  ℕ, ◌*◌, String, Bool, true, false, not, ◌&&◌, ◌||◌, Option, none, some, List, [], ◌∷◌, str_eq,
  if◌then◌else◌,
}
use sentinel_flow_event_driv.Base.Dict.{Dict, lookup}
use sentinel_flow_event_driv.Base.Word.{Time, second}
use sentinel_flow_event_driv.Ports.{Fallible, ok, err}
use sentinel_flow_event_driv.Config.{Config, or_default, load_config}
use sentinel_flow_event_driv.Database.{Database}
use sentinel_flow_event_driv.Broker.{InMemoryBroker, new_in_memory_broker}
use sentinel_flow_event_driv.Redis.{RedisBroker, new_redis_broker}
use sentinel_flow_event_driv.Fraud.Memory.{MemoryFraudRepository, new_memory_fraud_repository}
use sentinel_flow_event_driv.Marketing.Memory.{
  MemoryMarketingRepository, new_memory_marketing_repository,
}
use sentinel_flow_event_driv.Analytics.Memory.{MemoryTelemetryTracker, new_memory_telemetry_tracker}
use sentinel_flow_event_driv.Resilience.Client.{new_resilient_client}
use sentinel_flow_event_driv.Marketing.HttpCrm.{HttpCrmAdapter}

-- `setupLogger`: the handler that the logger gets.
pub data LogHandler : Type 0 where
  json_handler text_handler : LogHandler

unfoldable pub setup_logger : String → LogHandler
setup_logger log_format = if str_eq log_format "json" then json_handler else text_handler

-- A part of the start that has a value, or that has logged a message with an error and called
-- `os.Exit(1)`.
pub data Started (A : Type 0) : Type 0 where
  up : A → Started A
  exits : String → String → Started A

infixl 5 ◌>>=◌ ◌>>◌
abbrev pub ◌>>=◌ : {A B : Type 0} → Started A → (A → Started B) → Started B
up a >>= f = f a
exits message e >>= f = exits message e

abbrev pub ◌>>◌ : {A B : Type 0} → Started A → Started B → Started B
m >> k = m >>= λ _. k

-- `if err != nil { slog.Error(message, "error", err); os.Exit(1) }`
abbrev pub or_exit : {A : Type 0} → String → Fallible A → Started A
or_exit message (ok a) = up a
or_exit message (err e) = exits message e

abbrev pub exit_on : String → Option String → Started Unit
exit_on message none = up tt
exit_on message (some e) = exits message e

-- The databases have a state `W`; a Redis client is a `C`.
pub record Host (W C : Type 0) : Type 0 where
  pub env : Dict String
  -- `sql.Open(driver, url)` and `db.Ping()`
  pub open_database : String → String → Fallible W
  pub ping_database : W → Option String
  -- `_, err := os.Stat(path); os.IsNotExist(err)`
  pub is_missing : String → Bool
  pub read_file : String → Fallible String
  -- `redis.ParseURL` with `redis.NewClient`, and the error of each ping
  pub redis_client : String → Fallible C
  pub redis_pings : C → ℕ → Option String

-- `os.Getenv`
abbrev pub getenv : Dict String → String → String
getenv env key = or_default "" (lookup key env)

abbrev pub uses_database : Config → Bool
uses_database cfg = str_eq cfg.database_type "postgres" || str_eq cfg.database_type "postgres-mock"

unfoldable pub driver_of : Dict String → Config → String
driver_of env cfg =
    if str_eq (getenv env "BE_CRASHER_DB_OPEN") "1"
    then "invalid_driver"
    else if str_eq cfg.database_type "postgres-mock"
    then "mockdb"
    else "postgres"

unfoldable pub migration_path : (String → Bool) → String
migration_path is_missing =
    if is_missing "pkg/db/migrations/0001_init.sql"
    then "../../pkg/db/migrations/0001_init.sql"
    else "pkg/db/migrations/0001_init.sql"

-- `broker.Broker` as the process has it.
pub data EventBroker (C : Type 0) : Type 0 where
  in_memory : InMemoryBroker → EventBroker C
  over_redis : RedisBroker C → EventBroker C

-- The repositories and the tracker.
pub data Stores (W : Type 0) : Type 0 where
  memory_stores :
      MemoryFraudRepository → MemoryMarketingRepository → MemoryTelemetryTracker → Stores W
  database_stores : W → Stores W

pub record Monolith (W C : Type 0) : Type 0 where
  pub log_handler : LogHandler
  pub stores : Stores W
  pub event_broker : EventBroker C
  pub crm_adapter : HttpCrmAdapter

-- The part of `main` that stands on `sqlDB != nil`.
unfoldable pub stores_of : {W : Type 0} → Time → Option W → Stores W
stores_of now (some w) = database_stores w
stores_of now none =
    memory_stores new_memory_fraud_repository new_memory_marketing_repository
      (new_memory_telemetry_tracker now)

-- The adapter with a client of three failures, five seconds, two retries and 20 milliseconds.
unfoldable pub new_crm_adapter : String → HttpCrmAdapter
new_crm_adapter url = record {
  crm_url = url;
  crm_client = new_resilient_client 3 (5 * second) 2 20_000_000 true;
}

-- `_, err = db.Exec(string(content))`, with the database that it leaves.
abbrev pub after_exec : {W : Type 0} → Fallible ℕ × W → Fallible W
after_exec (ok _, w) = ok w
after_exec (err e, w) = err e

module _ {W C : Type 0} (db : Database W) (host : Host W C) where
  abbrev pub open_and_migrate : Config → Started (Option W)
  open_and_migrate cfg = do
    w ←
        or_exit "Failed to initialize PostgreSQL database connection"
          (host.open_database (driver_of host.env cfg) cfg.database_url)
    exit_on "Failed to ping PostgreSQL database" (host.ping_database w)
    content ←
        or_exit "Failed to read schema migrations file"
          (host.read_file (migration_path host.is_missing))
    w' ← or_exit "Failed to apply database DDL migrations" (after_exec (db.exec content [] w))
    up (some w')

  unfoldable pub init_database : Config → Started (Option W)
  init_database cfg = if uses_database cfg then open_and_migrate cfg else up none

  -- `broker.NewRedisBroker(url, 10000)`, by what the client makes of the URL.
  abbrev pub connect_redis : Fallible C → Fallible (RedisBroker C)
  connect_redis (ok c) = new_redis_broker (ok c) (host.redis_pings c) 10000
  connect_redis (err e) = new_redis_broker (err e) (λ _. none) 10000

  unfoldable pub init_broker : Config → Started (EventBroker C)
  init_broker cfg =
      if str_eq cfg.broker_type "redis"
      then (do
        r ←
            or_exit "Failed to initialize Redis event broker"
              (connect_redis (host.redis_client cfg.redis_url))
        up (over_redis r))
      else up (in_memory (new_in_memory_broker 10000))

  unfoldable pub boot : Time → Started (Monolith W C)
  boot now = do
    let cfg = load_config host.env
    sql_db ← init_database cfg
    event_broker ← init_broker cfg
    up (record {
      log_handler = setup_logger cfg.log_format;
      stores = stores_of now sql_db;
      event_broker = event_broker;
      crm_adapter = new_crm_adapter cfg.crm_url;
    })

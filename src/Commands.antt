-- ===== src/Commands.antt =====
-- The other commands: cmd/orchestrator, cmd/ingest, cmd/fraud, cmd/marketing and cmd/analytics. Each holds a part of
-- what the cluster in memory holds; the parts that a command does not have stay as they are at first,
-- since none of its steps touches them. cmd/fraud builds its repository without a `crmDeleter`, which
-- only a deletion would call.
pub mod Isolated
pub mod Waiting
pub mod Blank
pub mod Shutdown
use sentinel_flow_event_driv.Base.{
  ℕ, String, Option, List, [], ◌∷◌, ◌++◌, map, str_eq, if◌then◌else◌,
}
use sentinel_flow_event_driv.Base.Dict.{Dict}
use sentinel_flow_event_driv.Base.Word.{Time}
use sentinel_flow_event_driv.Events.{TrackingEvent}
use sentinel_flow_event_driv.Broker.{close}
use sentinel_flow_event_driv.Broker.Subscription.{Context}
use sentinel_flow_event_driv.Config.{load_config}
use sentinel_flow_event_driv.Analytics.Memory.{MemoryTelemetryTracker, new_memory_telemetry_tracker}
use sentinel_flow_event_driv.Marketing.HttpCrm.{HttpCrmAdapter}
use sentinel_flow_event_driv.Cluster.{
  Cluster, Worker, Step, new_cluster, start_fraud, start_marketing,
}
use sentinel_flow_event_driv.Monolith.Boot.{Started, up, exits, getenv, new_crm_adapter}

-- `err != nil` of a worker's start: the broker is closed.
abbrev pub or_crash : {C : Type 0} → String → Worker → Cluster C → Started (Cluster C)
or_crash message Worker.returned w = exits message "broker is closed"
or_crash message _ w = up w

-- `if os.Getenv(name) == "1" { _ = memBroker.Close() }`
abbrev pub crashed_by : {C : Type 0} → Dict String → String → Cluster C → Cluster C
crashed_by env name w =
    if str_eq (getenv env name) "1" then record w { broker = close w.broker } else w

module _ {C : Type 0} where
  -- cmd/orchestrator: both workers, over one broker.
  unfoldable pub orchestrator_main : Time → C → Cluster C × HttpCrmAdapter
  orchestrator_main now c = (
    start_marketing (start_fraud (new_cluster 10000 now c)),
    new_crm_adapter "http://localhost:8084/crm/sync",
  )

  unfoldable pub ingest_main : Time → C → Cluster C
  ingest_main now c = new_cluster 10000 now c

  unfoldable pub fraud_main : Dict String → Time → C → Started (Cluster C)
  fraud_main env now c =
      let w = start_fraud (crashed_by env "BE_CRASHER" (new_cluster 10000 now c)) in
      or_crash "[Fraud] Service crashed" w.fraud_worker w

  -- The adapter's client differs from the orchestrator's in its timeout only.
  unfoldable pub marketing_main : Dict String → Time → C → Started (Cluster C) × HttpCrmAdapter
  marketing_main env now c =
      let w = start_marketing (crashed_by env "BE_CRASHER_CONSUMER" (new_cluster 10000 now c)) in
      (
        or_crash "[Marketing] Consumer failed" w.marketing_worker w,
        new_crm_adapter (load_config env).crm_url,
      )

-- cmd/analytics: a tracker of its own, which no step reaches.
unfoldable pub analytics_main : Time → MemoryTelemetryTracker
analytics_main now = new_memory_telemetry_tracker now

-- What the processes do once they are started: the requests of a server, and the turns of a worker.
unfoldable pub post_step : Context × Time × String × Option TrackingEvent → Step
post_step (ctx, now, method, decoded) = Step.ingests ctx now method decoded

unfoldable pub fraud_step : Context × (ℕ → Time) → Step
fraud_step (ctx, clock) = Step.turns_fraud ctx clock

pub data MarketingEvent : Type 0 where
  erases : Time → Time → String → Option String → MarketingEvent
  consumes : Time → MarketingEvent

unfoldable pub marketing_step : MarketingEvent → Step
marketing_step (erases now later method decoded) = Step.purges now later method decoded
marketing_step (consumes now) = Step.turns_marketing now

-- The requests that the servers still answer while they shut down.
pub data PendingRequest : Type 0 where
  posts : Context → Time → String → Option TrackingEvent → PendingRequest
  purges : Time → Time → String → Option String → PendingRequest

unfoldable pub request_step : PendingRequest → Step
request_step (posts ctx now method decoded) = Step.ingests ctx now method decoded
request_step (purges now later method decoded) = Step.purges now later method decoded

-- The end of `main` in cmd/orchestrator and cmd/monolith: `cancel()`, which stops the workers, the
-- shutdown of the servers, and the deferred `Close` of the broker.
unfoldable pub shutdown : List PendingRequest → List Step
unfolding request_step
shutdown in_flight =
    Step.stops_fraud ∷ Step.stops_marketing ∷ (map request_step in_flight ++ Step.closes ∷ [])

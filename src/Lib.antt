-- ===== src/Lib.antt =====
-- Sentinel-Flow: an event-driven modular monolith. An ingest gateway takes tracking events over HTTP
-- and publishes them on a broker; the fraud worker screens each and publishes the screened event; the
-- marketing worker syncs contacts with a CRM through a resilient HTTP client; handlers purge and
-- export a user's data; a tracker counts, and a dashboard shows the counts.
--
-- Which file models which part (paths from the repository's root):
--   Events                 pkg/broker/events.go
--   Broker                 pkg/broker/broker.go: `Broker` and the channels (Broker.Subscription)
--   Redis                  pkg/broker/redis.go: `RedisBroker`, its goroutine (Redis.Forward)
--   Resilience.Breaker     pkg/resilience/circuit_breaker.go
--   Resilience.Client      pkg/resilience/resilient_client.go: `ResilientClient.Do`
--   Resilience.MockCrm     pkg/resilience/resilient_client.go: `SetupMockCRMServer`
--   Ingest.Consent         pkg/domain/ingest/consent.go, on Go's net package (Ingest.Address)
--   Ingest.Handler         pkg/domain/ingest/handler.go
--   Fraud.Rules            pkg/domain/fraud/rules.go
--   Fraud.Service          pkg/domain/fraud/service.go
--   Fraud.Memory           pkg/domain/fraud/memory.go
--   Fraud.Postgres         pkg/domain/fraud/postgres.go
--   Marketing.Service      pkg/domain/marketing/service.go
--   Marketing.Handlers     pkg/domain/marketing/handlers.go
--   Marketing.Memory       pkg/domain/marketing/memory.go
--   Marketing.Postgres     pkg/domain/marketing/postgres.go
--   Marketing.HttpCrm      pkg/domain/marketing/http_crm.go
--   Analytics.Memory       pkg/domain/analytics/memory.go
--   Analytics.Postgres     pkg/domain/analytics/postgres.go
--   Analytics.Dashboard    pkg/domain/analytics/service.go
--   Config                 pkg/config/config.go
--   Simulator              scripts/simulator/traffic.go: the legitimate traffic
--   Simulator.Attacks      scripts/simulator/traffic.go: the other events
--   Simulator.Session      scripts/simulator/main.go: the pings and the posts
--   Simulator.Compliance   scripts/simulator/traffic.go: `runGDPRAndCCPAFlows`
--   Ports                  the interfaces through which the modules reach one another
--   Database               Go's database/sql as far as the repositories use it
--   Mockdb                 pkg/mockdb/mockdb.go
--   Cluster                cmd/monolith/main.go, wired in memory, with the loops of the two workers
--   Cluster.Syncing        pkg/domain/marketing/service.go: a worker's turn, apart at the CRM's call
--   Cluster.Routes         the servers of cmd/monolith/main.go, with each `SetupRoutes`
--   Monolith.Boot          cmd/monolith/helpers.go and the start of cmd/monolith/main.go
--   Monolith.Database      cmd/monolith/main.go: the repositories and handlers over a database
--   Commands               cmd/orchestrator, ingest, fraud, marketing and analytics; the shutdown
--
-- The operations have the source's names in lower case (`PublishRaw` is `publish_raw`). A method under
-- a mutex is one function of the state. A handler's request, or a turn of a worker's loop, is one step
-- with all the methods that it calls, and a run is a list of such steps, in any order: what another
-- goroutine sees between two calls of one step is left out, but for the marketing worker's call of the
-- CRM (Cluster.Syncing), the goroutine of a Redis subscription (Redis.Forward) and the receives of a
-- channel (Broker.History). A send on a closed channel, at which Go panics, is a flag of the channel. A
-- service takes its collaborators as records of operations on a state `W` (Ports); Cluster gives the
-- records for the in-memory parts.
--
-- Numbers: an int or int64 is a pattern below 2 ^ 64, with its signed tests written out; a Duration
-- wraps in the backoff; an instant is a count of nanoseconds. Scores are in tenths, and a quotient of
-- two float64 is kept as the ratio of the two numbers.
-- Loops are structural: over lists, or over the rounds of `Do`, which `rounds` computes from
-- maxRetries (the largest int, with which the loop of the source never gives up, is left out), or over
-- the pings of a new Redis broker (ten) and of the simulator (five). Only `decimal` (Base.Text) has a
-- fixed fuel, of the twenty digits that an int64 has at most.
--
-- Parameters: the network and net/http behind `client.Do` (`Network`; a request carries what its reader
-- has left and the text that its ContentLength and GetBody were made of), the clock's readings, the CRM,
-- SHA-256, Unicode's lower-case letters above ASCII, the decoder of JSON (a handler is given what it
-- returns), the choices of a `select` that has more than one ready case (`Context`), and at the start
-- what the operating system, `sql.Open` and the Redis client answer (`Host`).
--
-- The database and the client of Redis are records of operations on a state of their own. The theorems
-- on the Postgres repositories assume of the server what PostgreSQL documents for the statements of the
-- source, with the schema of pkg/db/migrations (`ServesEvents`, `ServesContacts`, `ServesMetrics`,
-- `ServesPrivacy`):
-- a statement or transaction takes effect whole, or not at all with an error. Any of them may fail, but an error
-- that only tells that the server's answer was lost is left out.
--
-- Not modelled: net/http's servers below their routes, what is logged, what the simulator prints and the
-- layout of the dashboard's text, and the driver's own texts in an error of `Scan`.
pub mod Base
pub mod Resilience
pub mod Events
pub mod Broker
pub mod Ports
pub mod Database
pub mod Mockdb
pub mod Redis
pub mod Http
pub mod Fraud
pub mod Ingest
pub mod Analytics
pub mod Marketing
pub mod Config
pub mod Cluster
pub mod Monolith
pub mod Simulator
pub mod Commands
pub mod Tests

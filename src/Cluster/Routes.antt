-- ===== src/Cluster/Routes.antt =====
-- The three HTTP servers of cmd/monolith/main.go, with the routes of `SetupRoutes` in
-- pkg/domain/ingest/handler.go, marketing/handlers.go and analytics/service.go. A pattern without a
-- slash at its end is met by its own path only; the path of a request is given as the mux cleans it.
pub mod Gates
use sentinel_flow_event_driv.Base.{
  ℕ, String, Bool, Option, none, some, List, [], ◌∷◌, str_eq, if◌then◌else◌,
}
use sentinel_flow_event_driv.Base.Dict.{Dict, lookup}
use sentinel_flow_event_driv.Base.Word.{Time}
use sentinel_flow_event_driv.Events.{TrackingEvent}
use sentinel_flow_event_driv.Broker.Subscription.{Context}
use sentinel_flow_event_driv.Http.{Reply, http_error}
use sentinel_flow_event_driv.Ingest.Handler.{handle_ingest}
use sentinel_flow_event_driv.Marketing.Handlers.{ExportBody}
use sentinel_flow_event_driv.Analytics.Memory.{get_metrics}
use sentinel_flow_event_driv.Analytics.Dashboard.{AnalyticsBody, handle_metrics, handle_dashboard}
use sentinel_flow_event_driv.Cluster.{Cluster, broker_port, tracker_port, purge, export_data}

pub data Server : Type 0 where
  ingest_server marketing_server analytics_server : Server

pub data Endpoint : Type 0 where
  events gdpr_delete ccpa_export metrics dashboard : Endpoint

-- The patterns that each `SetupRoutes` registers.
unfoldable pub routes : Server → Dict Endpoint
routes ingest_server = ("/v1/events", events) ∷ []
routes marketing_server =
    ("/v1/privacy/gdpr-delete", gdpr_delete) ∷ ("/v1/privacy/ccpa-export", ccpa_export) ∷ []
routes analytics_server = ("/v1/metrics", metrics) ∷ ("/v1/dashboard", dashboard) ∷ []

-- What a handler reads of a request: the body as encoding/json decodes it for the handler, and the
-- parameter `user_id` of the query, empty where there is none.
pub record HttpRequest : Type 0 where
  pub method : String
  pub path : String
  pub user_id : String
  pub event : Option TrackingEvent
  pub deletion : Option String

-- The replies by the type of their bodies.
pub data HttpReply : Type 0 where
  plain : Reply String → HttpReply
  export : Reply ExportBody → HttpReply
  analytics : Reply AnalyticsBody → HttpReply

abbrev pub status : HttpReply → ℕ
status (plain r) = r.status_code
status (export r) = r.status_code
status (analytics r) = r.status_code

module _ {C : Type 0} (sha256_hex : String → String) (ctx : Context) (now later : Time) where
  unfoldable pub handle : Endpoint → HttpRequest → Cluster C → HttpReply × Cluster C
  handle events req w =
      let (reply, w') = handle_ingest broker_port tracker_port ctx now req.method req.event w in
      (plain reply, w')
  handle gdpr_delete req w =
      let (reply, w') = purge sha256_hex now later req.method req.deletion w in (plain reply, w')
  handle ccpa_export req w = (export (export_data now req.method req.user_id w), w)
  handle metrics req w = (analytics (handle_metrics req.method (get_metrics now w.tracker)), w)
  handle dashboard req w = (analytics (handle_dashboard req.method (get_metrics now w.tracker)), w)

  -- `http.NotFound` where no pattern is met.
  unfoldable pub route_to : Option Endpoint → HttpRequest → Cluster C → HttpReply × Cluster C
  unfolding handle http_error
  route_to none req w = (plain (http_error "404 page not found" 404), w)
  route_to (some endpoint) req w = handle endpoint req w

  unfoldable pub serve : Server → HttpRequest → Cluster C → HttpReply × Cluster C
  unfolding route_to routes
  serve server req w = route_to (lookup req.path (routes server)) req w

-- ===== src/Tests/Routes.antt =====
-- The servers of the monolith, on a purge that is asked for by GET.
use sentinel_flow_event_driv.Base.{ℕ, ◌≡◌, ◌≢◌, ◌⊎◌, true, false, String, none, some}
use sentinel_flow_event_driv.Base.Dict.{lookup}
use sentinel_flow_event_driv.Broker.Subscription.{Context}
use sentinel_flow_event_driv.Cluster.{Cluster, new_cluster}
use sentinel_flow_event_driv.Cluster.Routes.{Server, routes, HttpRequest, serve}
use sentinel_flow_event_driv.Cluster.Routes.Gates.{Gated, serve_gates}

abbrev patient : Context
patient = record { done = λ i. false; sends_first = λ i. true }

abbrev digest : String → String
digest s = s

abbrev fresh : Cluster ℕ
fresh = new_cluster 4 0 0

abbrev purge_by_get : HttpRequest
purge_by_get = record {
  method = "GET";
  path = "/v1/privacy/gdpr-delete";
  user_id = "";
  event = none;
  deletion = some "u1";
}

serve_gates_example :
    let answered = serve digest patient 1 2 Server.marketing_server purge_by_get fresh in
    Gated
      (lookup "/v1/privacy/gdpr-delete" (routes Server.marketing_server))
      purge_by_get
      fresh
      answered
    × ((◌≢◌ {A = String} "GET" "GET") ⊎ (answered.1 ≡ fresh))
serve_gates_example = serve_gates digest patient 1 2 Server.marketing_server purge_by_get fresh

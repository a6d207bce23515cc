-- ===== src/Cluster/Routes/Gates.antt =====
-- Which requests get past the router and the methods.
use sentinel_flow_event_driv.Base.{
  ℕ, ◌≡◌, ◌≢◌, ◌⊎◌, refl, sym, ◌∙◌, inl, inr, String, true, false, Option, none, some, str_eq,
  eq_iff, Bool-cases, Holds-if,
}
use sentinel_flow_event_driv.Base.Dict.{lookup}
use sentinel_flow_event_driv.Base.Word.{Time}
use sentinel_flow_event_driv.Events.{TrackingEvent}
use sentinel_flow_event_driv.Broker.{BrokerError}
use sentinel_flow_event_driv.Broker.Subscription.{Context}
use sentinel_flow_event_driv.Http.{Reply, http_error}
use sentinel_flow_event_driv.Fraud.Service.{event_service}
use sentinel_flow_event_driv.Fraud.Memory as Fraud
use sentinel_flow_event_driv.Ingest.Handler.{
  lacks_field, stamped, after_publish, accept_event, ingest_decoded, handle_ingest,
}
use sentinel_flow_event_driv.Marketing.Handlers.{
  ExportBody, handle_gdpr_delete, finish_purge, handle_ccpa_export, finish_export,
}
use sentinel_flow_event_driv.Analytics.Dashboard.{handle_metrics, handle_dashboard}
use sentinel_flow_event_driv.Cluster.{Cluster, broker_port, tracker_port, purge, export_data}
use sentinel_flow_event_driv.Cluster.Routes.{
  Server, Endpoint, events, gdpr_delete, ccpa_export, metrics, dashboard, routes, HttpRequest,
  HttpReply, status, handle, route_to, serve,
}

-- The one method that an endpoint takes.
abbrev pub method_of : Endpoint → String
method_of events = "POST"
method_of gdpr_delete = "POST"
method_of ccpa_export = "GET"
method_of metrics = "GET"
method_of dashboard = "GET"

-- A handler's own answers: done, or refused for what the request or the stores hold.
abbrev pub IsHandled : ℕ → Type 0
IsHandled code = (code ≡ 200) ⊎ (code ≡ 202) ⊎ (code ≡ 400) ⊎ (code ≡ 500)

-- What a server does with a request, by the endpoint that its path names.
abbrev pub Gated :
    {C : Type 0} → Option Endpoint → HttpRequest → Cluster C → HttpReply × Cluster C → Type 0
Gated none req w (reply, w') = (status reply ≡ 404) × (w' ≡ w)
Gated (some endpoint) req w (reply, w') =
    (req.method ≢ method_of endpoint) × (status reply ≡ 405) × (w' ≡ w)
    ⊎ (req.method ≡ method_of endpoint) × IsHandled (status reply)

module _ {C : Type 0} (sha256_hex : String → String) (ctx : Context) (now later : Time) where
  wrong_method :
      (endpoint : Endpoint) (req : HttpRequest) (w : Cluster C)
      → str_eq req.method (method_of endpoint) ≡ false
      → (status (handle sha256_hex ctx now later endpoint req w).0 ≡ 405)
        × ((handle sha256_hex ctx now later endpoint req w).1 ≡ w)
  unfolding handle handle_ingest purge handle_gdpr_delete export_data handle_ccpa_export
      handle_metrics handle_dashboard http_error
  wrong_method events req w other = rw other (refl, refl)
  wrong_method gdpr_delete req w other = rw other (refl, refl)
  wrong_method ccpa_export req w other = rw other (refl, refl)
  wrong_method metrics req w other = rw other (refl, refl)
  wrong_method dashboard req w other = rw other (refl, refl)

  after_publish-IsHandled :
      (r : Option BrokerError) (w : Cluster C)
      → IsHandled (after_publish broker_port tracker_port (r, w)).0.status_code
  unfolding after_publish http_error
  after_publish-IsHandled none w = inr (inl refl)
  after_publish-IsHandled (some e) w = inr (inr (inr refl))

  accept_event-IsHandled :
      (event : TrackingEvent) (consent : Option String) (w : Cluster C)
      → IsHandled (accept_event broker_port tracker_port ctx event consent w).0.status_code
  unfolding accept_event
  accept_event-IsHandled event none w = after_publish-IsHandled _ _
  accept_event-IsHandled event (some e) w = inr (inr (inl refl))

  ingest-IsHandled :
      (decoded : Option TrackingEvent) (w : Cluster C)
      → IsHandled (ingest_decoded broker_port tracker_port ctx now decoded w).0.status_code
  unfolding ingest_decoded http_error
  ingest-IsHandled none w = inr (inr (inl refl))
  ingest-IsHandled (some event) w =
      Holds-if (λ (r : Reply String × Cluster C). IsHandled r.0.status_code) (lacks_field event)
        (inr (inr (inl refl))) (accept_event-IsHandled (stamped now event) _ w)

  purge-IsHandled :
      (deletion : Option String) (w : Cluster C)
      → IsHandled (purge sha256_hex now later "POST" deletion w).0.status_code
  unfolding purge handle_gdpr_delete http_error event_service finish_purge Fraud.delete_user_events
  purge-IsHandled none w = inr (inr (inl refl))
  purge-IsHandled (some user_id) w = elim (Bool-cases (str_eq user_id "")) [
    | inl missing ↦ rw missing (inr (inr (inl refl)))
    | inr given ↦ rw given (inl refl)
  ]

  right_method :
      (endpoint : Endpoint) (req : HttpRequest) (w : Cluster C)
      → req.method ≡ method_of endpoint
      → IsHandled (status (handle sha256_hex ctx now later endpoint req w).0)
  unfolding handle handle_ingest export_data handle_ccpa_export finish_export event_service
      handle_metrics handle_dashboard
  right_method events req w post = rw post (ingest-IsHandled req.event w)
  right_method gdpr_delete req w post = rw post (purge-IsHandled req.deletion w)
  right_method ccpa_export req w get = rw get (
      Holds-if (λ (r : Reply ExportBody). IsHandled r.status_code) (str_eq req.user_id "")
        (inr (inr (inl refl))) (inl refl))
  right_method metrics req w get = rw get (inl refl)
  right_method dashboard req w get = rw get (inl refl)

  reads_only :
      (endpoint : Endpoint) (req : HttpRequest) (w : Cluster C)
      → req.method ≡ "GET"
      → (handle sha256_hex ctx now later endpoint req w).1 ≡ w
  unfolding handle handle_ingest purge handle_gdpr_delete
  reads_only events req w get = rw get refl
  reads_only gdpr_delete req w get = rw get refl
  reads_only ccpa_export req w get = refl
  reads_only metrics req w get = refl
  reads_only dashboard req w get = refl

  routed :
      (found : Option Endpoint) (req : HttpRequest) (w : Cluster C)
      → Gated found req w (route_to sha256_hex ctx now later found req w)
        × (req.method ≡ "GET" → (route_to sha256_hex ctx now later found req w).1 ≡ w)
  unfolding route_to http_error
  routed none req w = ((refl, refl), λ _. refl)
  routed (some endpoint) req w = elim (Bool-cases (str_eq req.method (method_of endpoint))) [
    | inl right ↦
        let same = (eq_iff req.method (method_of endpoint)).0 right in
        (inr (same, right_method endpoint req w same), reads_only endpoint req w)
    | inr wrong ↦
        let (refused, kept) = wrong_method endpoint req w wrong in
        (
          inl (
            λ same.
                let clash : true ≡ false =
                  sym ((eq_iff req.method (method_of endpoint)).1 same) ∙ wrong in
                cc,
            refused,
            kept,
          ),
          reads_only endpoint req w,
        )
  ]

  -- Whatever is asked of a server of the monolith in memory: where its routes do not name the path, the
  -- answer is 404 and nothing changes; where the method is not the one of the path's endpoint, the
  -- answer is 405 and nothing changes; and otherwise the answer is 200, 202, 400 or 500. A GET never
  -- changes anything.
  pub serve_gates :
      (server : Server) (req : HttpRequest) (w : Cluster C)
      → let answered = serve sha256_hex ctx now later server req w in
        Gated (lookup req.path (routes server)) req w answered
        × ((req.method ≢ "GET") ⊎ (answered.1 ≡ w))
  unfolding serve
  serve_gates server req w =
      let (gated, reads) = routed (lookup req.path (routes server)) req w in
      (
        gated,
        elim (Bool-cases (str_eq req.method "GET")) [
          | inl get ↦ inr (reads ((eq_iff req.method "GET").0 get))
          | inr other ↦ inl (λ get.
              let clash : true ≡ false = sym ((eq_iff req.method "GET").1 get) ∙ other in cc)
        ],
      )

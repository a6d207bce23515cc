-- ===== src/Marketing/HttpCrm.antt =====
-- pkg/domain/marketing/http_crm.go, on the client of Resilience.Client. Three things are parameters:
-- the JSON text of a contact (`json.Marshal`, which does not fail on this record), the error that
-- `http.NewRequestWithContext` has for a URL, and the network.
pub mod Sync
use Prim.Native.String.{◌++◌ as append}
use sentinel_flow_event_driv.Base.{String, Option, none, some, ◌==◌, if◌then◌else◌}
use sentinel_flow_event_driv.Base.Text.{decimal}
use sentinel_flow_event_driv.Base.Word.{Time}
use sentinel_flow_event_driv.Ports.{Fallible, ok, err, CrmContact}
use sentinel_flow_event_driv.Resilience.Client.{
  Request, Network, ResilientClient, DoError, breaker_open, context_done, request_failed,
  bad_status, Returned, success, failure, panics, do_request,
}

-- The texts of the errors of `Do`; the one of a context is Go's for a context that was cancelled.
unfoldable pub error_text : DoError → String
error_text breaker_open = "circuit breaker is open - request blocked"
error_text context_done = "context canceled"
error_text (request_failed cause retries) =
    append "request failed after " (append (decimal retries) (append " retries: " cause))
error_text (bad_status status retries) =
    append "request failed with status "
      (append status (append " after " (append (decimal retries) " retries")))

-- From the return of `Do` on. A panic ends the goroutine; it is kept apart by the text.
unfoldable pub sync_result : Returned → Fallible Unit
unfolding error_text
sync_result (success r) =
    if r.status_code == 200
    then ok tt
    else err
        (append "unexpected status code " (append (decimal r.status_code) (append ": " r.body)))
sync_result (failure _ e) = err (error_text e)
sync_result panics = err "panic"

pub record HttpCrmAdapter : Type 0 where
  pub crm_url : String
  pub crm_client : ResilientClient

-- `encode` is `json.Marshal`, `url_error` the error of `NewRequestWithContext`.
unfoldable pub sync_contact :
    (CrmContact → String)
    → (String → Option String)
    → Network
    → Time
    → CrmContact
    → HttpCrmAdapter
    → Fallible Unit × HttpCrmAdapter
unfolding sync_result
sync_contact encode url_error net now contact h =
    let text = encode contact in
    let req : Request = record { method = "POST"; url = h.crm_url; body = text; original = text } in
    let (returned, trace) = do_request net now h.crm_client req in
    elim (url_error h.crm_url) [
      | some e ↦ (err e, h)
      | none ↦ (
        sync_result returned,
        record h { crm_client = record h.crm_client { cb = trace.breaker } },
      )
    ]

-- ===== src/Marketing/HttpCrm/Sync.antt =====
-- What the success of a sync says of the CRM's answer and of the breaker.
use sentinel_flow_event_driv.Base.{
  ◌≡◌, refl, inl, inr, String, Option, ◌==◌, arith, Bool-cases, Option-cases,
}
use sentinel_flow_event_driv.Base.Word.{Time}
use sentinel_flow_event_driv.Ports.{ok, CrmContact}
use sentinel_flow_event_driv.Resilience.Breaker.{state_closed}
use sentinel_flow_event_driv.Resilience.Client.{
  Request, Response, Network, Returned, success, failure, panics, do_request,
}
use sentinel_flow_event_driv.Resilience.Client.Outcome.{do_request-closes}
use sentinel_flow_event_driv.Marketing.HttpCrm.{sync_result, HttpCrmAdapter, sync_contact}

-- A result is ok only for a response with the status 200.
sync_result-ok :
    (r : Returned)
    → sync_result r ≡ ok tt
    → (answer : Response) × (r ≡ success answer) × (answer.status_code ≡ 200)
unfolding sync_result
sync_result-ok (success answer) e = elim (Bool-cases (answer.status_code == 200)) [
  | inl good ↦ (answer, refl, ground arith)
  | inr bad ↦ let refused = rw bad at e in cc
]
sync_result-ok (failure _ _) e = cc
sync_result-ok panics e = cc

-- The request that carries a contact.
abbrev pub sync_request : (CrmContact → String) → CrmContact → HttpCrmAdapter → Request
sync_request encode contact h = record {
  method = "POST";
  url = h.crm_url;
  body = encode contact;
  original = encode contact;
}

-- However the network behaves, a sync that reports no error has got a response with the status 200 to
-- the request that carries the contact, and leaves the breaker closed, with no failure counted.
pub sync_contact-ok :
    (encode : CrmContact → String) (url_error : String → Option String) (net : Network) (now : Time)
    (contact : CrmContact) (h : HttpCrmAdapter)
    → (sync_contact encode url_error net now contact h).0 ≡ ok tt
    → let client = (sync_contact encode url_error net now contact h).1.crm_client in
      (answer : Response) × ((do_request net now h.crm_client (sync_request encode contact h)).0
        ≡ success answer)
      × (answer.status_code ≡ 200)
      × (client.cb.state ≡ state_closed)
      × (client.cb.failures ≡ 0)
unfolding sync_contact
sync_contact-ok encode url_error net now contact h e = elim (Option-cases (url_error h.crm_url)) [
  | inl valid ↦
      let req = sync_request encode contact h in
      let (answer, got, good) =
        sync_result-ok (do_request net now h.crm_client req).0 (rw (valid, sync_contact) at e) in
      let (closed, reset) = do_request-closes net now h.crm_client req answer got in
      (answer, got, good, rw (valid, sync_contact) closed, rw (valid, sync_contact) reset)
  | inr (text, bad) ↦ let refused = rw (bad, sync_contact) at e in cc
]

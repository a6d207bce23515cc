-- ===== src/Tests/Marketing.antt =====
-- pkg/domain/marketing: the theorems on one contact and a CRM that answers 200.
use sentinel_flow_event_driv.Base.{◌≡◌, refl, String, Option, false, none, []}
use sentinel_flow_event_driv.Ports.{CrmContact}
use sentinel_flow_event_driv.Resilience.Breaker.{state_closed, allow}
use sentinel_flow_event_driv.Resilience.Client.{Response, responds, Network, success, do_request}
use sentinel_flow_event_driv.Marketing.HttpCrm.{HttpCrmAdapter, sync_contact}
use sentinel_flow_event_driv.Marketing.HttpCrm.Sync.{sync_request, sync_contact-ok}

abbrev contact : CrmContact
contact = record {
  user_id = "u1";
  email = "u1@example.com";
  workflow_triggered = "Welcome & Onboarding Campaign";
  sync_status = "pending";
  synced_at = 1;
  retry_count = 0;
}

abbrev encode : CrmContact → String
encode c = c.email

abbrev any_url : String → Option String
any_url url = none

abbrev synced : Response
synced = record { status_code = 200; status = "200 OK"; body = "synced" }

abbrev good : Network
good = record {
  exchange = λ n req. record { answer = responds synced; unread = "" };
  jitter = λ n. 0;
  cancelled = λ n. false;
  clock = λ n. n;
}

abbrev adapter : HttpCrmAdapter
adapter = record {
  crm_url = "http://localhost:8083/crm/sync";
  crm_client = record {
    cb = record {
      state = state_closed;
      failures = 1;
      threshold = 3;
      cooldown = 5;
      last_failure = 0;
      has_observer = false;
      notified = [];
    };
    max_retries = 2;
    base_delay = 20_000_000;
  };
}

sync_contact-ok_example :
    let client = (sync_contact encode any_url good 4 contact adapter).1.crm_client in
    (answer : Response) × ((do_request good 4 adapter.crm_client
        (sync_request encode contact adapter)).0
      ≡ success answer)
    × (answer.status_code ≡ 200)
    × (client.cb.state ≡ state_closed)
    × (client.cb.failures ≡ 0)
unfolding sync_contact do_request allow
sync_contact-ok_example = sync_contact-ok encode any_url good 4 contact adapter refl

-- ===== src/Tests/Resilience.antt =====
-- pkg/resilience: the theorems on a breaker and a client with concrete settings.
use sentinel_flow_event_driv.Base.{
  ℕ, zero, suc, ◌+◌, ◌≤◌, ◌<◌, ◌≡◌, refl, ◌≢◌, ◌⊎◌, true, false, some, [], ◌∷◌, arith,
}
use sentinel_flow_event_driv.Base.Lists.{length}
use sentinel_flow_event_driv.Base.Word.{elapsed}
use sentinel_flow_event_driv.Resilience.Breaker.{
  CircuitBreaker, state_closed, state_half_open, state_open, new_circuit_breaker, allow,
  record_success, record_failure,
}
use sentinel_flow_event_driv.Resilience.Breaker.Order.{
  asks, fails, call, calls, failures_at, failures_at-trips, open_cycle,
}
use sentinel_flow_event_driv.Resilience.Breaker.Notices.{Walk, notices-Walk}
use sentinel_flow_event_driv.Resilience.Client.{
  Request, Response, responds, Network, ResilientClient, success, failure, bad_status, panics,
  accepted, backoff, do_request,
}
use sentinel_flow_event_driv.Resilience.Client.Attempts.{
  from_on, request_at, answer_at, delays, FailsAt,
}
use sentinel_flow_event_driv.Resilience.Client.Outcome.{
  do_request-succeeds, do_request-exhausts, exhausted-trips, do_request_bounds,
}

failures_at-trips_example :
    (0 + 3 < 3)
      × ((failures_at (1 ∷ 2 ∷ 3 ∷ []) (new_circuit_breaker 3 5 true)).state ≡ state_closed)
    ⊎ (3 ≤ 0 + 3)
      × ((failures_at (1 ∷ 2 ∷ 3 ∷ []) (new_circuit_breaker 3 5 true)).state ≡ state_open)
unfolding new_circuit_breaker
failures_at-trips_example =
    failures_at-trips (1 ∷ 2 ∷ 3 ∷ []) (new_circuit_breaker 3 5 true) refl (omega arith)
      (omega arith)

abbrev tripped : CircuitBreaker
tripped = record {
  state = state_open;
  failures = 3;
  threshold = 3;
  cooldown = 5;
  last_failure = 10;
  has_observer = true;
  notified = (state_closed, state_open) ∷ [];
}

open_cycle_example :
    (elapsed 20 10 ≤ 5) × (allow 20 tripped ≡ (tripped, false))
    ⊎ (5 < elapsed 20 10)
      × ((allow 20 tripped).1 ≡ true)
      × ((allow 20 tripped).0.state ≡ state_half_open)
      × ((record_success (allow 20 tripped).0).state ≡ state_closed)
      × ((record_success (allow 20 tripped).0).failures ≡ 0)
      × ((record_failure 21 (allow 20 tripped).0).state ≡ state_open)
      × ((record_failure 21 (allow 20 tripped).0).last_failure ≡ 21)
open_cycle_example = open_cycle 20 21 tripped refl

notices-Walk_example :
    Walk state_closed
      (fails 1 ∷ asks 9 ∷ [])
      ((state_closed, state_open) ∷ (state_open, state_half_open) ∷ [])
      state_half_open
unfolding calls call new_circuit_breaker record_failure allow
notices-Walk_example = notices-Walk 1 5 (fails 1 ∷ asks 9 ∷ [])

-- A server that fails the first two attempts, answering the second with 503, and then answers 200;
-- and the same for ever failing. The body is always read.
abbrev failed_answer : Response
failed_answer = record { status_code = 503; status = "503 Service Unavailable"; body = "busy" }

abbrev good_answer : Response
good_answer = record { status_code = 200; status = "200 OK"; body = "done" }

abbrev flaky : Network
flaky = record {
  exchange = λ n req. elim n [
    | zero ↦ record { answer = responds failed_answer; unread = "" }
    | suc m ↦ elim m [
      | zero ↦ record { answer = responds failed_answer; unread = "" }
      | suc _ ↦ record { answer = responds good_answer; unread = "" }
    ]
  ];
  jitter = λ n. 7;
  cancelled = λ n. false;
  clock = λ n. n;
}

abbrev down : Network
down = record flaky { exchange = λ n req. record { answer = responds failed_answer; unread = "" } }

abbrev client : ResilientClient
client = record {
  cb = record {
    state = state_closed;
    failures = 0;
    threshold = 3;
    cooldown = 5;
    last_failure = 0;
    has_observer = true;
    notified = [];
  };
  max_retries = 2;
  base_delay = 20_000_000;
}

abbrev order : Request
order = record {
  method = "POST";
  url = "http://localhost:8083/crm/sync";
  body = "{}";
  original = "{}";
}

flaky_fails : (n : ℕ) → n < 2 → FailsAt flaky client order n
unfolding answer_at accepted
flaky_fails zero h = (refl, refl)
flaky_fails (suc zero) h = (refl, refl)
flaky_fails (suc (suc n)) h = absurd (omega arith)

down_fails : (n : ℕ) → n ≤ 2 → FailsAt down client order n
unfolding answer_at accepted
down_fails zero h = (refl, refl)
down_fails (suc zero) h = (refl, refl)
down_fails (suc (suc zero)) h = (refl, refl)
down_fails (suc (suc (suc n))) h = absurd (omega arith)

do_request-succeeds_example : do_request flaky 0 client order ≡ (
  success good_answer,
  record {
    breaker = record_success (failures_at (0 ∷ 1 ∷ []) client.cb);
    sent = order ∷ record order { body = "" } ∷ record order { body = "" } ∷ [];
    waits = 27_000_000 ∷ 47_000_000 ∷ [];
  },
)
unfolding backoff allow from_on request_at delays accepted answer_at
do_request-succeeds_example =
    do_request-succeeds flaky 0 client order 2 good_answer refl (omega arith) (omega arith)
      flaky_fails refl refl

do_request-exhausts_example : do_request down 0 client order ≡ (
  failure (some failed_answer) (bad_status "503 Service Unavailable" 2),
  record {
    breaker = failures_at (0 ∷ 1 ∷ 2 ∷ []) client.cb;
    sent = order ∷ record order { body = "" } ∷ record order { body = "" } ∷ [];
    waits = 27_000_000 ∷ 47_000_000 ∷ [];
  },
)
unfolding backoff allow from_on request_at delays answer_at
do_request-exhausts_example = do_request-exhausts down 0 client order refl (omega arith) down_fails

do_request_bounds_example :
    let (returned, t) = do_request flaky 0 client order in
    (returned ≢ panics) × (length t.sent ≤ 3) × (length t.waits ≤ 2)
do_request_bounds_example = do_request_bounds flaky 0 client order (omega arith)

exhausted-trips_example :
    let after_call = (do_request down 0 client order).1.breaker in
    (3 < 3) × (after_call.state ≡ state_closed) ⊎ (3 ≤ 3) × (after_call.state ≡ state_open)
exhausted-trips_example =
    exhausted-trips down 0 client order refl (omega arith) (omega arith) (omega arith) down_fails

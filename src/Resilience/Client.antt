-- ===== src/Resilience/Client.antt =====
-- pkg/resilience/resilient_client.go, the client. What net/http and the network do is a parameter,
-- `Network`: the answer to each attempt, what the attempt leaves unread of the request's body, the
-- jitter, whether the request's context ends the wait before an attempt, and the clock.
pub mod Attempts
pub mod Outcome
use sentinel_flow_event_driv.Base.{
  ℕ, zero, suc, ◌+◌, ◌-◌, ◌*◌, ◌%◌, ◌^◌, ◌<◌, String, Bool, true, false, not, ◌&&◌, Option, none,
  some, List, [], ◌∷◌, ◌++◌, ltb, ◌==◌, if◌then◌else◌,
}
use sentinel_flow_event_driv.Base.Word.{add64, ltb_signed, word_mod, Time}
use sentinel_flow_event_driv.Resilience.Breaker.{
  CircuitBreaker, new_circuit_breaker, allow, record_success, record_failure,
}

-- `body` is what the request's reader has left to read. `original` is the text that the request was
-- made of, from which `http.NewRequest` sets its ContentLength and GetBody. `Clone` copies the request,
-- these two with it, and shares the reader. What `client.Do` makes of a reader that has less left than
-- the ContentLength is the network's answer.
pub record Request : Type 0 where
  pub method : String
  pub url : String
  pub body : String
  pub original : String

pub record Response : Type 0 where
  pub status_code : ℕ
  pub status : String
  pub body : String

-- What `client.Do` returns.
pub data Answer : Type 0 where
  responds : Response → Answer
  breaks : String → Answer

pub record Exchange : Type 0 where
  pub answer : Answer
  pub unread : String

-- Each field is asked at the number of the attempt.
pub record Network : Type 0 where
  pub exchange : ℕ → Request → Exchange
  pub jitter : ℕ → ℕ  -- `rand.Intn(100)`
  pub cancelled : ℕ → Bool  -- the wait before the attempt ends by `req.Context().Done()`
  pub clock : ℕ → Time  -- `time.Now()` in the `RecordFailure` of the attempt

pub record ResilientClient : Type 0 where
  pub cb : CircuitBreaker
  pub max_retries : ℕ  -- int
  pub base_delay : ℕ  -- time.Duration

-- The HTTP client and its timeout belong to the `Network`.
unfoldable pub new_resilient_client : ℕ → ℕ → ℕ → ℕ → Bool → ResilientClient
new_resilient_client cb_threshold cb_cooldown max_retries base_delay has_observer = record {
  cb = new_circuit_breaker cb_threshold cb_cooldown has_observer;
  max_retries = max_retries;
  base_delay = base_delay;
}

-- The errors of `Do`, with the number of retries that two of the messages show.
pub data DoError : Type 0 where
  breaker_open context_done : DoError
  request_failed : String → ℕ → DoError
  bad_status : String → ℕ → DoError

-- `(resp, nil)`, `(resp, err)` with a response or with none, and the nil dereference at
-- `resp.Status` where no attempt was made.
pub data Returned : Type 0 where
  success : Response → Returned
  failure : Option Response → DoError → Returned
  panics : Returned

-- What a call of `Do` has done: the requests handed to `client.Do`, and the delays waited.
pub record Trace : Type 0 where
  pub breaker : CircuitBreaker
  pub sent : List Request
  pub waits : List ℕ

-- `for attempt := 0; attempt <= rc.maxRetries; attempt++`. The largest int is left out: with it as
-- `maxRetries` the condition never fails, and the loop of the source never gives up.
unfoldable pub rounds : ℕ → ℕ
rounds max_retries = if ltb_signed max_retries 0 then 0 else suc max_retries

-- `baseDelay * (1 << uint(attempt-1)) + jitter`, in milliseconds of jitter; a Duration wraps.
unfoldable pub backoff : ℕ → ℕ → ℕ → ℕ
backoff base_delay attempt jitter =
    add64 (base_delay * (2 ^ (attempt - 1)) % word_mod) (jitter * 1_000_000)

-- `err == nil && resp.StatusCode < 500`
unfoldable pub accepted : Answer → Option Response
accepted (responds r) = if ltb r.status_code 500 then some r else none
accepted (breaks _) = none

-- The `return`s after the loop, by the last answer.
unfoldable pub give_up : ℕ → Option Answer → Returned
give_up max_retries none = panics
give_up max_retries (some (breaks e)) = failure none (request_failed e max_retries)
give_up max_retries (some (responds r)) = failure (some r) (bad_status r.status max_retries)

module _ (net : Network) (rc : ResilientClient) (req : Request) where
  -- The wait before an attempt that is not the first.
  unfoldable pub wait : ℕ → Trace → Trace
  unfolding backoff
  wait attempt t =
      if attempt == 0
      then t
      else record t { waits = t.waits ++ backoff rc.base_delay attempt (net.jitter attempt) ∷ [] }

  -- `rc.client.Do(retryReq)`, and the `RecordSuccess` or `RecordFailure` after it.
  unfoldable pub send : ℕ → String → Trace → Trace
  unfolding accepted
  send attempt body t =
      let request = record req { body = body } in
      let answer = (net.exchange attempt request).answer in
      record t {
        sent = t.sent ++ request ∷ [];
        breaker = elim (accepted answer) [
          | some _ ↦ record_success t.breaker
          | none ↦ record_failure (net.clock attempt) t.breaker
        ];
      }

  -- The rounds that are left, from one attempt on; `body` is what the shared reader has left.
  unfoldable pub loop : ℕ → ℕ → Option Answer → String → Trace → Returned × Trace
  unfolding wait send give_up accepted
  loop zero attempt last body t = (give_up rc.max_retries last, t)
  loop (suc left) attempt last body t =
      let waited = wait attempt t in
      let exchange = net.exchange attempt (record req { body = body }) in
      let sent = send attempt body waited in
      let rest = loop left (suc attempt) (some exchange.answer) exchange.unread sent in
      if not (attempt == 0) && net.cancelled attempt
      then (
        failure none context_done,
        record waited { breaker = record_failure (net.clock attempt) waited.breaker },
      )
      else elim (accepted exchange.answer) [ some r ↦ (success r, sent) | none ↦ rest ]

-- `Do`. The new client is the old one with the trace's breaker.
unfoldable pub do_request : Network → Time → ResilientClient → Request → Returned × Trace
unfolding loop rounds
do_request net now rc req =
    let (breaker, allowed) = allow now rc.cb in
    let start : Trace = record { breaker = breaker; sent = []; waits = [] } in
    let run = loop net rc req (rounds rc.max_retries) 0 none req.body start in
    if allowed then run else (failure none breaker_open, start)

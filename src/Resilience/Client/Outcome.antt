-- ===== src/Resilience/Client/Outcome.antt =====
-- The outcome of `Do` as a whole: its result, its requests and waits, and the breaker afterwards.
use sentinel_flow_event_driv.Base.{
  ℕ, zero, suc, String, ◌+◌, ◌≤◌, ◌<◌, ◌≡◌, refl, ◌∙◌, ap, ◌≢◌, ◌⊎◌, inl, inr, true, false, Option,
  none, some, [], ◌∷◌, arith, Bool-cases, Option-cases,
}
use native.Mathlib.Nat.{zero-add, add-zero, add-suc, suc-add}
use sentinel_flow_event_driv.Base.Lists.{length, length-append}
use sentinel_flow_event_driv.Base.Word.{sign_bit, Time}
use sentinel_flow_event_driv.Resilience.Breaker.{state_closed, state_open, allow, record_success}
use sentinel_flow_event_driv.Resilience.Breaker.Order.{failures_at, failures_at-trips}
use sentinel_flow_event_driv.Resilience.Client.{
  Request, Response, Answer, responds, breaks, Network, ResilientClient, Returned, success, failure,
  panics, breaker_open, request_failed, bad_status, Trace, rounds, backoff, accepted, give_up, wait,
  send, loop, do_request,
}
use sentinel_flow_event_driv.Resilience.Client.Attempts.{
  from_on, body_at, request_at, answer_at, FailsAt, Waits, delays, after, closing, last_answer,
  loop-exhausts, loop-succeeds,
}

-- The specification of a call that gives up: its answer by the last attempt's.
abbrev pub exhausted_by : ℕ → Answer → Returned
exhausted_by retries (breaks cause) = failure none (request_failed cause retries)
exhausted_by retries (responds r) = failure (some r) (bad_status r.status retries)

give_up_lem : (retries : ℕ) (a : Answer) → give_up retries (some a) ≡ exhausted_by retries a
unfolding give_up
give_up_lem retries (breaks cause) = refl
give_up_lem retries (responds r) = refl

rounds_nonneg : (m : ℕ) → m < sign_bit → rounds m ≡ suc m
unfolding rounds
rounds_nonneg m h = ground arith

length-from_on : {A : Type 0} (f : ℕ → A) (start count : ℕ) → length (from_on f start count) ≡ count
unfolding from_on
length-from_on f start zero = refl
length-from_on f start (suc count) = ap suc (length-from_on f (suc start) count)

module _ (net : Network) (now : Time) (rc : ResilientClient) (req : Request) where
  last_answer_lem :
      (start count : ℕ) (last : Option Answer)
      → last_answer net rc req start (suc count) last ≡ some (answer_at net rc req (start + count))
  unfolding last_answer
  last_answer_lem start zero last = rw add-zero
  last_answer_lem start (suc count) last =
      last_answer_lem (suc start) count (some (answer_at net rc req start)) ∙ rw (suc-add, add-suc)

  begin : Trace
  begin = record { breaker = (allow now rc.cb).0; sent = []; waits = [] }

  do_request_allowed :
      (allow now rc.cb).1 ≡ true
      → rc.max_retries < sign_bit
      → do_request net now rc req
        ≡ loop net rc req (suc rc.max_retries) 0 none (body_at net rc req 0) begin
  unfolding do_request body_at begin
  do_request_allowed ok m = rw (ok, rounds_nonneg rc.max_retries m)

  -- A request that the breaker lets through, whose first `count` attempts fail and whose next one
  -- gets a response with a status below 500, for `count` up to a maxRetries that is not negative,
  -- returns that response. It has sent the request `count + 1` times and waited the backoff delay
  -- before each time but the first; the breaker has recorded the failures and then the success.
  pub do_request-succeeds :
      (count : ℕ) (r : Response)
      → (allow now rc.cb).1 ≡ true
      → rc.max_retries < sign_bit
      → count ≤ rc.max_retries
      → ((n : ℕ) → n < count → FailsAt net rc req n)
      → Waits net rc req count
      → accepted (answer_at net rc req count) ≡ some r
      → do_request net now rc req ≡ (
        success r,
        record {
          breaker = record_success (failures_at (from_on net.clock 0 count) (allow now rc.cb).0);
          sent = from_on (request_at net rc req) 0 (suc count);
          waits = delays net rc req 0 (suc count);
        },
      )
  do_request-succeeds count r ok m h fails w f =
      do_request_allowed ok m
      ∙ loop-succeeds net rc req count (suc rc.max_retries) 0 none begin r (omega arith)
          (λ n p q. fails n (omega arith)) (rw zero-add w) (rw zero-add f)
      ∙ (unfold closing begin in refl)

  -- A request that the breaker lets through, all of whose attempts fail, for a maxRetries that is not
  -- negative and not the largest int, is sent `maxRetries + 1` times, with the backoff delay before
  -- each time but the first, and each failure is recorded. The call returns the last answer's response
  -- with an error of its status and the retries, or, if the last attempt got no response, none, with
  -- an error of its cause and the retries.
  pub do_request-exhausts :
      (allow now rc.cb).1 ≡ true
      → suc rc.max_retries < sign_bit
      → ((n : ℕ) → n ≤ rc.max_retries → FailsAt net rc req n)
      → do_request net now rc req ≡ (
        exhausted_by rc.max_retries (answer_at net rc req rc.max_retries),
        record {
          breaker = failures_at (from_on net.clock 0 (suc rc.max_retries)) (allow now rc.cb).0;
          sent = from_on (request_at net rc req) 0 (suc rc.max_retries);
          waits = delays net rc req 0 (suc rc.max_retries);
        },
      )
  do_request-exhausts ok m fails =
      do_request_allowed ok (omega arith)
      ∙ loop-exhausts net rc req (suc rc.max_retries) 0 none begin (λ n p q. fails n (omega arith))
      ∙ rw (last_answer_lem 0 rc.max_retries none, zero-add, give_up_lem rc.max_retries)
          (unfold after begin in refl)

  -- Where all attempts of a request fail that a closed breaker lets through, which has counted fewer
  -- failures than its threshold, the breaker stays closed if the failures of all attempts keep it
  -- below the threshold, and is open otherwise; for a threshold that is not negative, and a maxRetries
  -- that is neither negative nor the largest int.
  pub exhausted-trips :
      rc.cb.state ≡ state_closed
      → rc.cb.threshold < sign_bit
      → rc.cb.failures < rc.cb.threshold
      → suc rc.max_retries < sign_bit
      → ((n : ℕ) → n ≤ rc.max_retries → FailsAt net rc req n)
      → let after_call = (do_request net now rc req).1.breaker in
        let count = rc.cb.failures + suc rc.max_retries in
        (count < rc.cb.threshold) × (after_call.state ≡ state_closed)
        ⊎ (rc.cb.threshold ≤ count) × (after_call.state ≡ state_open)
  exhausted-trips c t below m fails =
      let same : allow now rc.cb ≡ (rc.cb, true) = unfold allow in rw c in
      rw (do_request-exhausts (ap (λ p. p.1) same) m fails, same)
        (rw (length-from_on net.clock 0 (suc rc.max_retries)) at
          (failures_at-trips (from_on net.clock 0 (suc rc.max_retries)) rc.cb c t below))

  send-closes :
      (attempt : ℕ) (t : Trace) {r : Response} (body : String)
      → accepted (net.exchange attempt (record req { body = body })).answer ≡ some r
      → ((send net rc req attempt body t).breaker.state ≡ state_closed)
        × ((send net rc req attempt body t).breaker.failures ≡ 0)
  unfolding send record_success
  send-closes attempt t body f = ground arith

  loop-success :
      (left attempt : ℕ) (last : Option Answer) (body : String) (t : Trace) (r : Response)
      → (loop net rc req left attempt last body t).0 ≡ success r
      → let t' = (loop net rc req left attempt last body t).1 in
        (t'.breaker.state ≡ state_closed) × (t'.breaker.failures ≡ 0)
  unfolding loop
  loop-success zero attempt last body t r h = ground arith
  loop-success (suc left) attempt last body t r h =
      elim (Option-cases (accepted (net.exchange attempt (record req { body = body })).answer)) [
        | inl fails ↦ ground (
          arith,
          loop-success left (suc attempt)
              (some (net.exchange attempt (record req { body = body })).answer)
              (net.exchange attempt (record req { body = body })).unread
              (send net rc req attempt body (wait net rc req attempt t)) r,
        )
        | inr (x, e) ↦ ground (arith, send-closes attempt (wait net rc req attempt t) body e)
      ]

  do_request_let_through :
      (allow now rc.cb).1 ≡ true
      → do_request net now rc req ≡ loop net rc req (rounds rc.max_retries) 0 none req.body begin
  unfolding do_request begin
  do_request_let_through ok = rw ok

  do_request_refused :
      (allow now rc.cb).1 ≡ false → do_request net now rc req ≡ (failure none breaker_open, begin)
  unfolding do_request begin
  do_request_refused no_way = rw no_way

  success_of_refused :
      (r : Response) → (allow now rc.cb).1 ≡ false → (do_request net now rc req).0 ≡ success r → ⊥
  success_of_refused r refused h = cc (do_request_refused refused)

  -- However the network behaves, a call that returns a response with no error leaves the breaker
  -- closed, with no failure counted.
  pub do_request-closes :
      (r : Response)
      → (do_request net now rc req).0 ≡ success r
      → let t = (do_request net now rc req).1 in
        (t.breaker.state ≡ state_closed) × (t.breaker.failures ≡ 0)
  do_request-closes r h = elim (Bool-cases (allow now rc.cb).1) [
    | inl ok ↦ rw (do_request_let_through ok) (
        loop-success (rounds rc.max_retries) 0 none req.body begin r
          (rw (do_request_let_through ok) at h))
    | inr refused ↦ absurd (success_of_refused r refused h)
  ]

  length-wait :
      (attempt : ℕ) (t : Trace)
      → (length (wait net rc req attempt t).waits ≤ length t.waits + 1)
        × ((wait net rc req attempt t).sent ≡ t.sent)
  unfolding wait
  length-wait attempt t =
      ground
        (arith, length-append t.waits (backoff rc.base_delay attempt (net.jitter attempt) ∷ []))

  length-send :
      (attempt : ℕ) (body : String) (t : Trace)
      → (length (send net rc req attempt body t).sent ≡ length t.sent + 1)
        × ((send net rc req attempt body t).waits ≡ t.waits)
  unfolding send
  length-send attempt body t = (length-append t.sent _, refl)

  wait_first : (t : Trace) → wait net rc req 0 t ≡ t
  unfolding wait
  wait_first t = refl

  loop_bounds :
      (left attempt : ℕ) (last : Answer) (body : String) (t : Trace)
      → let (returned, t') = loop net rc req left (suc attempt) (some last) body t in
        (returned ≢ panics)
        × (length t'.sent ≤ length t.sent + left)
        × (length t'.waits ≤ length t.waits + left)
  unfolding loop
  loop_bounds zero attempt last body t = (λ h. ground arith, omega arith, omega arith)
  loop_bounds (suc left) attempt last body t =
      let waited = wait net rc req (suc attempt) t in
      let exchange = net.exchange (suc attempt) (record req { body = body }) in
      let sent = send net rc req (suc attempt) body waited in
      ground (
        arith,
        length-wait (suc attempt) t,
        length-send (suc attempt) body waited,
        loop_bounds left (suc attempt) exchange.answer exchange.unread sent,
      )

  begin_bounds :
      (left : ℕ) (t : Trace)
      → let (returned, t') = loop net rc req (suc left) 0 none req.body t in
        (returned ≢ panics)
        × (length t'.sent ≤ length t.sent + suc left)
        × (length t'.waits ≤ length t.waits + left)
  unfolding loop
  begin_bounds left t =
      let exchange = net.exchange 0 req in
      let sent = send net rc req 0 req.body (wait net rc req 0 t) in
      ground (
        arith,
        wait_first t,
        length-send 0 req.body t,
        loop_bounds left 0 exchange.answer exchange.unread sent,
      )

  -- For a maxRetries that is not negative and not the largest int, and however the network behaves, a
  -- call never dereferences a nil response, sends the request `maxRetries + 1` times at most, and waits
  -- `maxRetries` times at most.
  pub do_request_bounds :
      suc rc.max_retries < sign_bit
      → let (returned, t) = do_request net now rc req in
        (returned ≢ panics)
        × (length t.sent ≤ suc rc.max_retries)
        × (length t.waits ≤ rc.max_retries)
  do_request_bounds m = elim (Bool-cases (allow now rc.cb).1) [
    | inl ok ↦
        rw (do_request_let_through ok, rounds_nonneg rc.max_retries (omega arith))
          (unfold begin in (simp zero-add at (begin_bounds rc.max_retries begin)))
    | inr refused ↦
        rw (do_request_refused refused) (unfold begin in ((λ h. cc), omega arith, omega arith))
  ]

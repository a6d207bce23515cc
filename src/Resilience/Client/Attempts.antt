-- ===== src/Resilience/Client/Attempts.antt =====
-- How many attempts a call makes, and what each of them leaves behind.
use sentinel_flow_event_driv.Base.{
  ℕ, zero, suc, ◌+◌, ◌≤◌, ◌<◌, ◌≡◌, ◌∙◌, inl, inr, String, false, not, ◌&&◌, Option, none, some,
  List, [], ◌∷◌, ◌++◌, arith, ◌==◌, if◌then◌else◌, Bool-cases,
}
use mathlib.Core.List.{append_assoc, append-nil}
use native.Mathlib.Nat.{add-zero, add-suc, suc-add}
use sentinel_flow_event_driv.Resilience.Breaker.{record_success}
use sentinel_flow_event_driv.Resilience.Breaker.Order.{failures_at}
use sentinel_flow_event_driv.Resilience.Client.{
  Request, Response, Answer, Network, ResilientClient, success, Trace, backoff, accepted, give_up,
  wait, send, loop,
}

-- `f` at `count` numbers in a row.
unfoldable pub from_on {ℓ} : {A : Type ℓ} → (ℕ → A) → ℕ → ℕ → List A
from_on f start zero = []
from_on f start (suc count) = f start ∷ from_on f (suc start) count

module _ (net : Network) (rc : ResilientClient) (req : Request) where
  -- The body that the attempt finds unread, if every attempt before it failed.
  unfoldable pub body_at : ℕ → String
  body_at zero = req.body
  body_at (suc n) = (net.exchange n (record req { body = body_at n })).unread

  unfoldable pub request_at : ℕ → Request
  unfolding body_at
  request_at n = record req { body = body_at n }

  unfoldable pub answer_at : ℕ → Answer
  unfolding request_at
  answer_at n = (net.exchange n (request_at n)).answer

  -- The wait before the attempt, which the first does not have, runs to its end.
  abbrev pub Waits : ℕ → Type 0
  Waits n = (not (n == 0) && net.cancelled n) ≡ false

  -- The attempt is made, and fails.
  abbrev pub FailsAt : ℕ → Type 0
  FailsAt n = Waits n × (accepted (answer_at n) ≡ none)

  -- The delays waited before the attempts from `start` on: none before the first of all.
  unfoldable pub delays : ℕ → ℕ → List ℕ
  delays start zero = []
  delays start (suc count) =
      let rest = delays (suc start) count in
      if start == 0 then rest else backoff rc.base_delay start (net.jitter start) ∷ rest

  -- The trace after `count` attempts from `start` on have failed.
  unfoldable pub after : ℕ → ℕ → Trace → Trace
  unfolding request_at delays from_on failures_at
  after start count t = record {
    sent = t.sent ++ from_on request_at start count;
    waits = t.waits ++ delays start count;
    breaker = failures_at (from_on net.clock start count) t.breaker;
  }

  after-suc :
      (start count : ℕ) (t : Trace)
      → after start (suc count) t ≡ after (suc start) count (after start 1 t)
  unfolding after
  after-suc start count t = elim (Bool-cases (start == 0)) [
    | inl first ↦ simp (first, append_assoc, append-nil)
    | inr later ↦ simp (later, append_assoc, append-nil)
  ]

  -- The answer that the loop holds after some failed attempts.
  unfoldable pub last_answer : ℕ → ℕ → Option Answer → Option Answer
  unfolding answer_at
  last_answer start zero last = last
  last_answer start (suc count) last = last_answer (suc start) count (some (answer_at start))

  after_one :
      (start : ℕ) (t : Trace)
      → accepted (answer_at start) ≡ none
      → send net rc req start (body_at start) (wait net rc req start t) ≡ after start 1 t
  unfolding send wait answer_at after
  after_one start t f = ground (arith, append-nil t.waits)

  loop-fails :
      (left start : ℕ) (last : Option Answer) (t : Trace)
      → FailsAt start
      → loop net rc req (suc left) start last (body_at start) t
        ≡ loop net rc req left
            (suc start)
            (some (answer_at start))
            (body_at (suc start))
            (after start 1 t)
  unfolding loop answer_at after
  loop-fails left start last t (w, f) = rw (w, f) (rw (after_one start t f))

  -- Where every attempt that is left fails, the call gives up with the last answer.
  pub loop-exhausts :
      (left start : ℕ) (last : Option Answer) (t : Trace)
      → ((n : ℕ) → start ≤ n → n < start + left → FailsAt n)
      → loop net rc req left start last (body_at start) t
        ≡ (give_up rc.max_retries (last_answer start left last), after start left t)
  unfolding last_answer
  loop-exhausts zero start last t h = unfold loop after in simp append-nil
  loop-exhausts (suc left) start last t h =
      loop-fails left start last t (h start (omega arith) (omega arith))
      ∙ loop-exhausts left (suc start) (some (answer_at start)) (after start 1 t)
          (λ n p q. h n (omega arith) (omega arith))
      ∙ rw (after-suc start left t)

  -- What an attempt that succeeds after `count` failures leaves behind.
  unfoldable pub closing : ℕ → ℕ → Trace → Trace
  unfolding request_at delays from_on failures_at
  closing start count t = record {
    sent = t.sent ++ from_on request_at start (suc count);
    waits = t.waits ++ delays start (suc count);
    breaker = record_success (failures_at (from_on net.clock start count) t.breaker);
  }

  closing-suc :
      (start count : ℕ) (t : Trace)
      → closing start (suc count) t ≡ closing (suc start) count (after start 1 t)
  unfolding closing after
  closing-suc start count t = elim (Bool-cases (start == 0)) [
    | inl first ↦ simp (first, append_assoc, append-nil)
    | inr later ↦ simp (later, append_assoc, append-nil)
  ]

  closing_one :
      (start : ℕ) (t : Trace) (r : Response)
      → accepted (answer_at start) ≡ some r
      → send net rc req start (body_at start) (wait net rc req start t) ≡ closing start 0 t
  unfolding send wait answer_at closing
  closing_one start t r f = ground (arith, append-nil t.waits)

  -- Where `count` attempts fail and the next one succeeds, the call returns its response.
  pub loop-succeeds :
      (count left start : ℕ) (last : Option Answer) (t : Trace) (r : Response)
      → count < left
      → ((n : ℕ) → start ≤ n → n < start + count → FailsAt n)
      → Waits (start + count)
      → accepted (answer_at (start + count)) ≡ some r
      → loop net rc req left start last (body_at start) t ≡ (success r, closing start count t)
  unfolding loop answer_at
  loop-succeeds count zero start last t r h fails w f = elim h [ ]
  loop-succeeds zero (suc left) start last t r h fails w f =
      let w' : Waits start = rw add-zero at w in
      let f' : accepted (answer_at start) ≡ some r = rw add-zero at f in
      rw (w', f') (rw (closing_one start t r f'))
  loop-succeeds (suc count) (suc left) start last t r h fails w f =
      loop-fails left start last t (fails start (omega arith) (omega arith))
      ∙ loop-succeeds count left (suc start) (some (answer_at start)) (after start 1 t) r
          (omega arith) (λ n p q. fails n (omega arith) (omega arith))
          (rw (add-suc, ← suc-add) at w) (rw (add-suc, ← suc-add) at f)
      ∙ rw (closing-suc start count t)

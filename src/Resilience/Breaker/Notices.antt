-- ===== src/Resilience/Breaker/Notices.antt =====
-- The notifications of a circuit breaker, against the moves that each call may make.
use mathlib.Core.List.{append_assoc, append-nil}
use sentinel_flow_event_driv.Base.{
  ◌∙◌, ◌≡◌, refl, sym, ◌⊎◌, inl, inr, ℕ, true, List, [], ◌∷◌, ◌++◌, arith,
}
use sentinel_flow_event_driv.Base.Word.{Time}
use sentinel_flow_event_driv.Resilience.Breaker.{
  CircuitBreakerState, state_closed, state_half_open, state_open, Transition, CircuitBreaker,
  new_circuit_breaker, allow, record_success, record_failure,
}
use sentinel_flow_event_driv.Resilience.Breaker.Order.{Call, asks, succeeds, fails, call, calls}

-- The moves of a call. The last one is of a success that is recorded while the breaker is open: the
-- client records it after a retry of a request that was let through earlier.
pub data Edge : Call → CircuitBreakerState → CircuitBreakerState → Type 0 where
  trips : {now : Time} → Edge (fails now) state_closed state_open
  relapses : {now : Time} → Edge (fails now) state_half_open state_open
  probes : {now : Time} → Edge (asks now) state_open state_half_open
  recovers : Edge succeeds state_half_open state_closed
  late_success : Edge succeeds state_open state_closed

-- The states that a call may leave as they are.
pub data Rests : Call → CircuitBreakerState → Type 0 where
  asked : {now : Time} {s : CircuitBreakerState} → Rests (asks now) s
  succeeded : Rests succeeds state_closed
  failed_closed : {now : Time} → Rests (fails now) state_closed
  failed_open : {now : Time} → Rests (fails now) state_open

-- The calls, in order, lead from the first state to the second, with these transitions: one for each
-- call that makes a move, and none for a call that leaves the state as it is.
pub data Walk
    : CircuitBreakerState → List Call → List Transition → CircuitBreakerState → Type 0 where
  stays : {s : CircuitBreakerState} → Walk s [] [] s
  rests :
      {s u : CircuitBreakerState} {c : Call} {cs : List Call} {ts : List Transition}
      → Rests c s
      → Walk s cs ts u
      → Walk s (c ∷ cs) ts u
  moves :
      {s t u : CircuitBreakerState} {c : Call} {cs : List Call} {ts : List Transition}
      → Edge c s t
      → Walk t cs ts u
      → Walk s (c ∷ cs) ((s, t) ∷ ts) u

-- A call leaves the state and the notices alone, or moves along an edge and gives notice of it.
abbrev Moved : Call → CircuitBreaker → CircuitBreaker → Type 0
Moved c cb cb' =
    Rests c cb.state × (cb'.state ≡ cb.state) × (cb'.notified ≡ cb.notified)
    ⊎ Edge c cb.state cb'.state × (cb'.notified ≡ cb.notified ++ (cb.state, cb'.state) ∷ [])

call-Moved : (c : Call) (cb : CircuitBreaker) → cb.has_observer ≡ true → Moved c cb (call c cb)
unfolding call allow record_success record_failure
call-Moved (asks now) cb o = grind (arith, probes, asked)
call-Moved succeeds cb o = grind (arith, recovers, late_success, succeeded)
call-Moved (fails now) cb o = grind (arith, trips, relapses, failed_closed, failed_open)

call-has_observer : (c : Call) (cb : CircuitBreaker) → (call c cb).has_observer ≡ cb.has_observer
unfolding call allow record_success record_failure
call-has_observer (asks now) cb = ground arith
call-has_observer succeeds cb = ground arith
call-has_observer (fails now) cb = ground arith

-- The notices of the calls, which come after those that were there.
abbrev Walks : List Call → CircuitBreaker → CircuitBreaker → Type 0
Walks cs cb cb' =
    (ts : List Transition) × (cb'.notified ≡ cb.notified ++ ts) × Walk cb.state cs ts cb'.state

Walks-extend :
    (c : Call) (cs : List Call) (cb next last : CircuitBreaker)
    → Moved c cb next
    → Walks cs next last
    → Walks (c ∷ cs) cb last
Walks-extend c cs cb next last (inl (still, same, quiet)) (ts, told, w) =
    (ts, rw quiet at told, rests still (rw same at w))
Walks-extend c cs cb next last (inr (edge, noticed)) (ts, told, w) =
    ((cb.state, next.state) ∷ ts, told ∙ simp (noticed, append_assoc), moves edge w)

calls-Walks :
    (cs : List Call) (cb : CircuitBreaker) → cb.has_observer ≡ true → Walks cs cb (calls cs cb)
unfolding calls
calls-Walks [] cb o = ([], sym (append-nil cb.notified), stays)
calls-Walks (c ∷ cs) cb o =
    Walks-extend c cs cb (call c cb) (calls cs (call c cb)) (call-Moved c cb o)
      (calls-Walks cs (call c cb) (call-has_observer c cb ∙ o))

-- Whatever calls are made of a new breaker that has an observer, they lead from the closed state to
-- the breaker's state, and the observer is told, in order and once each, of just the moves that they
-- make. A question whether a request may pass makes no move but from open to half-open; a success moves
-- to closed from half-open and from open; a failure moves from half-open to open, may move from closed
-- to open, and leaves an open breaker as it is.
pub notices-Walk :
    (threshold cooldown : ℕ) (cs : List Call)
    → let cb = calls cs (new_circuit_breaker threshold cooldown true) in
      Walk state_closed cs cb.notified cb.state
unfolding new_circuit_breaker
notices-Walk threshold cooldown cs =
    let (ts, told, w) = calls-Walks cs (new_circuit_breaker threshold cooldown true) refl in
    rw told w

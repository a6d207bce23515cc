-- ===== src/Resilience/Breaker/Order.antt =====
-- When the circuit breaker opens, blocks, probes and closes.
use sentinel_flow_event_driv.Base.{
  ℕ, ◌+◌, ◌≤◌, ◌<◌, ◌≡◌, ◌⊎◌, inl, inr, Bool, true, false, List, [], ◌∷◌, arith,
}
use sentinel_flow_event_driv.Base.Lists.{length}
use sentinel_flow_event_driv.Base.Word.{sign_bit, Time, elapsed}
use sentinel_flow_event_driv.Resilience.Breaker.{
  state_closed, state_half_open, state_open, CircuitBreaker, new_circuit_breaker, allow,
  record_success, record_failure,
}

-- One call of a method.
pub data Call : Type 0 where
  asks : Time → Call
  succeeds : Call
  fails : Time → Call

unfoldable pub call : Call → CircuitBreaker → CircuitBreaker
call (asks now) cb = (allow now cb).0
call succeeds cb = record_success cb
call (fails now) cb = record_failure now cb

unfoldable pub calls : List Call → CircuitBreaker → CircuitBreaker
calls [] cb = cb
calls (c ∷ cs) cb = calls cs (call c cb)

-- Between calls: while the breaker is closed it has counted fewer failures than its threshold.
pub record IsSound (cb : CircuitBreaker) : Type 0 where
  pub threshold_positive : 0 < cb.threshold
  pub threshold_in_range : cb.threshold < sign_bit
  pub below_threshold : cb.state ≡ state_closed → cb.failures < cb.threshold

pub call-IsSound : (c : Call) (cb : CircuitBreaker) → IsSound cb → IsSound (call c cb)
unfolding call allow record_success record_failure
call-IsSound (asks now) cb h = ground arith
call-IsSound succeeds cb h = ground arith
call-IsSound (fails now) cb h = ground arith

calls-IsSound : (cs : List Call) (cb : CircuitBreaker) → IsSound cb → IsSound (calls cs cb)
unfolding calls
calls-IsSound [] cb h = h
calls-IsSound (c ∷ cs) cb h = calls-IsSound cs (call c cb) (call-IsSound c cb h)

-- Whatever calls are made of a new breaker with a positive threshold that an int can hold, while it
-- is closed the failures counted are fewer than the threshold.
pub closed_below_threshold :
    (threshold cooldown : ℕ) (observed : Bool) (cs : List Call)
    → 0 < threshold
    → threshold < sign_bit
    → (calls cs (new_circuit_breaker threshold cooldown observed)).state ≡ state_closed
    → (calls cs (new_circuit_breaker threshold cooldown observed)).failures
      < (calls cs (new_circuit_breaker threshold cooldown observed)).threshold
unfolding new_circuit_breaker
closed_below_threshold threshold cooldown observed cs p q e =
    let start = new_circuit_breaker threshold cooldown observed in
    (calls-IsSound cs start (ground arith)).below_threshold e

unfoldable pub failures_at : List Time → CircuitBreaker → CircuitBreaker
failures_at [] cb = cb
failures_at (now ∷ ts) cb = failures_at ts (record_failure now cb)

failure_of_closed :
    (now : Time) (cb : CircuitBreaker)
    → cb.state ≡ state_closed
    → cb.threshold < sign_bit
    → cb.failures < cb.threshold
    → let cb' = record_failure now cb in
      (cb'.failures ≡ cb.failures + 1)
      × (cb'.threshold ≡ cb.threshold)
      × ((cb.failures + 1 < cb.threshold) × (cb'.state ≡ state_closed)
          ⊎ (cb.failures + 1 ≡ cb.threshold) × (cb'.state ≡ state_open))
unfolding record_failure
failure_of_closed now cb c t h = ground arith

failure_of_open :
    (now : Time) (cb : CircuitBreaker)
    → cb.state ≡ state_open
    → (record_failure now cb).state ≡ state_open
unfolding record_failure
failure_of_open now cb c = ground arith

failures_at-open :
    (ts : List Time) (cb : CircuitBreaker)
    → cb.state ≡ state_open
    → (failures_at ts cb).state ≡ state_open
unfolding failures_at
failures_at-open [] cb c = c
failures_at-open (now ∷ ts) cb c =
    failures_at-open ts (record_failure now cb) (failure_of_open now cb c)

-- A closed breaker that counts fewer failures than its threshold, a number that an int can hold,
-- stays closed over further failures in a row exactly as long as the count stays below the
-- threshold; from the failure that reaches it on, it is open.
pub failures_at-trips :
    (ts : List Time) (cb : CircuitBreaker)
    → cb.state ≡ state_closed
    → cb.threshold < sign_bit
    → cb.failures < cb.threshold
    → (cb.failures + length ts < cb.threshold) × ((failures_at ts cb).state ≡ state_closed)
      ⊎ (cb.threshold ≤ cb.failures + length ts) × ((failures_at ts cb).state ≡ state_open)
unfolding failures_at
failures_at-trips [] cb c t h = inl (omega arith, c)
failures_at-trips (now ∷ ts) cb c t h = elim (failure_of_closed now cb c t h).2 [
  | inl (less, still) ↦ ground (
    arith,
    failure_of_closed now cb c t h,
    failures_at-trips ts (record_failure now cb) still
        (ground (arith, failure_of_closed now cb c t h))
        (ground (arith, failure_of_closed now cb c t h)),
  )
  | inr (full, tripped) ↦ inr (omega arith, failures_at-open ts (record_failure now cb) tripped)
]

-- An open breaker refuses every request for as long as its cooldown since the last failure has not
-- run out, and is unchanged; the first request after that is let through and leaves it half-open,
-- and then one success closes it with no failure counted, and one failure opens it again.
pub open_cycle :
    (now later : Time) (cb : CircuitBreaker)
    → cb.state ≡ state_open
    → (elapsed now cb.last_failure ≤ cb.cooldown) × (allow now cb ≡ (cb, false))
      ⊎ (cb.cooldown < elapsed now cb.last_failure)
        × ((allow now cb).1 ≡ true)
        × ((allow now cb).0.state ≡ state_half_open)
        × ((record_success (allow now cb).0).state ≡ state_closed)
        × ((record_success (allow now cb).0).failures ≡ 0)
        × ((record_failure later (allow now cb).0).state ≡ state_open)
        × ((record_failure later (allow now cb).0).last_failure ≡ later)
unfolding allow record_success record_failure
open_cycle now later cb c = ground arith

-- ===== src/Resilience/Breaker.antt =====
-- pkg/resilience/circuit_breaker.go. A method of `*CircuitBreaker` returns the new record; the calls
-- of `onStateChange`, where it is set, are appended to `notified`. The mutex makes each method one
-- step. `now` is the method's reading of the clock. A cooldown is not negative.
pub mod Order
pub mod Notices
use sentinel_flow_event_driv.Base.{
  ℕ, String, Bool, true, false, ◌||◌, List, [], ◌∷◌, ◌++◌, ltb, if◌then◌else◌,
}
use sentinel_flow_event_driv.Base.Word.{add64, leb_signed, Time, elapsed}

pub data CircuitBreakerState : Type 0 where
  state_closed state_half_open state_open : CircuitBreakerState

-- `String` of a state. Its default case is for numbers that name no state.
unfoldable pub state_name : CircuitBreakerState → String
state_name state_closed = "CLOSED"
state_name state_half_open = "HALF-OPEN"
state_name state_open = "OPEN"

abbrev pub Transition : Type 0
Transition = CircuitBreakerState × CircuitBreakerState

pub record CircuitBreaker : Type 0 where
  pub state : CircuitBreakerState
  pub failures : ℕ  -- int
  pub threshold : ℕ  -- int
  pub cooldown : ℕ
  pub last_failure : Time
  pub has_observer : Bool  -- `onStateChange != nil`
  pub notified : List Transition

unfoldable pub new_circuit_breaker : ℕ → ℕ → Bool → CircuitBreaker
new_circuit_breaker threshold cooldown has_observer = record {
  state = state_closed;
  failures = 0;
  threshold = threshold;
  cooldown = cooldown;
  last_failure = 0;
  has_observer = has_observer;
  notified = [];
}

abbrev pub is_open : CircuitBreakerState → Bool
is_open state_open = true
is_open _ = false

abbrev pub is_half_open : CircuitBreakerState → Bool
is_half_open state_half_open = true
is_half_open _ = false

-- `old := cb.state; cb.state = to; if cb.onStateChange != nil { cb.onStateChange(old, cb.state) }`
unfoldable pub change_state : CircuitBreakerState → CircuitBreaker → CircuitBreaker
change_state to cb = record cb {
  state = to;
  notified = if cb.has_observer then cb.notified ++ (cb.state, to) ∷ [] else cb.notified;
}

unfoldable pub allow : Time → CircuitBreaker → CircuitBreaker × Bool
unfolding change_state
allow now cb =
    if is_open cb.state
    then if ltb cb.cooldown (elapsed now cb.last_failure)
      then (change_state state_half_open cb, true)
      else (cb, false)
    else (cb, true)

unfoldable pub record_success : CircuitBreaker → CircuitBreaker
unfolding change_state
record_success cb =
    if is_half_open cb.state || is_open cb.state
    then record (change_state state_closed cb) { failures = 0 }
    else record cb { failures = 0 }

unfoldable pub record_failure : Time → CircuitBreaker → CircuitBreaker
unfolding change_state
record_failure now cb =
    let cb' = record cb { failures = add64 cb.failures 1; last_failure = now } in
    if is_half_open cb'.state || leb_signed cb'.threshold cb'.failures
    then if is_open cb'.state then cb' else change_state state_open cb'
    else cb'

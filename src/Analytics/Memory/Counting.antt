-- ===== src/Analytics/Memory/Counting.antt =====
-- What the counters hold after any run of increments.
use sentinel_flow_event_driv.Base.{
  ℕ, ◌+◌, ◌%◌, ◌<◌, ◌≡◌, refl, ◌∙◌, inl, inr, String, Bool, true, false, Option, none, some, List,
  [], ◌∷◌, arith, Bool-cases, if◌then◌else◌,
}
use sentinel_flow_event_driv.Base.Word.{add64, word_mod, Time}
use sentinel_flow_event_driv.Analytics.Memory.{
  MemoryTelemetryTracker, Counter, counter_of, add_to, increment_metric,
  new_memory_telemetry_tracker,
}

abbrev pub read : Counter → MemoryTelemetryTracker → ℕ
read Counter.total_received m = m.total_received
read Counter.legitimate m = m.legitimate
read Counter.fraudulent m = m.fraudulent
read Counter.crm_attempts m = m.crm_attempts
read Counter.crm_successes m = m.crm_successes
read Counter.crm_failures m = m.crm_failures

pub Counter-discrete : Discrete Counter
Counter-discrete = hlevel

-- Two counters are the same one.
abbrev pub same : Counter → Counter → Bool
same Counter.total_received Counter.total_received = true
same Counter.legitimate Counter.legitimate = true
same Counter.fraudulent Counter.fraudulent = true
same Counter.crm_attempts Counter.crm_attempts = true
same Counter.crm_successes Counter.crm_successes = true
same Counter.crm_failures Counter.crm_failures = true
same _ _ = false

abbrev pub names : Counter → Option Counter → Bool
names c none = false
names c (some d) = same c d

read-add_to :
    (c : Counter) (d : Option Counter) (delta : ℕ) (m : MemoryTelemetryTracker)
    → read c (add_to d delta m) ≡ (if names c d then add64 (read c m) delta else read c m)
unfolding add_to
read-add_to c none delta m = refl
read-add_to c (some d) delta m = ground arith

pub read-increment :
    (c : Counter) (name : String) (delta : ℕ) (m : MemoryTelemetryTracker)
    → read c (increment_metric name delta m)
      ≡ (if names c (counter_of name) then add64 (read c m) delta else read c m)
unfolding increment_metric
read-increment c name delta m = read-add_to c (counter_of name) delta m

unfoldable pub increments : List (String × ℕ) → MemoryTelemetryTracker → MemoryTelemetryTracker
increments [] m = m
increments ((name, delta) ∷ calls) m = increments calls (increment_metric name delta m)

-- The sum of the deltas that go to a counter.
unfoldable pub sum_for : Counter → List (String × ℕ) → ℕ
sum_for c [] = 0
sum_for c ((name, delta) ∷ calls) =
    let rest = sum_for c calls in if names c (counter_of name) then delta + rest else rest

read-increments_from :
    (c : Counter) (calls : List (String × ℕ)) (m : MemoryTelemetryTracker)
    → read c m < word_mod
    → read c (increments calls m) ≡ (read c m + sum_for c calls) % word_mod
unfolding increments sum_for
read-increments_from c [] m h = omega arith
read-increments_from c ((name, delta) ∷ calls) m h =
    let m' = increment_metric name delta m in
    let e = read-increment c name delta m in
    elim (Bool-cases (names c (counter_of name))) [
      | inl hit ↦
          let e' : read c m' ≡ add64 (read c m) delta = e ∙ rw hit in
          rw hit (omega (arith, e', read-increments_from c calls m' (omega (arith, e'))))
      | inr miss ↦
          let e' : read c m' ≡ read c m = e ∙ rw miss in
          rw miss (omega (arith, e', read-increments_from c calls m' (omega (arith, e'))))
    ]

read-new : (c : Counter) (now : Time) → read c (new_memory_telemetry_tracker now) ≡ 0
unfolding new_memory_telemetry_tracker
read-new c now = ground arith

-- After any run of increments of a new tracker, in any order, each counter holds the sum of the deltas
-- that were given under its name, as an int64 (modulo 2 ^ 64).
pub read-increments :
    (c : Counter) (calls : List (String × ℕ)) (now : Time)
    → read c (increments calls (new_memory_telemetry_tracker now)) ≡ sum_for c calls % word_mod
read-increments c calls now =
    let start = new_memory_telemetry_tracker now in
    omega
      (arith, read-new c now, read-increments_from c calls start (omega (arith, read-new c now)))

add_to_comm :
    (c d : Option Counter) (x y : ℕ) (m : MemoryTelemetryTracker)
    → add_to c x (add_to d y m) ≡ add_to d y (add_to c x m)
unfolding add_to
add_to_comm none d x y m = refl
add_to_comm (some c) none x y m = refl
add_to_comm (some c) (some d) x y m = ground arith

-- Two increments give the same counters in either order.
pub increment_comm :
    (a b : String) (x y : ℕ) (m : MemoryTelemetryTracker)
    → increment_metric a x (increment_metric b y m) ≡ increment_metric b y (increment_metric a x m)
unfolding increment_metric
increment_comm a b x y m = add_to_comm (counter_of a) (counter_of b) x y m

-- ===== src/Analytics/Postgres/Walk.antt =====
-- What a walk over the table's rows leaves in the metrics.
use sentinel_flow_event_driv.Base.{
  ℕ, ◌≡◌, refl, sym, ap, ◌∙◌, inl, inr, String, Bool, Option, none, some, List, [], ◌∷◌, arith,
  str_eq, eq_iff, Bool-cases, if◌then◌else◌,
}
use sentinel_flow_event_driv.Base.Lists.{All}
use sentinel_flow_event_driv.Base.Orders.{any}
use sentinel_flow_event_driv.Database.{SqlRow}
use sentinel_flow_event_driv.Analytics.Models.{SystemMetrics}
use sentinel_flow_event_driv.Analytics.Memory.{Counter, counter_of}
use sentinel_flow_event_driv.Analytics.Memory.Counting.{names}
use sentinel_flow_event_driv.Analytics.Postgres.Names.{name_of, names-str_eq}
use sentinel_flow_event_driv.Analytics.Postgres.{set_metric, collect}
use sentinel_flow_event_driv.Analytics.Postgres.Server.{Shows, is_named, or_zero}

-- The field of a counter.
abbrev pub shown : Counter → SystemMetrics → ℕ
shown Counter.total_received m = m.total_events_received
shown Counter.legitimate m = m.legitimate_events
shown Counter.fraudulent m = m.fraudulent_events
shown Counter.crm_attempts m = m.crm_attempts
shown Counter.crm_successes m = m.crm_successes
shown Counter.crm_failures m = m.crm_failures

shown-set_metric :
    (c : Counter) (d : Option Counter) (val : ℕ) (m : SystemMetrics)
    → shown c (set_metric d val m) ≡ (if names c d then val else shown c m)
unfolding set_metric
shown-set_metric c none val m = refl
shown-set_metric c (some d) val m = ground arith

pub otherwise : {x y : ℕ} (test : Bool) → y ≡ x → (if test then x else y) ≡ x
otherwise test h = ground arith

-- What a walk over rows of the table leaves in a field.
pub collect-Shows :
    (c : Counter) (counters : String → Option ℕ) (rows : List SqlRow) (m : SystemMetrics)
    → All (Shows counters) rows
    → shown c (collect rows m)
      ≡ (if any (is_named (name_of c)) rows then or_zero (counters (name_of c)) else shown c m)
unfolding collect any
collect-Shows c counters [] m h = refl
collect-Shows c counters (row ∷ rows) m ((name, val, shape, there), hs) =
    let m' = set_metric (counter_of name) val m in
    let rest = collect-Shows c counters rows m' hs in
    let here : shown c m' ≡ (if str_eq name (name_of c) then val else shown c m) =
      rw (← names-str_eq c name) (shown-set_metric c (counter_of name) val m) in
    let later = any (is_named (name_of c)) rows in
    let total = or_zero (counters (name_of c)) in
    rw shape (elim (Bool-cases (str_eq name (name_of c))) [
      | inl alike ↦
          let whole : counters (name_of c) ≡ some val =
            (ap counters (sym ((eq_iff name (name_of c)).0 alike)) ∙ there) in
          let set : shown c m' ≡ total = (rw alike at here) ∙ sym (ap or_zero whole) in
          rw alike (rest ∙ otherwise later set)
      | inr apart ↦ rw apart (rest ∙ ap (λ (n : ℕ). if later then total else n) (rw apart at here))
    ])

pub SystemMetrics-ext :
    (a b : SystemMetrics)
    → ((c : Counter) → shown c a ≡ shown c b)
    → a.events_per_second ≡ b.events_per_second
    → a ≡ b
SystemMetrics-ext a b fields rate =
    let e0 = fields Counter.total_received in
    let e1 = fields Counter.legitimate in
    let e2 = fields Counter.fraudulent in
    let e3 = fields Counter.crm_attempts in
    let e4 = fields Counter.crm_successes in let e5 = fields Counter.crm_failures in cc

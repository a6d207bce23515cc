-- ===== src/Analytics/Postgres/Names.antt =====
-- The names of the counters, and the reading of a name as a counter.
use mathlib.Core.Path.{subst}
use sentinel_flow_event_driv.Base.{
  ◌≡◌, ◌⊎◌, refl, sym, ap, ◌∙◌, inl, inr, String, true, false, some, arith, str_eq, eq_iff, eq_refl,
  Bool-cases,
}
use sentinel_flow_event_driv.Analytics.Memory.{Counter, counter_of}
use sentinel_flow_event_driv.Analytics.Memory.Counting.{same, names}

-- The name of a counter.
abbrev pub name_of : Counter → String
name_of Counter.total_received = "total_received"
name_of Counter.legitimate = "legitimate"
name_of Counter.fraudulent = "fraudulent"
name_of Counter.crm_attempts = "crm_attempts"
name_of Counter.crm_successes = "crm_successes"
name_of Counter.crm_failures = "crm_failures"

abbrev IsNone : String → Type 0
IsNone name = (c : Counter) → str_eq name (name_of c) ≡ false

all_false :
    (name : String)
    → (str_eq name (name_of Counter.total_received) ≡ false)
      × (str_eq name (name_of Counter.legitimate) ≡ false)
      × (str_eq name (name_of Counter.fraudulent) ≡ false)
      × (str_eq name (name_of Counter.crm_attempts) ≡ false)
      × (str_eq name (name_of Counter.crm_successes) ≡ false)
      × (str_eq name (name_of Counter.crm_failures) ≡ false)
    → IsNone name
all_false name h Counter.total_received = h.0
all_false name h Counter.legitimate = h.1
all_false name h Counter.fraudulent = h.2
all_false name h Counter.crm_attempts = h.3
all_false name h Counter.crm_successes = h.4
all_false name h Counter.crm_failures = h.5

Counter-cases : (name : String) → ((c : Counter) × (name ≡ name_of c)) ⊎ IsNone name
Counter-cases name = elim (Bool-cases (str_eq name (name_of Counter.total_received))) [
  | inl e ↦ inl (Counter.total_received, (eq_iff name _).0 e)
  | inr e0 ↦ elim (Bool-cases (str_eq name (name_of Counter.legitimate))) [
    | inl e ↦ inl (Counter.legitimate, (eq_iff name _).0 e)
    | inr e1 ↦ elim (Bool-cases (str_eq name (name_of Counter.fraudulent))) [
      | inl e ↦ inl (Counter.fraudulent, (eq_iff name _).0 e)
      | inr e2 ↦ elim (Bool-cases (str_eq name (name_of Counter.crm_attempts))) [
        | inl e ↦ inl (Counter.crm_attempts, (eq_iff name _).0 e)
        | inr e3 ↦ elim (Bool-cases (str_eq name (name_of Counter.crm_successes))) [
          | inl e ↦ inl (Counter.crm_successes, (eq_iff name _).0 e)
          | inr e4 ↦ elim (Bool-cases (str_eq name (name_of Counter.crm_failures))) [
            | inl e ↦ inl (Counter.crm_failures, (eq_iff name _).0 e)
            | inr e5 ↦ inr (all_false name (e0, e1, e2, e3, e4, e5))
          ]
        ]
      ]
    ]
  ]
]

counter_of-name_of : (d : Counter) → counter_of (name_of d) ≡ some d
unfolding counter_of
counter_of-name_of Counter.total_received = refl
counter_of-name_of Counter.legitimate = refl
counter_of-name_of Counter.fraudulent = refl
counter_of-name_of Counter.crm_attempts = refl
counter_of-name_of Counter.crm_successes = refl
counter_of-name_of Counter.crm_failures = refl

same_refl : (c : Counter) → same c c ≡ true
same_refl c = ground arith

same_eq : (c d : Counter) → same c d ≡ true → d ≡ c
same_eq c d h = ground arith

same-name_of : (c d : Counter) → same c d ≡ str_eq (name_of d) (name_of c)
same-name_of c d = elim (Bool-cases (same c d)) [
  | inl here ↦ rw (here, same_eq c d here) (sym (eq_refl (name_of c)))
  | inr other ↦ elim (Bool-cases (str_eq (name_of d) (name_of c))) [
    | inl alike ↦
        let one : some d ≡ some c =
          (sym (counter_of-name_of d)
            ∙ ap counter_of ((eq_iff (name_of d) (name_of c)).0 alike)
            ∙ counter_of-name_of c) in
        let same_one : d ≡ c = cc in
        let true_false : true ≡ false =
          sym (same_refl c) ∙ subst (λ x. same c x ≡ false) same_one other in
        cc
    | inr apart ↦ rw (other, apart) refl
  ]
]

names-names : (c d : Counter) → names c (counter_of (name_of d)) ≡ str_eq (name_of d) (name_of c)
names-names c d = rw (counter_of-name_of d) (same-name_of c d)

pub names-str_eq :
    (c : Counter) (name : String) → names c (counter_of name) ≡ str_eq name (name_of c)
unfolding counter_of
names-str_eq c name = elim (Counter-cases name) [
  | inl (d, same) ↦
      subst (λ n. names c (counter_of n) ≡ str_eq n (name_of c)) (sym same) (names-names c d)
  | inr other ↦
      rw
        (
          other Counter.total_received,
          other Counter.legitimate,
          other Counter.fraudulent,
          other Counter.crm_attempts,
          other Counter.crm_successes,
          other Counter.crm_failures,
        )
        (sym (other c))
]

-- ===== src/Redis/Connect.antt =====
-- The pings with which the Redis broker starts.
use Prim.Native.String.{◌++◌ as append}
use mathlib.Core.Path.{subst}
use sentinel_flow_event_driv.Base.{
  ℕ, zero, suc, ◌+◌, ◌≤◌, ◌<◌, ◌≡◌, ◌≢◌, ◌⊎◌, refl, sym, ap, ◌∙◌, inl, inr, String, Option, none,
  some, arith, Option-cases, Bool-cases, ◌==◌, [], false,
}
use sentinel_flow_event_driv.Ports.{ok, err}
use sentinel_flow_event_driv.Redis.{ping_rounds, size_or_default, after_pings, new_redis_broker}

module _ (pings : ℕ → Option String) where
  -- One of the pings from a number on, below another, is answered.
  abbrev pub Answered : ℕ → ℕ → Type 0
  Answered first bound = (k : ℕ) × (first ≤ k) × (k < bound) × (pings k ≡ none)

  -- None of them is, and the last error is the given one.
  abbrev pub AllFail : ℕ → ℕ → String → Type 0
  AllFail first bound e =
      ((k : ℕ) → first ≤ k → k < bound → pings k ≢ none)
      × ((last : ℕ) → suc last ≡ bound → pings last ≡ some e)

  abbrev Outcome : ℕ → ℕ → Option String → Type 0
  Outcome first left result =
      Answered first (first + suc left) × (result ≡ none)
      ⊎ ((e : String) × AllFail first (first + suc left) e × (result ≡ some e))

  answered_round :
      (left first : ℕ) (before : Option String)
      → pings first ≡ none
      → ping_rounds pings (suc left) first before ≡ none
  unfolding ping_rounds
  answered_round left first before h = rw (h, ping_rounds) refl

  failed_round :
      (left first : ℕ) (before : Option String) {e : String}
      → pings first ≡ some e
      → ping_rounds pings (suc left) first before ≡ ping_rounds pings left (suc first) (some e)
  unfolding ping_rounds
  failed_round left first before h = rw (h, ping_rounds) (ap (ping_rounds pings left (suc first)) h)

  -- A failed ping before others that all fail.
  AllFail-suc :
      (first bound : ℕ) (e e' : String)
      → pings first ≡ some e'
      → AllFail (suc first) bound e
      → suc first < bound
      → AllFail first bound e
  AllFail-suc first bound e e' failed (fail, last) more = (
    λ k low high. elim (Bool-cases (first == k)) [
      | inl here ↦ λ answered.
          let same : first ≡ k = ground arith in
          let clash : none ≡ some e' = sym answered ∙ sym (ap pings same) ∙ failed in cc
      | inr other ↦ fail k (ground arith) high
    ],
    last,
  )

  rounds-Outcome :
      (left first : ℕ) (before : Option String)
      → Outcome first left (ping_rounds pings (suc left) first before)
  rounds-Outcome zero first before = elim (Option-cases (pings first)) [
    | inl answered ↦
        inl ((first, omega arith, omega arith, answered), answered_round zero first before answered)
    | inr (e, failed) ↦ inr (
      e,
      (
        λ k low high answered.
            let same : first ≡ k = omega arith in
            let clash : none ≡ some e = sym answered ∙ sym (ap pings same) ∙ failed in cc,
        λ last h. let same : last ≡ first = omega arith in ap pings same ∙ failed,
      ),
      failed_round zero first before failed ∙ unfold ping_rounds in refl,
    )
  ]
  rounds-Outcome (suc left) first before = elim (Option-cases (pings first)) [
    | inl answered ↦ inl (
      (first, omega arith, omega arith, answered),
      answered_round (suc left) first before answered,
    )
    | inr (e, failed) ↦
        let bound : suc first + suc left ≡ first + suc (suc left) = omega arith in
        elim (rounds-Outcome left (suc first) (some e)) [
          | inl ((k, low, high, answered), done) ↦ inl (
            (k, omega arith, omega arith, answered),
            failed_round (suc left) first before failed ∙ done,
          )
          | inr (e', fail, gone) ↦ inr (
            e',
            AllFail-suc first (first + suc (suc left)) e' e failed
                (subst (λ b. AllFail (suc first) b e') bound fail) (omega arith),
            failed_round (suc left) first before failed ∙ gone,
          )
        ]
  ]

  -- A new broker pings at most ten times. When one of the ten pings is answered it is connected, open,
  -- without subscriptions and with the buffer size that was asked for or the default; when none is,
  -- it fails with the error of the tenth.
  pub new_redis_broker-pings :
      {C : Type 0} (client : C) (buffer_size : ℕ)
      → Answered 0 10
          × (new_redis_broker (ok client) pings buffer_size
              ≡ ok (record {
                client = client;
                pubsubs = [];
                closed = false;
                buffer_size = size_or_default buffer_size;
              }))
        ⊎ ((e : String) × AllFail 0 10 e
            × (new_redis_broker (ok client) pings buffer_size
                ≡ err (append "failed to ping redis: " e)))
  unfolding new_redis_broker
  new_redis_broker-pings client buffer_size = elim (rounds-Outcome 9 0 none) [
    | inl (answered, done) ↦ inl (answered, ap (after_pings client buffer_size) done)
    | inr (e, fail, gone) ↦ inr (e, fail, ap (after_pings client buffer_size) gone)
  ]

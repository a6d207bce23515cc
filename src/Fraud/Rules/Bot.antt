-- ===== src/Fraud/Rules/Bot.antt =====
-- Which user agents the bot rule flags.
use sentinel_flow_event_driv.Base.{
  ◌-◌, ℕ, ◌≡◌, refl, ◌≢◌, inl, inr, ◌↔◌, true, false, ◌&&◌, List, [], ◌∷◌, map, arith, Bool-cases,
  leb, if◌then◌else◌,
}
use sentinel_flow_event_driv.Base.Text.{
  codes, lower_rune, to_lower, contains, contains_iff, IsPartOf,
}
use sentinel_flow_event_driv.Fraud.Rules.{scored, bot_reason, bot_verdict}

-- The signatures that the rule looks for.
pub data Signature : Type 0 where
  bot crawler headless spider python_requests curl : Signature

abbrev pub signature_text : Signature → List ℕ
signature_text bot = codes "bot"
signature_text crawler = codes "crawler"
signature_text headless = codes "headless"
signature_text spider = codes "spider"
signature_text python_requests = codes "python-requests"
signature_text curl = codes "curl"

module _ (table : ℕ → ℕ) where
  flagged :
      (ua : List ℕ) (s : Signature)
      → ua ≢ []
      → contains (to_lower table ua) (signature_text s) ≡ true
      → bot_verdict table ua ≡ scored 8 bot_reason
  unfolding bot_verdict
  flagged [] s ne h = absurd (ne refl)
  flagged (c ∷ cs) bot ne h = ground arith
  flagged (c ∷ cs) crawler ne h = ground arith
  flagged (c ∷ cs) headless ne h = ground arith
  flagged (c ∷ cs) spider ne h = ground arith
  flagged (c ∷ cs) python_requests ne h = ground arith
  flagged (c ∷ cs) curl ne h = ground arith

  found_in :
      (ua : List ℕ)
      → bot_verdict table ua ≡ scored 8 bot_reason
      → (s : Signature) × (contains (to_lower table ua) (signature_text s) ≡ true)
  unfolding bot_verdict
  found_in [] h = cc
  found_in (c ∷ cs) h =
      let has = λ (s : Signature). contains (to_lower table (c ∷ cs)) (signature_text s) in
      elim (Bool-cases (has bot)) [
        | inl e ↦ (bot, e)
        | inr n1 ↦ elim (Bool-cases (has crawler)) [
          | inl e ↦ (crawler, e)
          | inr n2 ↦ elim (Bool-cases (has headless)) [
            | inl e ↦ (headless, e)
            | inr n3 ↦ elim (Bool-cases (has spider)) [
              | inl e ↦ (spider, e)
              | inr n4 ↦ elim (Bool-cases (has python_requests)) [
                | inl e ↦ (python_requests, e)
                | inr n5 ↦ (curl, ground arith)
              ]
            ]
          ]
        ]
      ]

  none_in_empty : (s : Signature) → contains (to_lower table []) (signature_text s) ≡ false
  unfolding contains to_lower
  none_in_empty bot = refl
  none_in_empty crawler = refl
  none_in_empty headless = refl
  none_in_empty spider = refl
  none_in_empty python_requests = refl
  none_in_empty curl = refl

  present_in :
      (ua : List ℕ) (s : Signature)
      → IsPartOf (signature_text s) (to_lower table ua)
      → bot_verdict table ua ≡ scored 8 bot_reason
  present_in [] s p =
      cc (none_in_empty s, (contains_iff (to_lower table []) (signature_text s)).1 p)
  present_in (c ∷ cs) s p = flagged (c ∷ cs) s (λ e. cc) ((contains_iff _ (signature_text s)).1 p)

  -- The rule flags a user agent as a bot exactly if one of the signatures stands somewhere in it, once
  -- its letters are in lower case.
  pub bot_verdict_iff :
      (ua : List ℕ)
      → (bot_verdict table ua ≡ scored 8 bot_reason)
        ↔ ((s : Signature) × IsPartOf (signature_text s) (to_lower table ua))
  bot_verdict_iff ua = (
    (λ h. let (s, e) = found_in ua h in (s, (contains_iff _ (signature_text s)).0 e)),
    (λ (s, p). present_in ua s p),
  )

abbrev pub upper_ascii : ℕ → ℕ
upper_ascii c = if leb b'a' c && leb c b'z' then c - 32 else c

lower-upper : (table : ℕ → ℕ) (c : ℕ) → lower_rune table (upper_ascii c) ≡ lower_rune table c
unfolding lower_rune
lower-upper table c = ground arith

to_lower-upper :
    (table : ℕ → ℕ) (ua : List ℕ) → to_lower table (map upper_ascii ua) ≡ to_lower table ua
unfolding to_lower
to_lower-upper table [] = refl
to_lower-upper table (c ∷ cs) = cc (lower-upper table c, to_lower-upper table cs)

-- The verdict on a user agent is the same if its ASCII letters are put in upper case.
pub bot_verdict_ignores_case :
    (table : ℕ → ℕ) (ua : List ℕ) → bot_verdict table (map upper_ascii ua) ≡ bot_verdict table ua
unfolding bot_verdict
bot_verdict_ignores_case table [] = refl
bot_verdict_ignores_case table (c ∷ cs) = rw (to_lower-upper table (c ∷ cs))

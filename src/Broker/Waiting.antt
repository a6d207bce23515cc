-- ===== src/Broker/Waiting.antt =====
-- What waits in the channels, while nobody receives.
use mathlib.Core.List.{append_assoc, append-nil}
use sentinel_flow_event_driv.Base.{
  ℕ, suc, ◌≡◌, refl, sym, ap, ◌∙◌, inl, inr, Bool, true, ◌&&◌, List, [], ◌∷◌, ◌++◌, map, Bool-cases,
  Holds-if,
}
use sentinel_flow_event_driv.Events.{TrackingEvent}
use sentinel_flow_event_driv.Broker.{InMemoryBroker, BrokerError, publish_raw, close}
use sentinel_flow_event_driv.Base.{Option}
use sentinel_flow_event_driv.Broker.Subscription.{
  Channel, Context, push, send, ready, offer, offer_all, close_channel,
}

module _ {A : Type 0} where
  -- The channel holds what the old one held, in front of what came later.
  abbrev pub Continues : Channel A → Channel A → Type 0
  Continues old ch = (later : List A) × (ch.buffer ≡ old.buffer ++ later)

  -- So does each of the channels, in their order.
  abbrev pub AllContinue : List (Channel A) → List (Channel A) → Type 0
  AllContinue [] chs = Unit
  AllContinue (old ∷ olds) [] = ⊥
  AllContinue (old ∷ olds) (ch ∷ chs) = Continues old ch × AllContinue olds chs

  pub all_continue : (chs : List (Channel A)) → AllContinue chs chs
  all_continue [] = tt
  all_continue (ch ∷ chs) = (([], sym (append-nil ch.buffer)), all_continue chs)

  push-Continues : (a : A) (old ch : Channel A) → Continues old ch → Continues old (push a ch)
  unfolding push
  push-Continues a old ch (later, e) =
      (later ++ a ∷ [], ap (λ buffer. buffer ++ a ∷ []) e ∙ append_assoc old.buffer later (a ∷ []))

  send-Continues : (a : A) (old ch : Channel A) → Continues old ch → Continues old (send a ch)
  unfolding send
  send-Continues a old ch h = Holds-if (Continues old) ch.shut h (push-Continues a old ch h)

  offer-Continues :
      (ctx : Context) (a : A) (i : ℕ) (old ch : Channel A)
      → Continues old ch
      → Continues old (offer ctx a i ch).0
  unfolding offer
  offer-Continues ctx a i old ch h =
      let P = λ (r : Channel A × Bool). Continues old r.0 in
      let sent = send-Continues a old ch h in
      Holds-if P (ctx.done i) (Holds-if P (ready ch && ctx.sends_first i) sent h)
        (Holds-if P (ready ch) sent h)

  offer_all-Continue :
      (ctx : Context) (a : A) (i : ℕ) (olds chs : List (Channel A))
      → AllContinue olds chs
      → AllContinue olds (offer_all ctx a i chs).0
  unfolding offer_all
  offer_all-Continue ctx a i [] chs h = tt
  offer_all-Continue ctx a i (old ∷ olds) [] h = elim h [ ]
  offer_all-Continue ctx a i (old ∷ olds) (ch ∷ chs) (here, others) =
      let first = offer-Continues ctx a i old ch here in
      let P = λ (r : List (Channel A) × Bool). AllContinue (old ∷ olds) r.0 in
      Holds-if P (offer ctx a i ch).1 (first, offer_all-Continue ctx a (suc i) olds chs others)
        (first, others)

  close-Continue :
      (olds chs : List (Channel A))
      → AllContinue olds chs
      → AllContinue olds (map close_channel chs)
  unfolding close_channel
  close-Continue [] chs h = tt
  close-Continue (old ∷ olds) [] h = elim h [ ]
  close-Continue (old ∷ olds) (ch ∷ chs) (here, others) = (here, close-Continue olds chs others)

module _ (olds : List (Channel TrackingEvent)) where
  pub publish_raw-Continue :
      (ctx : Context) (event : TrackingEvent) (b : InMemoryBroker)
      → AllContinue olds b.raw_subs
      → AllContinue olds (publish_raw ctx event b).1.raw_subs
  unfolding publish_raw
  publish_raw-Continue ctx event b h =
      Holds-if (λ (r : Option BrokerError × InMemoryBroker). AllContinue olds r.1.raw_subs) b.closed
        h (offer_all-Continue ctx event 0 olds b.raw_subs h)

  pub close-raw_subs :
      (b : InMemoryBroker) → AllContinue olds b.raw_subs → AllContinue olds (close b).raw_subs
  unfolding close
  close-raw_subs b h =
      Holds-if (λ (r : InMemoryBroker). AllContinue olds r.raw_subs) b.closed h
        (close-Continue olds b.raw_subs h)

pub publish_raw-others :
    (ctx : Context) (event : TrackingEvent) (b : InMemoryBroker)
    → ((publish_raw ctx event b).1.closed ≡ b.closed)
      × ((publish_raw ctx event b).1.screened_subs ≡ b.screened_subs)
unfolding publish_raw
publish_raw-others ctx event b =
    Holds-if
      (λ (r : Option BrokerError × InMemoryBroker).
        (r.1.closed ≡ b.closed) × (r.1.screened_subs ≡ b.screened_subs))
      b.closed (refl, refl) (refl, refl)

-- Closing depends on nothing but the flag, for the channels of screened events.
pub close-screened_subs :
    (b b' : InMemoryBroker)
    → b'.closed ≡ b.closed
    → b'.screened_subs ≡ b.screened_subs
    → ((close b').closed ≡ true) × ((close b').screened_subs ≡ (close b).screened_subs)
unfolding close
close-screened_subs b b' same subs = elim (Bool-cases b.closed) [
  | inl h ↦ rw (same ∙ h, h) (refl, subs)
  | inr h ↦ rw (same ∙ h, h) (refl, ap (map close_channel) subs)
]

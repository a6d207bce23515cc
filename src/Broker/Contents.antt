-- ===== src/Broker/Contents.antt =====
-- What can be in the channels: only what satisfies a predicate of what was published.
use sentinel_flow_event_driv.Base.{
  ℕ, zero, suc, ◌≡◌, inl, inr, Bool, true, false, Option, none, some, List, [], ◌∷◌, map,
  Bool-cases, Option-cases, Holds-if, ◌&&◌,
}
use mathlib.Core.Path.{subst}
use sentinel_flow_event_driv.Base.Dict.{IsSome}
use sentinel_flow_event_driv.Base.Lists.{All, All-append, get_elem?}
use sentinel_flow_event_driv.Events.{TrackingEvent, ScreenedEvent}
use sentinel_flow_event_driv.Broker.Subscription.{
  Channel, Context, Received, item, ended, blocks, close_channel, push, send, ready, offer,
  offer_all, receive, receive_from,
}
use sentinel_flow_event_driv.Broker.{
  InMemoryBroker, publish_raw, publish_screened, subscribe_raw, subscribe_screened, close,
  receive_raw, receive_screened, replace_at,
}

module _ {A : Type 0} (P : A → Type 0) where
  abbrev pub Buffers : Channel A → Type 0
  Buffers ch = All P ch.buffer

  -- An item that is received satisfies the predicate.
  abbrev pub Gets : Received A → Type 0
  Gets (item a) = P a
  Gets ended = Unit
  Gets blocks = Unit

  send-Buffers : (a : A) (ch : Channel A) → P a → Buffers ch → Buffers (send a ch)
  unfolding send push
  send-Buffers a ch p h = Holds-if Buffers ch.shut h (All-append P ch.buffer (a ∷ []) h (p, tt))

  offer-Buffers :
      (ctx : Context) (a : A) (i : ℕ) (ch : Channel A)
      → P a
      → Buffers ch
      → Buffers (offer ctx a i ch).0
  unfolding offer
  offer-Buffers ctx a i ch p h =
      let Q = λ (r : Channel A × Bool). Buffers r.0 in
      let sent = send-Buffers a ch p h in
      Holds-if Q (ctx.done i) (Holds-if Q (ready ch && ctx.sends_first i) sent h)
        (Holds-if Q (ready ch) sent h)

  offer_all-Buffers :
      (ctx : Context) (a : A) (i : ℕ) (chs : List (Channel A))
      → P a
      → All Buffers chs
      → All Buffers (offer_all ctx a i chs).0
  unfolding offer_all
  offer_all-Buffers ctx a i [] p h = tt
  offer_all-Buffers ctx a i (ch ∷ chs) p h =
      let first = offer-Buffers ctx a i ch p h.0 in
      elim (Bool-cases (offer ctx a i ch).1) [
        | inl goes_on ↦ rw goes_on (first, offer_all-Buffers ctx a (suc i) chs p h.1)
        | inr stops ↦ rw stops (first, h.1)
      ]

  close_all-Buffers :
      (chs : List (Channel A)) → All Buffers chs → All Buffers (map close_channel chs)
  unfolding close_channel
  close_all-Buffers [] h = tt
  close_all-Buffers (ch ∷ chs) h = (h.0, close_all-Buffers chs h.1)

  receive-Buffers_of :
      (buffer : List A) (capacity : ℕ) (shut panicked : Bool)
      → All P buffer
      → let (r, ch') =
          receive
            (record { buffer = buffer; capacity = capacity; shut = shut; panicked = panicked }) in
        Gets r × Buffers ch'
  unfolding receive receive_from
  receive-Buffers_of [] capacity true panicked h = (tt, h)
  receive-Buffers_of [] capacity false panicked h = (tt, h)
  receive-Buffers_of (a ∷ buffer) capacity shut panicked h = h

  receive-Buffers : (ch : Channel A) → Buffers ch → Gets (receive ch).0 × Buffers (receive ch).1
  receive-Buffers ch h = receive-Buffers_of ch.buffer ch.capacity ch.shut ch.panicked h

  get_elem?-Buffers :
      (i : ℕ) (chs : List (Channel A)) {ch : Channel A}
      → All Buffers chs
      → get_elem? chs i ≡ some ch
      → Buffers ch
  get_elem?-Buffers i [] h e = cc
  get_elem?-Buffers zero (x ∷ chs) h e = subst (IsSome Buffers) e h.0
  get_elem?-Buffers (suc i) (x ∷ chs) h e = get_elem?-Buffers i chs h.1 e

  replace_at-Buffers :
      (i : ℕ) (chs : List (Channel A)) (ch : Channel A)
      → All Buffers chs
      → Buffers ch
      → All Buffers (replace_at i ch chs)
  replace_at-Buffers i [] ch h f = tt
  replace_at-Buffers zero (x ∷ chs) ch h f = (f, h.1)
  replace_at-Buffers (suc i) (x ∷ chs) ch h f = (h.0, replace_at-Buffers i chs ch h.1 f)

module _ (R : TrackingEvent → Type 0) (S : ScreenedEvent → Type 0) where
  -- What is buffered satisfies the predicate of its kind.
  abbrev pub Carries : InMemoryBroker → Type 0
  Carries b = All (Buffers R) b.raw_subs × All (Buffers S) b.screened_subs

  pub publish_raw-Carries :
      (ctx : Context) (event : TrackingEvent) (b : InMemoryBroker)
      → R event
      → Carries b
      → Carries (publish_raw ctx event b).1
  unfolding publish_raw
  publish_raw-Carries ctx event b p h = elim (Bool-cases b.closed) [
    | inl shut ↦ rw shut h
    | inr live ↦ rw live (offer_all-Buffers R ctx event 0 b.raw_subs p h.0, h.1)
  ]

  pub publish_screened-Carries :
      (ctx : Context) (event : ScreenedEvent) (b : InMemoryBroker)
      → S event
      → Carries b
      → Carries (publish_screened ctx event b).1
  unfolding publish_screened
  publish_screened-Carries ctx event b p h = elim (Bool-cases b.closed) [
    | inl shut ↦ rw shut h
    | inr live ↦ rw live (h.0, offer_all-Buffers S ctx event 0 b.screened_subs p h.1)
  ]

  pub subscribe-Carries :
      (b : InMemoryBroker)
      → Carries b
      → Carries (subscribe_raw b).1 × Carries (subscribe_screened b).1
  unfolding subscribe_raw subscribe_screened
  subscribe-Carries b h = elim (Bool-cases b.closed) [
    | inl shut ↦ rw shut (h, h)
    | inr live ↦ rw live (
      (All-append (Buffers R) b.raw_subs _ h.0 (tt, tt), h.1),
      (h.0, All-append (Buffers S) b.screened_subs _ h.1 (tt, tt)),
    )
  ]

  pub close-Carries : (b : InMemoryBroker) → Carries b → Carries (close b)
  unfolding close
  close-Carries b h = elim (Bool-cases b.closed) [
    | inl shut ↦ rw shut h
    | inr live ↦
        rw live (close_all-Buffers R b.raw_subs h.0, close_all-Buffers S b.screened_subs h.1)
  ]

  -- An event that a subscription hands over satisfies the predicate.
  abbrev pub GetsRaw : Option (Received TrackingEvent) → Type 0
  GetsRaw none = Unit
  GetsRaw (some r) = Gets R r

  abbrev pub GetsScreened : Option (Received ScreenedEvent) → Type 0
  GetsScreened none = Unit
  GetsScreened (some r) = Gets S r

  pub receive_raw-Carries :
      (i : ℕ) (b : InMemoryBroker)
      → Carries b
      → GetsRaw (receive_raw i b).0 × Carries (receive_raw i b).1
  unfolding receive_raw
  receive_raw-Carries i b h = elim (Option-cases (get_elem? b.raw_subs i)) [
    | inl no_one ↦ rw (no_one, receive_raw) (tt, h)
    | inr (ch, e) ↦
        (let taken = receive-Buffers R ch (get_elem?-Buffers R i b.raw_subs h.0 e) in
          rw (e, receive_raw)
            (taken.0, (replace_at-Buffers R i b.raw_subs (receive ch).1 h.0 taken.1, h.1)))
  ]

  pub receive_screened-Carries :
      (i : ℕ) (b : InMemoryBroker)
      → Carries b
      → GetsScreened (receive_screened i b).0 × Carries (receive_screened i b).1
  unfolding receive_screened
  receive_screened-Carries i b h = elim (Option-cases (get_elem? b.screened_subs i)) [
    | inl no_one ↦ rw (no_one, receive_screened) (tt, h)
    | inr (ch, e) ↦
        (let taken = receive-Buffers S ch (get_elem?-Buffers S i b.screened_subs h.1 e) in
          rw (e, receive_screened)
            (taken.0, (h.0, replace_at-Buffers S i b.screened_subs (receive ch).1 h.1 taken.1)))
  ]

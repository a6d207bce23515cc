-- ===== src/Broker/Shutdown.antt =====
-- What holds of the in-memory broker over its life, and what `Close` leaves to its consumers.
use sentinel_flow_event_driv.Base.{
  ℕ, zero, suc, ◌≤◌, ◌≡◌, refl, ◌∙◌, inl, inr, Bool, true, false, some, List, [], ◌∷◌, ◌++◌, map,
  arith, Bool-cases, Option-cases,
}
use mathlib.Core.List.{append_assoc, append-nil}
use sentinel_flow_event_driv.Base.Lists.{
  length, length-append, All, All-append, get_elem?, replicate,
}
use sentinel_flow_event_driv.Events.{TrackingEvent, ScreenedEvent}
use sentinel_flow_event_driv.Broker.Subscription.{
  Channel, Context, ended, close_channel, offer, offer_all, receive,
}
use sentinel_flow_event_driv.Broker.History.{receives, turns}
use sentinel_flow_event_driv.Broker.{
  InMemoryBroker, new_in_memory_broker, publish_raw, publish_screened, subscribe_raw,
  subscribe_screened, close, receive_raw, receive_screened, replace_at,
}

-- One call of the broker, or a receive at the place of a subscription.
pub data Action : Type 0 where
  publishes_raw : Context → TrackingEvent → Action
  publishes_screened : Context → ScreenedEvent → Action
  subscribes_raw subscribes_screened closes : Action
  receives_raw receives_screened : ℕ → Action

unfoldable pub act : Action → InMemoryBroker → InMemoryBroker
act (publishes_raw ctx event) b = (publish_raw ctx event b).1
act (publishes_screened ctx event) b = (publish_screened ctx event b).1
act subscribes_raw b = (subscribe_raw b).1
act subscribes_screened b = (subscribe_screened b).1
act closes b = close b
act (receives_raw i) b = (receive_raw i b).1
act (receives_screened i) b = (receive_screened i b).1

unfoldable pub acts : List Action → InMemoryBroker → InMemoryBroker
acts [] b = b
acts (x ∷ xs) b = acts xs (act x b)

module _ {A : Type 0} where
  -- The channel is closed exactly if the broker is, holds no more than its capacity, and no send has
  -- met it closed.
  abbrev pub Fits : Bool → Channel A → Type 0
  Fits closed ch = (ch.shut ≡ closed) × (length ch.buffer ≤ ch.capacity) × (ch.panicked ≡ false)

  offer-Fits :
      (ctx : Context) (a : A) (i : ℕ) (ch : Channel A)
      → Fits false ch
      → Fits false (offer ctx a i ch).0
  unfolding offer
  offer-Fits ctx a i ch h = ground (arith, length-append ch.buffer (a ∷ []))

  offer_all-Fits :
      (ctx : Context) (a : A) (i : ℕ) (chs : List (Channel A))
      → All (Fits false) chs
      → All (Fits false) (offer_all ctx a i chs).0
  unfolding offer_all
  offer_all-Fits ctx a i [] h = tt
  offer_all-Fits ctx a i (ch ∷ chs) h =
      let first = offer-Fits ctx a i ch h.0 in
      elim (Bool-cases (offer ctx a i ch).1) [
        | inl goes_on ↦ rw goes_on (first, offer_all-Fits ctx a (suc i) chs h.1)
        | inr stops ↦ rw stops (first, h.1)
      ]

  close_all-Fits :
      (closed : Bool) (chs : List (Channel A))
      → All (Fits closed) chs
      → All (Fits true) (map close_channel chs)
  unfolding close_channel
  close_all-Fits closed [] h = tt
  close_all-Fits closed (ch ∷ chs) h = ((refl, h.0.1, h.0.2), close_all-Fits closed chs h.1)

  receive-Fits_of :
      (closed : Bool) (buffer : List A) (capacity : ℕ) (shut panicked : Bool)
      → Fits closed
          (record { buffer = buffer; capacity = capacity; shut = shut; panicked = panicked })
      → Fits closed
          (receive
            (record { buffer = buffer; capacity = capacity; shut = shut; panicked = panicked })).1
  unfolding receive
  receive-Fits_of closed [] capacity shut panicked h = h
  receive-Fits_of closed (x ∷ buffer) capacity shut panicked h = (h.0, omega arith, h.2)

  receive-Fits : (closed : Bool) (ch : Channel A) → Fits closed ch → Fits closed (receive ch).1
  receive-Fits closed ch h = receive-Fits_of closed ch.buffer ch.capacity ch.shut ch.panicked h

  All-get_elem? :
      (closed : Bool) (i : ℕ) (chs : List (Channel A)) {ch : Channel A}
      → All (Fits closed) chs
      → get_elem? chs i ≡ some ch
      → Fits closed ch
  All-get_elem? closed i [] h e = cc
  All-get_elem? closed zero (x ∷ chs) h e = ground arith
  All-get_elem? closed (suc i) (x ∷ chs) h e = All-get_elem? closed i chs h.1 e

  replace_at-Fits :
      (closed : Bool) (i : ℕ) (chs : List (Channel A)) (ch : Channel A)
      → All (Fits closed) chs
      → Fits closed ch
      → All (Fits closed) (replace_at i ch chs)
  replace_at-Fits closed i [] ch h f = tt
  replace_at-Fits closed zero (x ∷ chs) ch h f = (f, h.1)
  replace_at-Fits closed (suc i) (x ∷ chs) ch h f = (h.0, replace_at-Fits closed i chs ch h.1 f)

-- Every subscriber's channel fits the broker.
pub record IsSound (b : InMemoryBroker) : Type 0 where
  pub raw_fit : All (Fits b.closed) b.raw_subs
  pub screened_fit : All (Fits b.closed) b.screened_subs

act-IsSound : (x : Action) (b : InMemoryBroker) → IsSound b → IsSound (act x b)
unfolding act publish_raw publish_screened subscribe_raw subscribe_screened close receive_raw
    receive_screened
act-IsSound (publishes_raw ctx event) b h = elim (Bool-cases b.closed) [
  | inl shut ↦ rw shut (rw shut at h)
  | inr live ↦ rw live (record {
    raw_fit = offer_all-Fits ctx event 0 b.raw_subs (rw live at h.raw_fit);
    screened_fit = rw live at h.screened_fit;
  })
]
act-IsSound (publishes_screened ctx event) b h = elim (Bool-cases b.closed) [
  | inl shut ↦ rw shut (rw shut at h)
  | inr live ↦ rw live (record {
    raw_fit = rw live at h.raw_fit;
    screened_fit = offer_all-Fits ctx event 0 b.screened_subs (rw live at h.screened_fit);
  })
]
act-IsSound subscribes_raw b h = elim (Bool-cases b.closed) [
  | inl shut ↦ rw shut (rw shut at h)
  | inr live ↦ rw live (record {
    raw_fit =
        All-append (Fits false) b.raw_subs _ (rw live at h.raw_fit) ((refl, omega arith, refl), tt);
    screened_fit = rw live at h.screened_fit;
  })
]
act-IsSound subscribes_screened b h = elim (Bool-cases b.closed) [
  | inl shut ↦ rw shut (rw shut at h)
  | inr live ↦ rw live (record {
    raw_fit = rw live at h.raw_fit;
    screened_fit =
        All-append (Fits false) b.screened_subs _ (rw live at h.screened_fit)
          ((refl, omega arith, refl), tt);
  })
]
act-IsSound closes b h = elim (Bool-cases b.closed) [
  | inl shut ↦ rw shut (rw shut at h)
  | inr live ↦ rw live (record {
    raw_fit = close_all-Fits b.closed b.raw_subs h.raw_fit;
    screened_fit = close_all-Fits b.closed b.screened_subs h.screened_fit;
  })
]
act-IsSound (receives_raw i) b h = elim (Option-cases (get_elem? b.raw_subs i)) [
  | inl no_one ↦ rw (no_one, act, receive_raw) h
  | inr (ch, e) ↦
      rw (e, act, receive_raw)
        (record {
          raw_fit =
              replace_at-Fits b.closed i b.raw_subs (receive ch).1 h.raw_fit
                (receive-Fits b.closed ch (All-get_elem? b.closed i b.raw_subs h.raw_fit e));
          screened_fit = h.screened_fit;
        })
]
act-IsSound (receives_screened i) b h = elim (Option-cases (get_elem? b.screened_subs i)) [
  | inl no_one ↦ rw (no_one, act, receive_screened) h
  | inr (ch, e) ↦
      rw (e, act, receive_screened)
        (record {
          raw_fit = h.raw_fit;
          screened_fit = replace_at-Fits b.closed i b.screened_subs (receive ch).1 h.screened_fit (
              receive-Fits b.closed ch (All-get_elem? b.closed i b.screened_subs h.screened_fit e));
        })
]

acts-IsSound : (xs : List Action) (b : InMemoryBroker) → IsSound b → IsSound (acts xs b)
unfolding acts
acts-IsSound [] b h = h
acts-IsSound (x ∷ xs) b h = acts-IsSound xs (act x b) (act-IsSound x b h)

-- Whatever is done with a new broker, in any order: a subscriber's channel is closed exactly if the
-- broker is, no publisher has ever sent on a closed channel, at which Go panics, and no channel holds
-- more events than its capacity.
pub broker_life-IsSound :
    (buffer_size : ℕ) (xs : List Action) → IsSound (acts xs (new_in_memory_broker buffer_size))
unfolding new_in_memory_broker
broker_life-IsSound buffer_size xs =
    acts-IsSound xs (new_in_memory_broker buffer_size) (record { raw_fit = tt; screened_fit = tt })

drain_of :
    {A : Type 0} (got buffer : List A) (capacity : ℕ) (panicked : Bool)
    → turns
        (replicate (length buffer) receives)
        (got, record { buffer = buffer; capacity = capacity; shut = true; panicked = panicked })
      ≡ (
        got ++ buffer,
        record { buffer = []; capacity = capacity; shut = true; panicked = panicked },
      )
unfolding turns receive
drain_of got [] capacity panicked = rw append-nil
drain_of got (x ∷ buffer) capacity panicked =
    drain_of (got ++ x ∷ []) buffer capacity panicked ∙ rw append_assoc

get_elem?-map :
    {A B : Type 0} (f : A → B) (i : ℕ) (xs : List A) {x : A}
    → get_elem? xs i ≡ some x
    → get_elem? (map f xs) i ≡ some (f x)
get_elem?-map f i [] e = cc
get_elem?-map f zero (x ∷ xs) e = ground arith
get_elem?-map f (suc i) (x ∷ xs) e = get_elem?-map f i xs e

-- `Close` of an open broker loses nothing: from its channel of raw events a subscriber still receives
-- all that was buffered, in order, and after that the end of the channel, and never waits.
pub close-drains :
    (b : InMemoryBroker) (i : ℕ) (ch : Channel TrackingEvent)
    → b.closed ≡ false
    → get_elem? b.raw_subs i ≡ some ch
    → (get_elem? (close b).raw_subs i ≡ some (close_channel ch))
      × ((turns (replicate (length ch.buffer) receives) ([], close_channel ch)).0 ≡ ch.buffer)
      × ((receive (turns (replicate (length ch.buffer) receives) ([], close_channel ch)).1).0
          ≡ ended)
unfolding close close_channel
close-drains b i ch live e =
    let drained = drain_of [] ch.buffer ch.capacity ch.panicked in
    (
      rw live (get_elem?-map close_channel i b.raw_subs e),
      rw drained,
      rw drained (unfold receive in refl),
    )

-- ===== src/Broker/Delivery.antt =====
-- What a publisher's event reaches, and in which order a subscriber receives.
use sentinel_flow_event_driv.Base.{
  ℕ, suc, ◌≡◌, refl, ◌⊎◌, inl, inr, true, false, none, some, List, [], ◌∷◌, ◌++◌, map,
  if◌then◌else◌, arith, Bool-cases,
}
use sentinel_flow_event_driv.Events.{TrackingEvent, ScreenedEvent}
use sentinel_flow_event_driv.Broker.Subscription.{
  Channel, Context, push, has_room, offer, offer_all,
}
use sentinel_flow_event_driv.Broker.{context_error, InMemoryBroker, publish_raw, publish_screened}

-- A context that is not done during the call.
abbrev pub IsLive : Context → Type 0
IsLive ctx = (i : ℕ) → ctx.done i ≡ false

module _ {A : Type 0} where
  -- The specification of a delivery to one subscriber: at the end of its buffer, or dropped where the
  -- buffer is full. A channel that is closed, which no open broker comes to have, has it panic.
  unfoldable pub deliver : A → Channel A → Channel A
  unfolding push
  deliver a ch =
      if ch.shut then record ch { panicked = true } else if has_room ch then push a ch else ch

  offer-live :
      (ctx : Context) (a : A) (i : ℕ) (ch : Channel A)
      → ctx.done i ≡ false
      → offer ctx a i ch ≡ (deliver a ch, true)
  unfolding offer deliver
  offer-live ctx a i ch live = ground arith

  pub offer_all-live :
      (ctx : Context) (a : A) (i : ℕ) (chs : List (Channel A))
      → IsLive ctx
      → offer_all ctx a i chs ≡ (map (deliver a) chs, true)
  unfolding offer_all
  offer_all-live ctx a i [] live = refl
  offer_all-live ctx a i (ch ∷ chs) live =
      rw (offer-live ctx a i ch (live i), offer_all-live ctx a (suc i) chs live)

  offer_goes_on :
      (ctx : Context) (a : A) (i : ℕ) (ch : Channel A)
      → (offer ctx a i ch).1 ≡ true
      → (offer ctx a i ch).0 ≡ deliver a ch
  unfolding offer deliver
  offer_goes_on ctx a i ch e = ground arith

  offer_stops :
      (ctx : Context) (a : A) (i : ℕ) (ch : Channel A)
      → (offer ctx a i ch).1 ≡ false
      → (offer ctx a i ch).0 ≡ ch
  unfolding offer
  offer_stops ctx a i ch e = ground arith

  -- Whatever the context does, the event is delivered to the subscribers up to some place, and those
  -- after it are as they were; the loop is complete only if none is left out.
  offer_all-prefix :
      (ctx : Context) (a : A) (i : ℕ) (chs : List (Channel A))
      → (reached : List (Channel A)) × (left_out : List (Channel A)) × (chs ≡ reached ++ left_out)
        × ((offer_all ctx a i chs).0 ≡ map (deliver a) reached ++ left_out)
        × (((offer_all ctx a i chs).1 ≡ false) ⊎ (left_out ≡ []))
  unfolding offer_all
  offer_all-prefix ctx a i [] = ([], [], refl, refl, inr refl)
  offer_all-prefix ctx a i (ch ∷ chs) = elim (Bool-cases (offer ctx a i ch).1) [
    | inl goes_on ↦
        (let (reached, left_out, split, there, full) = offer_all-prefix ctx a (suc i) chs in
          (
            ch ∷ reached,
            left_out,
            rw split,
            rw (goes_on, offer_goes_on ctx a i ch goes_on, there),
            rw goes_on full,
          ))
    | inr stops ↦ ([], ch ∷ chs, refl, rw (stops, offer_stops ctx a i ch stops), inl (rw stops))
  ]

-- While the broker is open, and its channels with it, and the publisher's context is not done, an event
-- reaches every subscriber of its kind: each gets it at the end of its buffer unless that is full,
-- whatever becomes of the others. Nothing else of the broker changes, and the publisher gets no error.
pub publish-delivers :
    (ctx : Context) (raw : TrackingEvent) (screened : ScreenedEvent) (b : InMemoryBroker)
    → b.closed ≡ false
    → IsLive ctx
    → (publish_raw ctx raw b ≡ (none, record b { raw_subs = map (deliver raw) b.raw_subs }))
      × (publish_screened ctx screened b
          ≡ (none, record b { screened_subs = map (deliver screened) b.screened_subs }))
unfolding publish_raw publish_screened
publish-delivers ctx raw screened b is_open live = (
  rw (offer_all-live ctx raw 0 b.raw_subs live, is_open),
  rw (offer_all-live ctx screened 0 b.screened_subs live, is_open),
)

-- While the broker is open, whatever the publisher's context does, a raw event is delivered to the
-- subscribers up to some place and to none after it; the publisher gets the context's error if one is
-- left out.
pub publish_raw-prefix :
    (ctx : Context) (event : TrackingEvent) (b : InMemoryBroker)
    → b.closed ≡ false
    → (reached : List (Channel TrackingEvent)) × (left_out : List (Channel TrackingEvent))
      × (b.raw_subs ≡ reached ++ left_out)
      × ((publish_raw ctx event b).1
          ≡ record b { raw_subs = map (deliver event) reached ++ left_out })
      × (((publish_raw ctx event b).0 ≡ some context_error) ⊎ (left_out ≡ []))
unfolding publish_raw
publish_raw-prefix ctx event b is_open =
    let (reached, left_out, split, there, full) = offer_all-prefix ctx event 0 b.raw_subs in
    (
      reached,
      left_out,
      split,
      rw (is_open, there),
      elim full [ inl f ↦ inl (rw (is_open, f)) | inr all ↦ inr all ],
    )

-- ===== src/Broker/History.antt =====
-- A subscription over its life, against the history of what was offered to it.
use mathlib.Core.List.{append_assoc, append-nil}
use sentinel_flow_event_driv.Base.{
  ℕ, suc, ◌+◌, ◌≤◌, ◌≡◌, ◌∙◌, Bool, true, false, List, [], ◌∷◌, ◌++◌, arith,
}
use sentinel_flow_event_driv.Base.Lists.{length, length-append}
use sentinel_flow_event_driv.Broker.Subscription.{
  Channel, Context, Received, item, ended, blocks, push, send, offer, receive,
}

-- What is done with the channel: a publisher's `select` on it, at some place of the publisher's loop, or
-- a receive of the consumer's; in the order in which they take place.
pub data Turn (A : Type 0) : Type 0 where
  offers : Context → ℕ → A → Turn A
  receives : Turn A

module _ {A : Type 0} where
  abbrev pub offered : List (Turn A) → List A
  offered [] = []
  offered (offers ctx i a ∷ ts) = a ∷ offered ts
  offered (receives ∷ ts) = offered ts

  -- No publisher's context is done when it comes to the channel.
  abbrev pub AllLive : List (Turn A) → Type 0
  AllLive [] = Unit
  AllLive (offers ctx i a ∷ ts) = (ctx.done i ≡ false) × AllLive ts
  AllLive (receives ∷ ts) = AllLive ts

  abbrev pub kept : Received A → List A
  kept (item a) = a ∷ []
  kept ended = []
  kept blocks = []

  -- What the consumer has received, and the channel.
  unfoldable pub turn : Turn A → List A × Channel A → List A × Channel A
  unfolding receive
  turn (offers ctx i a) (got, ch) = (got, (offer ctx a i ch).0)
  turn receives (got, ch) = let (r, ch') = receive ch in (got ++ kept r, ch')

  unfoldable pub turns : List (Turn A) → List A × Channel A → List A × Channel A
  unfolding turn
  turns [] s = s
  turns (t ∷ ts) s = turns ts (turn t s)

  -- Received and buffered, in the order of arrival.
  abbrev pub taken : List A × Channel A → List A
  taken (got, ch) = got ++ ch.buffer

  -- The channel is open, and has room for so many events more.
  abbrev HasRoom : ℕ → Channel A → Type 0
  HasRoom n ch = (ch.shut ≡ false) × (length ch.buffer + n ≤ ch.capacity)

  turn_receives :
      (n : ℕ) (got buffer : List A) (capacity : ℕ) (shut panicked : Bool)
      → let ch : Channel A = record {
        buffer = buffer;
        capacity = capacity;
        shut = shut;
        panicked = panicked;
      } in
        HasRoom n ch
        → (taken (turn receives (got, ch)) ≡ got ++ buffer) × HasRoom n (turn receives (got, ch)).1
  unfolding turn receive
  turn_receives n got [] capacity true panicked h = (append-nil (got ++ []), h)
  turn_receives n got [] capacity false panicked h = (append-nil (got ++ []), h)
  turn_receives n got (x ∷ buffer) capacity shut panicked h =
      (append_assoc got (x ∷ []) buffer, (h.0, omega arith))

  offer_in_room :
      (ctx : Context) (i n : ℕ) (a : A) (ch : Channel A)
      → ctx.done i ≡ false
      → HasRoom (suc n) ch
      → ((offer ctx a i ch).0.buffer ≡ ch.buffer ++ a ∷ []) × HasRoom n (offer ctx a i ch).0
  unfolding offer send push
  offer_in_room ctx i n a ch live h = ground (arith, length-append ch.buffer (a ∷ []))

  -- A subscriber whose channel is open and has room for all that is offered loses nothing, if no
  -- publisher's context is done: whenever it receives, what it has received, followed by what its
  -- channel holds, is what it began with and then all events offered, in order.
  pub taken_all :
      (ts : List (Turn A)) (s : List A × Channel A)
      → s.1.shut ≡ false
      → length s.1.buffer + length (offered ts) ≤ s.1.capacity
      → AllLive ts
      → taken (turns ts s) ≡ taken s ++ offered ts
  unfolding turns
  taken_all [] s is_open h live = rw append-nil
  taken_all (offers ctx i a ∷ ts) (got, ch) is_open h live =
      let (there, after_offer) =
        offer_in_room ctx i (length (offered ts)) a ch live.0 (is_open, h) in
      taken_all ts (got, (offer ctx a i ch).0) after_offer.0 after_offer.1 live.1
      ∙ simp (there, append_assoc)
  taken_all (receives ∷ ts) (got, ch) is_open h live =
      let (there, after_receive) =
        turn_receives (length (offered ts)) got ch.buffer ch.capacity ch.shut ch.panicked
          (is_open, h) in
      taken_all ts (turn receives (got, ch)) after_receive.0 after_receive.1 live ∙ rw there

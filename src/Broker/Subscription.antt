-- ===== src/Broker/Subscription.antt =====
-- A Go channel of a subscriber, and the loop of a publisher over all subscribers.
use sentinel_flow_event_driv.Base.{
  ℕ, suc, Bool, true, false, ◌&&◌, ◌||◌, List, [], ◌∷◌, ◌++◌, ltb, if◌then◌else◌,
}
use sentinel_flow_event_driv.Base.Lists.{length}

pub record Channel (A : Type 0) : Type 0 where
  pub buffer : List A
  pub capacity : ℕ
  pub shut : Bool
  pub panicked : Bool  -- a send has met it closed, at which Go panics

-- What the `select` of a publisher meets at the subscriber of a number: whether the context is done,
-- and, where the context is done and there is room too, which of the two cases Go picks.
pub record Context : Type 0 where
  pub done : ℕ → Bool
  pub sends_first : ℕ → Bool

-- A receive: an item, the end of a closed channel that is empty (`ok` is false), or a wait.
pub data Received (A : Type 0) : Type 0 where
  item : A → Received A
  ended : Received A
  blocks : Received A

module _ {A : Type 0} where
  unfoldable pub make_channel : ℕ → Channel A
  make_channel capacity = record {
    buffer = [];
    capacity = capacity;
    shut = false;
    panicked = false;
  }

  unfoldable pub close_channel : Channel A → Channel A
  close_channel ch = record ch { shut = true }

  unfoldable pub push : A → Channel A → Channel A
  push a ch = record ch { buffer = ch.buffer ++ a ∷ [] }

  abbrev pub has_room : Channel A → Bool
  has_room ch = ltb (length ch.buffer) ch.capacity

  -- The case of a send in a `select` can go on: there is room, or the channel is closed.
  abbrev pub ready : Channel A → Bool
  ready ch = ch.shut || has_room ch

  -- A send on a closed channel panics. What the model does after that stands for nothing in Go; that
  -- the flag is never set is proved in Broker.Shutdown.
  unfoldable pub send : A → Channel A → Channel A
  unfolding push
  send a ch = if ch.shut then record ch { panicked = true } else push a ch

  -- One `select` with a send, `ctx.Done()` and `default`: the channel afterwards, and whether the loop
  -- goes on.
  unfoldable pub offer : Context → A → ℕ → Channel A → Channel A × Bool
  unfolding send
  offer ctx a i ch =
      if ctx.done i
      then if ready ch && ctx.sends_first i then (send a ch, true) else (ch, false)
      else if ready ch
      then (send a ch, true)
      else (ch, true)

  -- `for _, sub := range subs`, which a `return ctx.Err()` leaves: `false`.
  unfoldable pub offer_all : Context → A → ℕ → List (Channel A) → List (Channel A) × Bool
  unfolding offer
  offer_all ctx a i [] = ([], true)
  offer_all ctx a i (ch ∷ chs) =
      let (ch', goes_on) = offer ctx a i ch in
      let (rest, complete) = offer_all ctx a (suc i) chs in
      if goes_on then (ch' ∷ rest, complete) else (ch' ∷ chs, false)

  unfoldable pub receive_from : List A → Channel A → Received A × Channel A
  receive_from [] ch = (if ch.shut then ended else blocks, ch)
  receive_from (a ∷ rest) ch = (item a, record ch { buffer = rest })

  -- `x, ok := <-ch`
  unfoldable pub receive : Channel A → Received A × Channel A
  unfolding receive_from
  receive ch = receive_from ch.buffer ch

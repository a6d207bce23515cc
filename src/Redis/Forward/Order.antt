-- ===== src/Redis/Forward/Order.antt =====
-- What a subscription of the Redis broker delivers, after any steps in any order.
use mathlib.Core.Path.{subst}
use mathlib.Core.List.{append_assoc, append-nil}
use sentinel_flow_event_driv.Base.{
  ℕ, ◌≡◌, refl, sym, ap, ◌∙◌, inl, inr, String, true, Option, none, some, List, [], ◌∷◌, ◌++◌,
  if◌then◌else◌, Bool-cases, Option-cases, Holds-if, if_true, if_false,
}
use sentinel_flow_event_driv.Broker.Subscription.{
  Channel, has_room, receive, receive_from, Received, push, close_channel, make_channel,
}
use sentinel_flow_event_driv.Redis.Forward.{
  Forwarder, ForwardStep, new_forwarder, forward, turn, take_message, send_event, finish,
}

abbrev in_front {ℓ} : {A : Type ℓ} → Option A → List A → List A
in_front none xs = xs
in_front (some x) xs = x ∷ xs

in_front-append :
    {A : Type 0} (o : Option A) (xs ys : List A) → in_front o xs ++ ys ≡ in_front o (xs ++ ys)
in_front-append none xs ys = refl
in_front-append (some x) xs ys = refl

module _ {E : Type 0} (unmarshal : String → Option E) where
  -- The events of the messages that are texts of events.
  unfoldable pub decodable : List String → List E
  decodable [] = []
  decodable (payload ∷ payloads) = in_front (unmarshal payload) (decodable payloads)

  unfoldable pub run : List ForwardStep → Forwarder E → Forwarder E
  run [] f = f
  run (s ∷ ss) f = run ss (forward unmarshal s f)

  -- The messages that arrive before the client's channel is closed.
  unfoldable pub arrived : List ForwardStep → Forwarder E → List String
  arrived [] f = []
  arrived (ForwardStep.arrives payload ∷ ss) f =
      let rest = arrived ss (forward unmarshal (ForwardStep.arrives payload) f) in
      if f.inbox_closed then rest else payload ∷ rest
  arrived (s ∷ ss) f = arrived ss (forward unmarshal s f)

  abbrev item_of : Received E → Option E
  item_of (Received.item event) = some event
  item_of _ = none

  -- The events that the subscriber gets.
  unfoldable pub taken : List ForwardStep → Forwarder E → List E
  taken [] f = []
  taken (ForwardStep.takes ∷ ss) f =
      in_front (item_of (receive f.out).0) (taken ss (forward unmarshal ForwardStep.takes f))
  taken (s ∷ ss) f = taken ss (forward unmarshal s f)

  -- The events that are not on the subscriber's channel yet, and all that it has still to get.
  abbrev pub unsent : Forwarder E → List E
  unsent f = in_front f.pending (decodable f.inbox)

  abbrev queue : Forwarder E → List E
  queue f = f.out.buffer ++ unsent f

  decodable-append :
      (front back : List String) → decodable (front ++ back) ≡ decodable front ++ decodable back
  unfolding decodable
  decodable-append [] back = refl
  decodable-append (payload ∷ front) back =
      let rest = decodable-append front back in
      elim (Option-cases (unmarshal payload)) [
        | inl bad ↦ rw bad rest
        | inr (event, good) ↦ rw good (ap (λ (es : List E). event ∷ es) rest)
      ]

  queue-send :
      (event : E) (f : Forwarder E) → f.pending ≡ some event → queue (send_event event f) ≡ queue f
  unfolding push
  queue-send event f there = elim (Bool-cases (has_room f.out)) [
    | inl room ↦ rw (room, there) (append_assoc f.out.buffer (event ∷ []) (decodable f.inbox))
    | inr full ↦ rw full refl
  ]

  queue-take :
      (payloads : List String) (f : Forwarder E)
      → f.pending ≡ none
      → f.inbox ≡ payloads
      → queue (take_message unmarshal payloads f) ≡ queue f
  unfolding decodable close_channel
  queue-take [] f idle shape = elim (Bool-cases f.inbox_closed) [
    | inl ended ↦ rw (ended, idle) refl
    | inr more ↦ rw more refl
  ]
  queue-take (payload ∷ rest) f idle shape = rw (idle, shape) refl

  queue-turn :
      (p : Option E) (f : Forwarder E) → f.pending ≡ p → queue (turn unmarshal p f) ≡ queue f
  queue-turn (some event) f there = queue-send event f there
  queue-turn none f idle = queue-take f.inbox f idle refl

  queue-turns : (f : Forwarder E) → queue (forward unmarshal ForwardStep.turns f) ≡ queue f
  unfolding forward
  queue-turns f = elim (Bool-cases f.returned) [
    | inl done ↦ ap queue (if_true f.returned f (turn unmarshal f.pending f) done)
    | inr on ↦
        ap queue (if_false f.returned f (turn unmarshal f.pending f) on)
        ∙ queue-turn f.pending f refl
  ]

  -- A receive takes the front of the buffer, if there is one.
  received-front :
      (events : List E) (ch : Channel E)
      → ch.buffer ≡ events
      → in_front (item_of (receive_from events ch).0) (receive_from events ch).1.buffer ≡ ch.buffer
  unfolding receive_from
  received-front [] ch shape =
      Holds-if (λ r. in_front (item_of r) ch.buffer ≡ ch.buffer) ch.shut refl refl
  received-front (event ∷ events) ch shape = sym shape

  queue-takes :
      (f : Forwarder E)
      → in_front (item_of (receive f.out).0) (queue (forward unmarshal ForwardStep.takes f))
        ≡ queue f
  unfolding forward receive
  queue-takes f =
      let r = receive f.out in
      sym (in_front-append (item_of r.0) r.1.buffer (unsent f))
      ∙ ap (λ (es : List E). es ++ unsent f) (received-front f.out.buffer f.out refl)

  queue-arrives :
      (payload : String) (f : Forwarder E)
      → queue (record f { inbox = f.inbox ++ payload ∷ [] }) ≡ queue f ++ decodable (payload ∷ [])
  queue-arrives payload f =
      ap (λ (es : List E). f.out.buffer ++ in_front f.pending es)
        (decodable-append f.inbox (payload ∷ []))
      ∙ ap (λ (es : List E). f.out.buffer ++ es)
          (sym (in_front-append f.pending (decodable f.inbox) (decodable (payload ∷ []))))
      ∙ sym (append_assoc f.out.buffer (unsent f) (decodable (payload ∷ [])))

  -- Once the goroutine has returned, nothing more comes onto the subscriber's channel.
  run-returned :
      (ss : List ForwardStep) (f : Forwarder E)
      → f.returned ≡ true
      → taken ss f ++ (run ss f).out.buffer ≡ f.out.buffer
  unfolding taken run forward receive
  run-returned [] f h = refl
  run-returned (ForwardStep.arrives payload ∷ ss) f h =
      Holds-if (λ g. taken ss g ++ (run ss g).out.buffer ≡ f.out.buffer) f.inbox_closed
        (run-returned ss f h) (run-returned ss (record f { inbox = f.inbox ++ payload ∷ [] }) h)
  run-returned (ForwardStep.ends ∷ ss) f h = run-returned ss (record f { inbox_closed = true }) h
  run-returned (ForwardStep.turns ∷ ss) f h =
      subst (λ g. taken ss g ++ (run ss g).out.buffer ≡ f.out.buffer)
        (sym (if_true f.returned f (turn unmarshal f.pending f) h)) (run-returned ss f h)
  run-returned (ForwardStep.gives_up ∷ ss) f h =
      subst (λ g. taken ss g ++ (run ss g).out.buffer ≡ f.out.buffer)
        (sym (if_true f.returned f (finish f) h)) (run-returned ss f h)
  run-returned (ForwardStep.takes ∷ ss) f h =
      let r = receive f.out in
      let f' = record f { out = r.1 } in
      in_front-append (item_of r.0) (taken ss f') (run ss f').out.buffer
      ∙ ap (in_front (item_of r.0)) (run-returned ss f' h)
      ∙ received-front f.out.buffer f.out refl

  -- No step is the case `ctx.Done()`.
  abbrev pub IsGoing : List ForwardStep → Type 0
  IsGoing [] = Unit
  IsGoing (ForwardStep.gives_up ∷ ss) = ⊥
  IsGoing (s ∷ ss) = IsGoing ss

  -- What has come out, what waits on the channel and a rest are what was to come.
  abbrev InOrder : List ForwardStep → Forwarder E → Type 0
  InOrder ss f =
      (rest : List E) × (taken ss f ++ (run ss f).out.buffer ++ rest
        ≡ queue f ++ decodable (arrived ss f))
      × (IsGoing ss → rest ≡ unsent (run ss f))

  queue-arrival :
      (payload : String) (f : Forwarder E) (later : List String)
      → queue (forward unmarshal (ForwardStep.arrives payload) f) ++ decodable later
        ≡ queue f ++ decodable (if f.inbox_closed then later else payload ∷ later)
  unfolding forward
  queue-arrival payload f later =
      let f' = record f { inbox = f.inbox ++ payload ∷ [] } in
      elim (Bool-cases f.inbox_closed) [
        | inl ended ↦
            ap (λ g. queue g ++ decodable later) (if_true f.inbox_closed f f' ended)
            ∙ ap (λ l. queue f ++ decodable l)
                (sym (if_true f.inbox_closed later (payload ∷ later) ended))
        | inr more ↦
            ap (λ g. queue g ++ decodable later) (if_false f.inbox_closed f f' more)
            ∙ ap (λ (es : List E). es ++ decodable later) (queue-arrives payload f)
            ∙ append_assoc (queue f) (decodable (payload ∷ [])) (decodable later)
            ∙ ap (λ (es : List E). queue f ++ es) (sym (decodable-append (payload ∷ []) later))
            ∙ ap (λ l. queue f ++ decodable l)
                (sym (if_false f.inbox_closed later (payload ∷ later) more))
      ]

  finish-InOrder :
      (ss : List ForwardStep) (f : Forwarder E)
      → (rest : List E) × (taken ss (finish f) ++ (run ss (finish f)).out.buffer ++ rest
          ≡ queue f ++ decodable (arrived ss (finish f)))
  unfolding close_channel
  finish-InOrder ss f =
      let later = decodable (arrived ss (finish f)) in
      (
        unsent f ++ later,
        ap (λ (es : List E). es ++ (unsent f ++ later)) (run-returned ss (finish f) refl)
            ∙ sym (append_assoc f.out.buffer (unsent f) later),
      )

  run-InOrder : (ss : List ForwardStep) (f : Forwarder E) → InOrder ss f
  unfolding taken run arrived decodable forward
  run-InOrder [] f = (unsent f, sym (append-nil (queue f)), λ going. refl)
  run-InOrder (ForwardStep.arrives payload ∷ ss) f =
      let f' = forward unmarshal (ForwardStep.arrives payload) f in
      let (rest, order, going) = run-InOrder ss f' in
      (rest, order ∙ queue-arrival payload f (arrived ss f'), going)
  run-InOrder (ForwardStep.ends ∷ ss) f = run-InOrder ss (record f { inbox_closed = true })
  run-InOrder (ForwardStep.turns ∷ ss) f =
      let f' = forward unmarshal ForwardStep.turns f in
      let (rest, order, going) = run-InOrder ss f' in
      (rest, order ∙ ap (λ (es : List E). es ++ decodable (arrived ss f')) (queue-turns f), going)
  run-InOrder (ForwardStep.gives_up ∷ ss) f =
      let Fine : Forwarder E → Type 0 = λ g.
        (rest : List E) × (taken ss g ++ (run ss g).out.buffer ++ rest
          ≡ queue f ++ decodable (arrived ss g)) in
      let (rest, order) : Fine (forward unmarshal ForwardStep.gives_up f) =
        elim (Bool-cases f.returned) [
          | inl done ↦
              let (rest, order, _) = run-InOrder ss f in
              subst Fine (sym (if_true f.returned f (finish f) done)) (rest, order)
          | inr on ↦ subst Fine (sym (if_false f.returned f (finish f) on)) (finish-InOrder ss f)
        ] in
      (rest, order, λ going. elim going [ ])
  run-InOrder (ForwardStep.takes ∷ ss) f =
      let f' = forward unmarshal ForwardStep.takes f in
      let (rest, order, going) = run-InOrder ss f' in
      let item = item_of (receive f.out).0 in
      let sent = (run ss f').out.buffer in
      (
        rest,
        ap (λ (es : List E). es ++ rest) (in_front-append item (taken ss f') sent)
            ∙ in_front-append item (taken ss f' ++ sent) rest
            ∙ ap (in_front item) order
            ∙ sym (in_front-append item (queue f') (decodable (arrived ss f')))
            ∙ ap (λ (es : List E). es ++ decodable (arrived ss f')) (queue-takes f),
        going,
      )

  -- After any steps in any order, the events that the subscriber has got, then those on its channel, are
  -- the first of the events of the messages that arrived, in their order and each once, where messages
  -- that cannot be decoded are left out. Unless the context ended, what is missing of them is the one
  -- event that waits to be sent and those of the messages that the goroutine has not taken.
  pub forwards_in_order :
      (buffer_size : ℕ) (ss : List ForwardStep)
      → let f : Forwarder E = new_forwarder buffer_size in
        (rest : List E) × (taken ss f ++ (run ss f).out.buffer ++ rest ≡ decodable (arrived ss f))
        × (IsGoing ss → rest ≡ unsent (run ss f))
  forwards_in_order buffer_size ss =
      unfold new_forwarder make_channel decodable in run-InOrder ss (new_forwarder buffer_size)

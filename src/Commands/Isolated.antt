-- ===== src/Commands/Isolated.antt =====
-- The commands that run one module alone: nothing of one reaches another.
use sentinel_flow_event_driv.Base.{
  ℕ, ◌≡◌, refl, ap, ◌∙◌, String, false, Option, none, some, List, [], ◌∷◌, map,
}
use sentinel_flow_event_driv.Base.Word.{Time}
use sentinel_flow_event_driv.Events.{TrackingEvent}
use sentinel_flow_event_driv.Broker.{InMemoryBroker, new_in_memory_broker, publish_raw}
use sentinel_flow_event_driv.Broker.Subscription.{Context, offer_all}
use sentinel_flow_event_driv.Ports.{Fallible, CrmContact}
use sentinel_flow_event_driv.Ingest.Handler.{
  handle_ingest, ingest_decoded, accept_event, after_publish,
}
use sentinel_flow_event_driv.Ingest.Handler.Gate.{handle_ingest-Holds}
use sentinel_flow_event_driv.Cluster.{Cluster, new_cluster, broker_port, tracker_port, step, run}
use sentinel_flow_event_driv.Cluster.Wired.{stamped_consent, published}
use sentinel_flow_event_driv.Simulator.Queue.{Passes}
use sentinel_flow_event_driv.Commands.{ingest_main, post_step}

abbrev deaf : InMemoryBroker
deaf = record { raw_subs = []; screened_subs = []; closed = false; buffer_size = 10000 }

publish_deaf :
    (ctx : Context) (event : TrackingEvent) (b : InMemoryBroker)
    → b ≡ deaf
    → publish_raw ctx event b ≡ (none, deaf)
unfolding publish_raw offer_all
publish_deaf ctx event b e = rw e refl

module _ {C : Type 0} where
  abbrev IsDeaf : Cluster C → Type 0
  IsDeaf w = w.broker ≡ deaf

  ingest-IsDeaf :
      (ctx : Context) (now : Time) (method : String) (decoded : Option TrackingEvent)
      (w : Cluster C)
      → IsDeaf w
      → IsDeaf (handle_ingest broker_port tracker_port ctx now method decoded w).1
  ingest-IsDeaf =
      handle_ingest-Holds broker_port tracker_port IsDeaf (λ w h. h)
        (λ ctx event w clean h. ap (λ p. p.1) (publish_deaf ctx event w.broker h))

  accepts :
      (ctx : Context) (now : Time) (event : TrackingEvent) (w : Cluster C)
      → Passes event
      → IsDeaf w
      → (handle_ingest broker_port tracker_port ctx now "POST" (some event) w).0.status_code ≡ 202
  unfolding handle_ingest ingest_decoded accept_event after_publish
  accepts ctx now event w (full, consent) h =
      rw
        (
          full,
          stamped_consent now event ∙ consent,
          publish_deaf ctx (published now event) w.broker h,
        )
        refl

module _ {C : Type 0} (crm : CrmContact → C → Fallible Unit × C) (table : ℕ → ℕ)
    (sha256_hex : String → String) where
  run-IsDeaf :
      (requests : List (Context × Time × String × Option TrackingEvent)) (w : Cluster C)
      → IsDeaf w
      → IsDeaf (run crm table sha256_hex (map post_step requests) w)
  unfolding run step post_step
  run-IsDeaf [] w h = h
  run-IsDeaf ((ctx, now, method, decoded) ∷ requests) w h =
      run-IsDeaf requests _ (ingest-IsDeaf ctx now method decoded w h)

  -- The ingest gateway on its own, after any requests: an event that passes the handler's checks is
  -- answered 202 (its body says that the event is queued for screening), but the broker has no
  -- subscriber, and is afterwards what it was at the start: the event is in no queue.
  pub ingest_queues_for_nobody :
      (start now : Time) (c : C) (ctx : Context)
      (requests : List (Context × Time × String × Option TrackingEvent)) (event : TrackingEvent)
      → Passes event
      → let w = run crm table sha256_hex (map post_step requests) (ingest_main start c) in
        let (reply, w') = handle_ingest broker_port tracker_port ctx now "POST" (some event) w in
        (reply.status_code ≡ 202) × (w'.broker ≡ new_in_memory_broker 10000)
  unfolding new_in_memory_broker ingest_main new_cluster
  ingest_queues_for_nobody start now c ctx requests event passes =
      let w = run crm table sha256_hex (map post_step requests) (ingest_main start c) in
      let h = run-IsDeaf requests (ingest_main start c) refl in
      (accepts ctx now event w passes h, ingest-IsDeaf ctx now "POST" (some event) w h)

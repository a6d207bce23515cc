-- ===== src/Simulator/Session.antt =====
-- scripts/simulator/main.go: the pings, the posting of an event, and the run of the simulator against
-- the modules in memory. `wire` is what encoding/json makes of an event on its way to the server's
-- decoder; the network itself loses nothing here.
use sentinel_flow_event_driv.Base.{ℕ, String, Option, none, List, [], ◌∷◌, ◌++◌}
use sentinel_flow_event_driv.Base.Word.{Time}
use sentinel_flow_event_driv.Events.{TrackingEvent}
use sentinel_flow_event_driv.Broker.Subscription.{Context}
use sentinel_flow_event_driv.Ports.{Fallible, ok, err}
use sentinel_flow_event_driv.Http.{Reply}
use sentinel_flow_event_driv.Redis.{ping_rounds}
use sentinel_flow_event_driv.Ingest.Handler.{handle_ingest}
use sentinel_flow_event_driv.Cluster.{Cluster, broker_port, tracker_port}
use sentinel_flow_event_driv.Simulator.{legit_traffic}
use sentinel_flow_event_driv.Simulator.Attacks.{
  bot_traffic, burst_traffic, departure, landing, compliance_event,
}

-- `pingCluster`: the same loop as the Redis broker's, of five rounds.
unfoldable pub ping_cluster : (ℕ → Option String) → Option String
ping_cluster pings = ping_rounds pings 5 0 none

-- The code that `postEvent` returns, by what `client.Do` does.
unfoldable pub post_event : Fallible (Reply String) → ℕ
post_event (err _) = 500
post_event (ok resp) = resp.status_code

-- The events of `main`, with a clock for each part; those of the legitimate traffic are posted by
-- goroutines of their own, which may come in another order.
unfoldable pub traffic : (ℕ → ℕ → Time) → List TrackingEvent
traffic clock =
    legit_traffic (clock 0)
    ++ bot_traffic (clock 1)
    ++ burst_traffic (clock 2)
    ++ departure (clock 3 0) ∷ landing (clock 3 1) ∷ compliance_event (clock 4 0) ∷ []

module _ {C : Type 0} (wire : TrackingEvent → Option TrackingEvent) (ctx : Context)
    (now : Time) where
  -- The posts one after another: the codes, and the cluster.
  unfoldable pub post_all : List TrackingEvent → Cluster C → List ℕ × Cluster C
  unfolding post_event
  post_all [] w = ([], w)
  post_all (event ∷ events) w =
      let (reply, w') = handle_ingest broker_port tracker_port ctx now "POST" (wire event) w in
      let (codes, w'') = post_all events w' in (post_event (ok reply) ∷ codes, w'')

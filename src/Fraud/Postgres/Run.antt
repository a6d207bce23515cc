-- ===== src/Fraud/Postgres/Run.antt =====
-- Runs of calls of the Postgres repository, whose failures may fall anywhere.
use mathlib.Core.List.{Permᴰ}
use sentinel_flow_event_driv.Base.{
  ◌≡◌, ap, ◌∙◌, inl, inr, String, Bool, true, false, not, none, List, [], ◌∷◌, map, if◌then◌else◌,
  Holds-if,
}
use sentinel_flow_event_driv.Base.Lists.{All, All-append}
use sentinel_flow_event_driv.Base.Orders.{keep, drop_if, any, keep-map, All-keep}
use sentinel_flow_event_driv.Events.{ScreenedEvent}
use sentinel_flow_event_driv.Ports.{Fallible, ok, err}
use sentinel_flow_event_driv.Database.{SqlValue, Rows, Database}
use sentinel_flow_event_driv.Fraud.Postgres.{
  Codec, select_events, save_event, get_events_by_user_id, delete_user_events,
}
use sentinel_flow_event_driv.Fraud.Postgres.Server.{ServesEvents, Tables, NewestFirst, is_of_user}
use sentinel_flow_event_driv.Fraud.Postgres.Log.{
  ReadsBack, Holds, add, is_same, is_of, as_kept, LegibleLog, row_of, save-Holds, get-Holds,
}
use sentinel_flow_event_driv.Fraud.Postgres.Purge.{delete_is_atomic}

pub data Call : Type 0 where
  saves : ScreenedEvent → Call
  purges : String → Call

abbrev is_done : {A : Type 0} → Fallible A → Bool
is_done (ok _) = true
is_done (err _) = false

-- What a call means for the plain log of events, where an event is kept in the form that is given.
abbrev on_log : (ScreenedEvent → ScreenedEvent) → Call → List ScreenedEvent → List ScreenedEvent
on_log kept (Call.saves event) log = add (kept event) log
on_log kept (Call.purges user_id) log = drop_if (is_of user_id) log

module _ {W : Type 0} (db : Database W) (codec : Codec) where
  -- A call's state afterwards, and whether it returned no error.
  abbrev call : Call → W → Bool × W
  call (Call.saves event) w = let r = save_event db codec event w in (is_done r.0, r.1)
  call (Call.purges user_id) w = let r = delete_user_events db user_id w in (is_done r.0, r.1)

  unfoldable pub runs : List Call → W → W
  runs [] w = w
  runs (c ∷ cs) w = runs cs (call c w).1

  -- The log after the calls of a run that returned no error.
  unfoldable pub log_of :
      (ScreenedEvent → ScreenedEvent) → List Call → W → List ScreenedEvent → List ScreenedEvent
  log_of kept [] w log = log
  log_of kept (c ∷ cs) w log =
      let r = call c w in log_of kept cs r.1 (if r.0 then on_log kept c log else log)

  module _ (server : ServesEvents db) where
    -- The events that a call or a log has are read back as they were written.
    abbrev pub Legible : Call → Type 0
    Legible (Call.saves event) = ReadsBack db codec server event.payload
    Legible (Call.purges user_id) = Unit

    purge-Holds :
        (user_id : String) (log : List ScreenedEvent) (t : Tables)
        → t.events ≡ map (row_of db codec server) log
        → drop_if (is_of_user user_id) t.events
          ≡ map (row_of db codec server) (drop_if (is_of user_id) log)
    purge-Holds user_id log t there =
        ap (drop_if (is_of_user user_id)) there
        ∙ keep-map (row_of db codec server) (λ row. not (is_of_user user_id row)) log

    call-Holds :
        (c : Call) (log : List ScreenedEvent) (w : W)
        → Legible c
        → Holds db codec server w log
        → Holds db codec server
            (call c w).1
            (if (call c w).0 then on_log (as_kept db codec server) c log else log)
    call-Holds (Call.saves event) log w h there =
        elim (save-Holds db codec server event log w h there) [
          | inl (good, now) ↦ rw good now
          | inr ((e, bad), now) ↦ rw bad now
        ]
    call-Holds (Call.purges user_id) log w h there = elim (delete_is_atomic db server user_id w) [
      | inl (good, now) ↦
          rw good
            (ap (λ (t : Tables). t.events) now ∙ purge-Holds user_id log (server.tables w) there)
      | inr ((e, bad), now) ↦ rw bad (ap (λ (t : Tables). t.events) now ∙ there)
    ]

    on_log-Legible :
        (c : Call) (log : List ScreenedEvent)
        → Legible c
        → LegibleLog db codec server log
        → LegibleLog db codec server (on_log (as_kept db codec server) c log)
    on_log-Legible (Call.saves event) log h hs =
        Holds-if (LegibleLog db codec server) (any (is_same event) log) hs (
          All-append (λ e. ReadsBack db codec server e.payload) log
            (as_kept db codec server event ∷ []) hs (h, tt))
    on_log-Legible (Call.purges user_id) log h hs =
        All-keep (λ e. ReadsBack db codec server e.payload) (λ event. not (is_of user_id event)) log
          hs

    runs-Holds :
        (cs : List Call) (w : W) (log : List ScreenedEvent)
        → All Legible cs
        → Holds db codec server w log
        → LegibleLog db codec server log
        → Holds db codec server (runs cs w) (log_of (as_kept db codec server) cs w log)
          × LegibleLog db codec server (log_of (as_kept db codec server) cs w log)
    unfolding runs log_of
    runs-Holds [] w log h there hs = (there, hs)
    runs-Holds (c ∷ cs) w log h there hs =
        let next = if (call c w).0 then on_log (as_kept db codec server) c log else log in
        runs-Holds cs (call c w).1 next h.1 (call-Holds c log w h.0 there)
          (Holds-if (LegibleLog db codec server) (call c w).0 (on_log-Legible c log h.0 hs) hs)

    -- After any run of saves and purges on an empty table, wherever calls failed, a query that does not
    -- fail itself, and whose rows are read to their end, gives the user's events of the plain log, each
    -- once and the newest first. The plain log is the one to which a save without an error adds its event
    -- with its instants as the server keeps them, unless its id is there, and from which a purge without
    -- an error takes the user's events. The condition on the run is that the payload of each event that
    -- is saved can be marshalled to JSON, that its jsonb column is not empty, and that the payload is the
    -- same when this column is read back and decoded.
    pub postgres-log :
        (cs : List Call) (user_id : String) (w : W) (rows : Rows)
        → (server.tables w).events ≡ []
        → All Legible cs
        → db.query select_events (SqlValue.text user_id ∷ []) (runs cs w) ≡ ok rows
        → rows.failure ≡ none
        → (events : List ScreenedEvent) × (get_events_by_user_id db codec user_id (runs cs w)
            ≡ ok events)
          × Permᴰ events (keep (is_of user_id) (log_of (as_kept db codec server) cs w []))
          × NewestFirst (map (λ e. e.timestamp) events)
    postgres-log cs user_id w rows empty h found whole =
        let (there, hs) = runs-Holds cs w [] h empty tt in
        get-Holds db codec server user_id (log_of (as_kept db codec server) cs w []) (runs cs w)
          rows there hs found whole

-- ===== src/Fraud/Postgres/Log.antt =====
-- The Postgres repository of events, against the plain log of the events saved.
use sentinel_flow_event_driv.Base.{
  ◌≡◌, ◌≢◌, ◌⊎◌, refl, sym, ap, ◌∙◌, inl, inr, String, Bool, Option, none, List, [], ◌∷◌, ◌++◌, map,
  str_eq, str_eq-ne, if◌then◌else◌, Bool-cases,
}
use mathlib.Core.Path.{subst}
use mathlib.Core.List.{Permᴰ, map-append}
use sentinel_flow_event_driv.Base.Lists.{All}
use sentinel_flow_event_driv.Base.Orders.{
  keep, any, All-keep, All-perm, keep-map, any-map, perm-of-map,
}
use sentinel_flow_event_driv.Base.Word.{Time}
use sentinel_flow_event_driv.Base.Dict.{Dict}
use sentinel_flow_event_driv.Events.{Value, ScreenedEvent}
use sentinel_flow_event_driv.Ports.{Fallible, ok, err, Fallible-cases}
use sentinel_flow_event_driv.Database.{SqlValue, SqlRow, Rows, Database, only_error}
use sentinel_flow_event_driv.Fraud.Postgres.{
  Codec, insert_event, select_events, columns, scan_event, read_event, read_events, save_event,
  get_events_by_user_id,
}
use sentinel_flow_event_driv.Fraud.Postgres.Server.{
  ServesEvents, Tables, has_id, is_of_user, insert_row, timestamp_of, NewestFirst,
}

abbrev pub or_no_bytes : Fallible String → String
or_no_bytes (ok bytes) = bytes
or_no_bytes (err _) = ""

-- The specification: an event is added unless its id is there; a purge drops a user's events.
abbrev pub is_same : ScreenedEvent → ScreenedEvent → Bool
is_same event other = str_eq other.event_id event.event_id

abbrev pub is_of : String → ScreenedEvent → Bool
is_of user_id event = str_eq event.user_id user_id

abbrev pub add : ScreenedEvent → List ScreenedEvent → List ScreenedEvent
add event log = if any (is_same event) log then log else log ++ event ∷ []

module _ {W : Type 0} (db : Database W) (codec : Codec) (server : ServesEvents db) where
  -- The row of an event.
  abbrev pub row_of : ScreenedEvent → SqlRow
  row_of event = columns event (server.jsonb (or_no_bytes (codec.marshal event.payload)))

  -- The payload is marshalled, and what the server keeps of it is read back as it was.
  pub record ReadsBack (payload : Dict Value) : Type 0 where
    pub marshals : (bytes : String) × (codec.marshal payload ≡ ok bytes)
    pub unmarshals :
        codec.unmarshal (server.jsonb (or_no_bytes (codec.marshal payload))) ≡ ok payload
    pub has_bytes : server.jsonb (or_no_bytes (codec.marshal payload)) ≢ ""

  -- Every event of a log has such a payload.
  abbrev pub LegibleLog : List ScreenedEvent → Type 0
  LegibleLog = All (λ event. ReadsBack event.payload)

  -- The event with its instants as the server keeps them.
  abbrev pub as_kept : ScreenedEvent → ScreenedEvent
  as_kept event = record event {
    tracking_event = record event.tracking_event { timestamp = server.kept_time event.timestamp };
    screened_at = server.kept_time event.screened_at;
  }

  -- The table of events holds the log.
  abbrev pub Holds : W → List ScreenedEvent → Type 0
  Holds w log = (server.tables w).events ≡ map row_of log

  insert-row_of :
      (event : ScreenedEvent) (log : List ScreenedEvent)
      → insert_row (row_of event) (map row_of log) ≡ map row_of (add event log)
  insert-row_of event log =
      let found : any (has_id (SqlValue.text event.event_id)) (map row_of log)
          ≡ any (is_same event) log =
        any-map row_of (has_id (SqlValue.text event.event_id)) log in
      elim (Bool-cases (any (is_same event) log)) [
        | inl known ↦ rw (found, known) refl
        | inr new ↦ rw (found, new) (sym (map-append row_of log (event ∷ [])))
      ]

  read-row_of :
      (event : ScreenedEvent)
      → ReadsBack event.payload
      → read_event codec (scan_event (row_of event)) ≡ ok event
  unfolding read_event scan_event
  read-row_of event h = rw (str_eq-ne _ "" h.has_bytes, h.unmarshals)

  read_events-cons :
      (row : SqlRow) (rows : List SqlRow) {event : ScreenedEvent} {events : List ScreenedEvent}
      → read_event codec (scan_event row) ≡ ok event
      → read_events codec none rows ≡ ok events
      → read_events codec none (row ∷ rows) ≡ ok (event ∷ events)
  unfolding read_events
  read_events-cons row rows h r = rw (h, r, read_events) refl

  read-log :
      (log : List ScreenedEvent) → LegibleLog log → read_events codec none (map row_of log) ≡ ok log
  read-log [] h = unfold read_events in refl
  read-log (event ∷ log) h =
      read_events-cons (row_of event) (map row_of log) (read-row_of event h.0) (read-log log h.1)

  -- The insertion, by its two outcomes.
  insert-Holds :
      (event : ScreenedEvent) (log : List ScreenedEvent) (w : W)
      → Holds w log
      → let r =
          only_error
            (db.exec insert_event (columns event (or_no_bytes (codec.marshal event.payload))) w) in
        (r.0 ≡ ok tt) × Holds r.1 (add (as_kept event) log)
        ⊎ ((e : String) × (r.0 ≡ err e)) × Holds r.1 log
  insert-Holds event log w there =
      let row = columns event (or_no_bytes (codec.marshal event.payload)) in
      elim (Fallible-cases (db.exec insert_event row w).0) [
        | inl (n, good) ↦ inl (
          rw (good, only_error) refl,
          rw (good, only_error)
              (ap (λ (t : Tables). t.events) (server.insert_ok row w n good)
                ∙ ap (insert_row (row_of (as_kept event))) there
                ∙ insert-row_of (as_kept event) log),
        )
        | inr (e, bad) ↦ inr (
          (e, rw (bad, only_error) refl),
          rw (bad, only_error)
              (ap (λ (t : Tables). t.events) (server.insert_err row w e bad) ∙ there),
        )
      ]

  save_opened :
      (event : ScreenedEvent) (w : W) {bytes : String}
      → codec.marshal event.payload ≡ ok bytes
      → save_event db codec event w
        ≡ only_error
            (db.exec insert_event (columns event (or_no_bytes (codec.marshal event.payload))) w)
  unfolding save_event
  save_opened event w m = rw (m, save_event) refl

  -- A save with no error adds the event to the log; with an error nothing changes.
  pub save-Holds :
      (event : ScreenedEvent) (log : List ScreenedEvent) (w : W)
      → ReadsBack event.payload
      → Holds w log
      → let r = save_event db codec event w in
        (r.0 ≡ ok tt) × Holds r.1 (add (as_kept event) log)
        ⊎ ((e : String) × (r.0 ≡ err e)) × Holds r.1 log
  save-Holds event log w h there =
      rw (save_opened event w h.marshals.1) (insert-Holds event log w there)

  map-timestamps :
      (log : List ScreenedEvent) → map timestamp_of (map row_of log) ≡ map (λ e. e.timestamp) log
  map-timestamps [] = refl
  map-timestamps (event ∷ log) = ap (λ (ts : List Time). event.timestamp ∷ ts) (map-timestamps log)

  read_events_of :
      (rows : List SqlRow) (kept : List ScreenedEvent)
      → LegibleLog kept
      → Permᴰ rows (map row_of kept)
      → NewestFirst (map timestamp_of rows)
      → (events : List ScreenedEvent) × (read_events codec none rows ≡ ok events)
        × Permᴰ events kept
        × NewestFirst (map (λ e. e.timestamp) events)
  read_events_of rows kept h perm newest =
      let (events, front, perm') = perm-of-map row_of perm kept refl in
      let times : map timestamp_of rows ≡ map (λ e. e.timestamp) events =
        ap (map timestamp_of) front ∙ map-timestamps events in
      (
        events,
        ap (read_events codec none) front
            ∙ read-log events (All-perm (λ e. ReadsBack e.payload) perm' h),
        perm',
        subst NewestFirst times newest,
      )

  get_opened :
      (user_id : String) (w : W) (rows : Rows)
      → db.query select_events (SqlValue.text user_id ∷ []) w ≡ ok rows
      → rows.failure ≡ none
      → get_events_by_user_id db codec user_id w ≡ read_events codec none rows.all
  unfolding get_events_by_user_id
  get_opened user_id w rows found whole =
      rw (found, get_events_by_user_id)
        (ap (λ (f : Option String). read_events codec f rows.all) whole)

  -- Where the query does not fail, the events of the user are read, the newest first.
  pub get-Holds :
      (user_id : String) (log : List ScreenedEvent) (w : W) (rows : Rows)
      → Holds w log
      → LegibleLog log
      → db.query select_events (SqlValue.text user_id ∷ []) w ≡ ok rows
      → rows.failure ≡ none
      → (events : List ScreenedEvent) × (get_events_by_user_id db codec user_id w ≡ ok events)
        × Permᴰ events (keep (is_of user_id) log)
        × NewestFirst (map (λ e. e.timestamp) events)
  get-Holds user_id log w rows there h found whole =
      let (perm, newest) = server.select_ok user_id w rows found whole in
      let kept : keep (is_of_user user_id) (server.tables w).events
          ≡ map row_of (keep (is_of user_id) log) =
        ap (keep (is_of_user user_id)) there ∙ keep-map row_of (is_of_user user_id) log in
      let (events, read, perm', newest') =
        read_events_of rows.all (keep (is_of user_id) log)
          (All-keep (λ e. ReadsBack e.payload) (is_of user_id) log h)
          (subst (Permᴰ rows.all) kept perm) newest in
      (events, get_opened user_id w rows found whole ∙ read, perm', newest')

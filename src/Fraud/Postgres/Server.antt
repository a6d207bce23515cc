-- ===== src/Fraud/Postgres/Server.antt =====
-- What the statements of pkg/domain/fraud/postgres.go rely on of the server, by the documentation of
-- PostgreSQL and the schema in pkg/db/migrations/0001_init.sql.
use sentinel_flow_event_driv.Base.{
  ℕ, ◌≤◌, ◌≡◌, ◌⊎◌, String, Bool, false, none, List, [], ◌∷◌, ◌++◌, map, str_eq, if◌then◌else◌,
}
use mathlib.Core.List.{Permᴰ}
use sentinel_flow_event_driv.Base.Lists.{length}
use sentinel_flow_event_driv.Base.Orders.{keep, drop_if, any}
use sentinel_flow_event_driv.Base.Word.{Time}
use sentinel_flow_event_driv.Ports.{ok, err}
use sentinel_flow_event_driv.Database.{SqlValue, SqlRow, Rows, Database}
use sentinel_flow_event_driv.Fraud.Postgres.{
  insert_event, select_events, delete_events, delete_contacts,
}

-- A column that holds a text.
abbrev pub is_text : String → SqlValue → Bool
is_text s (SqlValue.text t) = str_eq t s
is_text s _ = false

-- `event_id = $1` and `user_id = $1` of the table of events, and `user_id = $1` of the contacts'.
abbrev pub has_id : SqlValue → SqlRow → Bool
has_id (SqlValue.text event_id) (c ∷ cs) = is_text event_id c
has_id _ _ = false

abbrev pub is_of_user : String → SqlRow → Bool
is_of_user user_id (c ∷ c' ∷ cs) = is_text user_id c'
is_of_user user_id _ = false

abbrev pub is_contact_of : String → SqlRow → Bool
is_contact_of user_id (c ∷ cs) = is_text user_id c
is_contact_of user_id _ = false

-- The column `timestamp`.
abbrev pub timestamp_of : SqlRow → Time
timestamp_of (_ ∷ _ ∷ _ ∷ _ ∷ _ ∷ _ ∷ SqlValue.instant t ∷ _) = t
timestamp_of _ = 0

-- `ORDER BY timestamp DESC`
abbrev pub NewestFirst : List Time → Type 0
NewestFirst [] = Unit
NewestFirst (t ∷ []) = Unit
NewestFirst (t ∷ t' ∷ ts) = (t' ≤ t) × NewestFirst (t' ∷ ts)

pub record Tables : Type 0 where
  pub events : List SqlRow
  pub contacts : List SqlRow

-- What is kept of a value.
abbrev pub stored : (String → String) → (Time → Time) → SqlValue → SqlValue
stored jsonb kept_time (SqlValue.json s) = SqlValue.json (jsonb s)
stored jsonb kept_time (SqlValue.instant t) = SqlValue.instant (kept_time t)
stored jsonb kept_time v = v

-- A row is inserted unless its key is there.
abbrev pub insert_row : SqlRow → List SqlRow → List SqlRow
insert_row [] rows = rows
insert_row (key ∷ cs) rows = if any (has_id key) rows then rows else rows ++ (key ∷ cs) ∷ []

module _ {W : Type 0} (db : Database W) where
  -- A statement takes effect whole or, with an error, not at all; so does a transaction, whose
  -- statements act on its own view of the tables until it is committed. `jsonb` is the form in which
  -- a JSON text is kept, and `kept_time` an instant, of which only whole microseconds are.
  -- The errors are the server's: one that only tells that its answer was lost, after which a commit or an
  -- insertion may have taken effect, is left out.
  pub record ServesEvents : Type 0 where
    pub tables : W → Tables
    pub view : W → Tables
    pub jsonb : String → String
    pub kept_time : Time → Time
    pub insert_ok :
        (row : SqlRow) (w : W) (n : ℕ)
        → (db.exec insert_event row w).0 ≡ ok n
        → tables (db.exec insert_event row w).1 ≡ record (tables w) {
          events = insert_row (map (stored jsonb kept_time) row) (tables w).events;
        }
    pub insert_err :
        (row : SqlRow) (w : W) (e : String)
        → (db.exec insert_event row w).0 ≡ err e
        → tables (db.exec insert_event row w).1 ≡ tables w
    pub select_ok :
        (user_id : String) (w : W) (rows : Rows)
        → db.query select_events (SqlValue.text user_id ∷ []) w ≡ ok rows
        → rows.failure ≡ none
        → Permᴰ rows.all (keep (is_of_user user_id) (tables w).events)
          × NewestFirst (map timestamp_of rows.all)
    pub begin_tables : (w : W) → tables (db.begin w).1 ≡ tables w
    pub begin_ok : (w : W) → (db.begin w).0 ≡ ok tt → view (db.begin w).1 ≡ tables w
    pub tx_tables :
        (statement : String) (args : List SqlValue) (w : W)
        → (statement ≡ delete_events) ⊎ (statement ≡ delete_contacts)
        → tables (db.tx_exec statement args w).1 ≡ tables w
    pub tx_events :
        (user_id : String) (w : W) (n : ℕ)
        → (db.tx_exec delete_events (SqlValue.text user_id ∷ []) w).0 ≡ ok n
        → (n ≡ length (keep (is_of_user user_id) (view w).events))
          × (view (db.tx_exec delete_events (SqlValue.text user_id ∷ []) w).1
              ≡ record (view w) { events = drop_if (is_of_user user_id) (view w).events })
    pub tx_contacts :
        (user_id : String) (w : W) (n : ℕ)
        → (db.tx_exec delete_contacts (SqlValue.text user_id ∷ []) w).0 ≡ ok n
        → (n ≡ length (keep (is_contact_of user_id) (view w).contacts))
          × (view (db.tx_exec delete_contacts (SqlValue.text user_id ∷ []) w).1
              ≡ record (view w) { contacts = drop_if (is_contact_of user_id) (view w).contacts })
    pub commit_ok : (w : W) → (db.commit w).0 ≡ ok tt → tables (db.commit w).1 ≡ view w
    pub commit_err :
        (w : W) (e : String) → (db.commit w).0 ≡ err e → tables (db.commit w).1 ≡ tables w
    pub rollback_tables : (w : W) → tables (db.rollback w) ≡ tables w

-- ===== src/Analytics/Postgres/Server.antt =====
-- What the statements of pkg/domain/analytics/postgres.go rely on of the server, by the documentation
-- of PostgreSQL and the schema in pkg/db/migrations/0001_init.sql.
use sentinel_flow_event_driv.Base.{
  ℕ, ◌≡◌, String, Bool, true, false, Option, none, some, [], ◌∷◌, str_eq, if◌then◌else◌,
}
use sentinel_flow_event_driv.Base.Lists.{All}
use sentinel_flow_event_driv.Base.Orders.{any}
use sentinel_flow_event_driv.Base.Word.{add64}
use sentinel_flow_event_driv.Ports.{ok, err}
use sentinel_flow_event_driv.Database.{SqlValue, SqlRow, Rows, Database}
use sentinel_flow_event_driv.Analytics.Postgres.{insert_metric, select_metrics}

abbrev pub or_zero : Option ℕ → ℕ
or_zero none = 0
or_zero (some n) = n

-- A row shows a counter of the table.
abbrev pub Shows : (String → Option ℕ) → SqlRow → Type 0
Shows counters row =
    (name : String) × (val : ℕ) × (row ≡ SqlValue.text name ∷ SqlValue.number val ∷ [])
    × (counters name ≡ some val)

abbrev pub is_named : String → SqlRow → Bool
is_named name (SqlValue.text s ∷ _) = str_eq s name
is_named name _ = false

module _ {W : Type 0} (db : Database W) where
  -- The names are the primary key, so that the table is a function of them. A sum that overflows is an
  -- error of the statement, and with an error nothing changes; without one the sum is the int64 sum.
  pub record ServesMetrics : Type 0 where
    pub counters : W → String → Option ℕ
    pub insert_ok :
        (name : String) (delta : ℕ) (w : W) (n : ℕ)
        → (db.exec insert_metric (SqlValue.text name ∷ SqlValue.number delta ∷ []) w).0 ≡ ok n
        → (read : String)
        → counters
            (db.exec insert_metric (SqlValue.text name ∷ SqlValue.number delta ∷ []) w).1
            read
          ≡ (if str_eq name read
              then some (add64 (or_zero (counters w name)) delta)
              else counters w read)
    pub insert_err :
        (name : String) (delta : ℕ) (w : W) (e : String)
        → (db.exec insert_metric (SqlValue.text name ∷ SqlValue.number delta ∷ []) w).0 ≡ err e
        → (read : String)
        → counters
            (db.exec insert_metric (SqlValue.text name ∷ SqlValue.number delta ∷ []) w).1
            read
          ≡ counters w read
    pub select_rows :
        (w : W) (rows : Rows)
        → db.query select_metrics [] w ≡ ok rows
        → All (Shows (counters w)) rows.all
    pub select_all :
        (w : W) (rows : Rows)
        → db.query select_metrics [] w ≡ ok rows
        → rows.failure ≡ none
        → (name : String) (val : ℕ) → counters w name ≡ some val
        → any (is_named name) rows.all ≡ true

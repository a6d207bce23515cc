-- ===== src/Monolith/Database/Server.antt =====
-- What the privacy endpoints rely on of a server beyond the statements on events: the statements of
-- pkg/domain/marketing/postgres.go on the same tables.
use sentinel_flow_event_driv.Base.{◌≡◌, ◌⊎◌, String, List, [], ◌∷◌}
use sentinel_flow_event_driv.Base.Orders.{keep, drop_if}
use sentinel_flow_event_driv.Ports.{ok}
use sentinel_flow_event_driv.Database.{SqlValue, Rows, Database}
use sentinel_flow_event_driv.Fraud.Postgres.Server.{ServesEvents, is_contact_of}
use sentinel_flow_event_driv.Marketing.Postgres.{delete_contact, insert_log, select_contact}

module _ {W : Type 0} (db : Database W) where
  -- A deletion of a contact takes effect whole or not at all, an entry of the audit log is in a table of
  -- its own, and a query of a user's contact gives no row of another user, also where it ends early.
  pub record ServesPrivacy : Type 0 where
    pub on_events : ServesEvents db
    pub delete_contact_tables :
        (user_id : String) (w : W)
        → let w' = (db.exec delete_contact (SqlValue.text user_id ∷ []) w).1 in
          (on_events.tables w' ≡ on_events.tables w)
          ⊎ (on_events.tables w' ≡ record (on_events.tables w) {
            contacts = drop_if (is_contact_of user_id) (on_events.tables w).contacts;
          })
    pub insert_log_tables :
        (args : List SqlValue) (w : W)
        → on_events.tables (db.exec insert_log args w).1 ≡ on_events.tables w
    pub select_contact_none :
        (user_id : String) (w : W) (rows : Rows)
        → db.query select_contact (SqlValue.text user_id ∷ []) w ≡ ok rows
        → keep (is_contact_of user_id) (on_events.tables w).contacts ≡ []
        → rows.all ≡ []

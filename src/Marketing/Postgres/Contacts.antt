-- ===== src/Marketing/Postgres/Contacts.antt =====
-- The contacts on Postgres, against the repository in memory. `ServesContacts` is what the statements
-- rely on of the server, by the documentation of PostgreSQL and pkg/db/migrations/0001_init.sql.
use mathlib.Core.Option as Option
use sentinel_flow_event_driv.Base.{
  ℕ, ◌≡◌, refl, sym, ap, ◌∙◌, String, Bool, true, false, Option, none, some, List, [], ◌∷◌, map,
  str_eq, if◌then◌else◌,
}
use sentinel_flow_event_driv.Base.Word.{Time}
use sentinel_flow_event_driv.Base.Dict.{lookup, lookup-insert, lookup-erase}
use sentinel_flow_event_driv.Ports.{Fallible, ok, err, CrmContact}
use sentinel_flow_event_driv.Database.{SqlValue, SqlRow, Rows, Database, only_error}
use sentinel_flow_event_driv.Marketing.Memory as Memory
use sentinel_flow_event_driv.Marketing.Memory.{
  MemoryMarketingRepository, new_memory_marketing_repository, or_not_found,
}
use sentinel_flow_event_driv.Marketing.Postgres.{
  insert_contact, select_contact, delete_contact, contact_columns, contact_or, first_row,
  save_crm_contact, get_crm_contact, delete_crm_contact,
}

-- What is kept of a value.
abbrev pub kept_value : (Time → Time) → SqlValue → SqlValue
kept_value kept_time (SqlValue.instant t) = SqlValue.instant (kept_time t)
kept_value kept_time v = v

abbrev pub rows_for : Option SqlRow → List SqlRow
rows_for none = []
rows_for (some row) = row ∷ []

module _ {W : Type 0} (db : Database W) where
  -- The user is the primary key, so that the table is a function of the users. A statement takes effect
  -- whole or, with an error, not at all; of an instant whole microseconds are kept.
  pub record ServesContacts : Type 0 where
    pub contacts : W → String → Option SqlRow
    pub kept_time : Time → Time
    pub insert_ok :
        (user_id : String) (cs : SqlRow) (w : W) (n : ℕ)
        → (db.exec insert_contact (SqlValue.text user_id ∷ cs) w).0 ≡ ok n
        → (read : String)
        → contacts (db.exec insert_contact (SqlValue.text user_id ∷ cs) w).1 read ≡ (
            if str_eq user_id read
            then some (SqlValue.text user_id ∷ map (kept_value kept_time) cs)
            else contacts w read)
    pub insert_err :
        (user_id : String) (cs : SqlRow) (w : W) (e : String)
        → (db.exec insert_contact (SqlValue.text user_id ∷ cs) w).0 ≡ err e
        → (read : String)
        → contacts (db.exec insert_contact (SqlValue.text user_id ∷ cs) w).1 read ≡ contacts w read
    pub delete_ok :
        (user_id : String) (w : W) (n : ℕ)
        → (db.exec delete_contact (SqlValue.text user_id ∷ []) w).0 ≡ ok n
        → (read : String)
        → contacts (db.exec delete_contact (SqlValue.text user_id ∷ []) w).1 read
          ≡ (if str_eq user_id read then none else contacts w read)
    pub delete_err :
        (user_id : String) (w : W) (e : String)
        → (db.exec delete_contact (SqlValue.text user_id ∷ []) w).0 ≡ err e
        → (read : String)
        → contacts (db.exec delete_contact (SqlValue.text user_id ∷ []) w).1 read ≡ contacts w read
    pub select_ok :
        (user_id : String) (w : W) (rows : Rows)
        → db.query select_contact (SqlValue.text user_id ∷ []) w ≡ ok rows
        → rows.failure ≡ none
        → rows.all ≡ rows_for (contacts w user_id)

pub data ContactCall : Type 0 where
  saves : CrmContact → ContactCall
  deletes : String → ContactCall

-- The calls on the repository in memory, where a contact is kept in the form that is given.
abbrev on_memory :
    (CrmContact → CrmContact) → ContactCall → MemoryMarketingRepository → MemoryMarketingRepository
on_memory kept (ContactCall.saves contact) m = Memory.save_crm_contact (kept contact) m
on_memory kept (ContactCall.deletes user_id) m = Memory.delete_crm_contact user_id m

abbrev unless_failed : {A : Type 0} → Fallible Unit → A → A → A
unless_failed (ok _) next same = next
unless_failed (err _) next same = same

abbrev row_of : Option CrmContact → Option SqlRow
row_of = Option.map contact_columns

over-if :
    {row row' : Option SqlRow} (entry entry' : Option CrmContact) (test : Bool)
    → row ≡ row_of entry
    → row' ≡ row_of entry'
    → (if test then row else row') ≡ row_of (if test then entry else entry')
over-if entry entry' true h h' = h
over-if entry entry' false h h' = h'

module _ {W : Type 0} (db : Database W) where
  abbrev call : ContactCall → W → Fallible Unit × W
  call (ContactCall.saves contact) w = save_crm_contact db contact w
  call (ContactCall.deletes user_id) w = delete_crm_contact db user_id w

  unfoldable pub calls_stored : List ContactCall → W → W
  calls_stored [] w = w
  calls_stored (c ∷ cs) w = calls_stored cs (call c w).1

  -- The repository in memory after the calls of a run that returned no error.
  unfoldable pub in_memory :
      (CrmContact → CrmContact)
      → List ContactCall
      → W
      → MemoryMarketingRepository
      → MemoryMarketingRepository
  in_memory kept [] w m = m
  in_memory kept (c ∷ cs) w m =
      let r = call c w in in_memory kept cs r.1 (unless_failed r.0 (on_memory kept c m) m)

  module _ (server : ServesContacts db) where
    abbrev pub as_kept : CrmContact → CrmContact
    as_kept contact = record contact { synced_at = server.kept_time contact.synced_at }

    -- The table and the contacts in memory are alike.
    abbrev Agrees : W → MemoryMarketingRepository → Type 0
    Agrees w m = (user_id : String) → server.contacts w user_id ≡ row_of (lookup user_id m.crm)

    -- By the two outcomes of a statement.
    settle :
        (r : Fallible ℕ × W) (m m' : MemoryMarketingRepository) (user_id : String)
        → ((n : ℕ) → r.0 ≡ ok n → server.contacts r.1 user_id ≡ row_of (lookup user_id m'.crm))
        → ((e : String) → r.0 ≡ err e → server.contacts r.1 user_id ≡ row_of (lookup user_id m.crm))
        → server.contacts (only_error r).1 user_id
          ≡ row_of (lookup user_id (unless_failed (only_error r).0 m' m).crm)
    settle (ok n, w) m m' user_id good bad = good n refl
    settle (err e, w) m m' user_id good bad = bad e refl

    call-Agrees :
        (c : ContactCall) (w : W) (m : MemoryMarketingRepository)
        → Agrees w m
        → Agrees (call c w).1 (unless_failed (call c w).0 (on_memory as_kept c m) m)
    unfolding save_crm_contact Memory.save_crm_contact delete_crm_contact Memory.delete_crm_contact
    call-Agrees (ContactCall.saves contact) w m h user_id =
        let cs = contact_columns contact in
        settle (db.exec insert_contact cs w) m (Memory.save_crm_contact (as_kept contact) m) user_id
          (λ n good.
            server.insert_ok contact.user_id _ w n good user_id
            ∙ over-if (some (as_kept contact)) (lookup user_id m.crm)
                (str_eq contact.user_id user_id) refl (h user_id)
            ∙ sym (ap row_of (lookup-insert contact.user_id user_id (as_kept contact) m.crm)))
          (λ e bad. server.insert_err contact.user_id _ w e bad user_id ∙ h user_id)
    call-Agrees (ContactCall.deletes gone) w m h user_id =
        settle (db.exec delete_contact (SqlValue.text gone ∷ []) w) m
          (Memory.delete_crm_contact gone m) user_id
          (λ n good.
            server.delete_ok gone w n good user_id
            ∙ over-if none (lookup user_id m.crm) (str_eq gone user_id) refl (h user_id)
            ∙ sym (ap row_of (lookup-erase gone user_id m.crm)))
          (λ e bad. server.delete_err gone w e bad user_id ∙ h user_id)

    calls-Agrees :
        (cs : List ContactCall) (w : W) (m : MemoryMarketingRepository)
        → Agrees w m
        → Agrees (calls_stored cs w) (in_memory as_kept cs w m)
    unfolding calls_stored in_memory
    calls-Agrees [] w m h = h
    calls-Agrees (c ∷ cs) w m h =
        calls-Agrees cs (call c w).1 (unless_failed (call c w).0 (on_memory as_kept c m) m)
          (call-Agrees c w m h)

    read-row_of :
        (entry : Option CrmContact)
        → contact_or (first_row (rows_for (row_of entry)) none) ≡ or_not_found entry
    read-row_of none = refl
    read-row_of (some contact) = refl

    -- After any run of saves and deletions of contacts on an empty table, wherever calls failed, a read
    -- whose query does not fail gives what the repository in memory gives after the calls that returned
    -- no error: the contact saved last, with its instant as the server keeps it, or the same error.
    pub get_crm_contact-memory :
        (cs : List ContactCall) (user_id : String) (w : W) (rows : Rows)
        → ((read : String) → server.contacts w read ≡ none)
        → db.query select_contact (SqlValue.text user_id ∷ []) (calls_stored cs w) ≡ ok rows
        → rows.failure ≡ none
        → get_crm_contact db user_id (calls_stored cs w)
          ≡ Memory.get_crm_contact user_id (in_memory as_kept cs w new_memory_marketing_repository)
    unfolding get_crm_contact Memory.get_crm_contact lookup
    get_crm_contact-memory cs user_id w rows empty found whole =
        let m = in_memory as_kept cs w new_memory_marketing_repository in
        let there = calls-Agrees cs w new_memory_marketing_repository empty user_id in
        let shown =
          server.select_ok user_id (calls_stored cs w) rows found whole ∙ ap rows_for there in
        rw (found, shown, whole) (read-row_of (lookup user_id m.crm))

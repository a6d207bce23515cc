-- ===== src/Monolith/Database/Cleared.antt =====
-- A database without a row of a user: what is read of the user, and exported.
use Prim.Native.String.{◌++◌ as append}
use mathlib.Core.List.{Permᴰ}
use sentinel_flow_event_driv.Base.{
  ℕ, ◌≡◌, ◌≢◌, ◌⊎◌, refl, ap, ◌∙◌, inl, inr, String, Bool, Option, none, some, List, [], ◌∷◌,
  str_eq-ne, Bool-cases, Option-cases,
}
use sentinel_flow_event_driv.Base.Word.{Time}
use sentinel_flow_event_driv.Base.Orders.{keep, drop_if}
use sentinel_flow_event_driv.Events.{ScreenedEvent}
use sentinel_flow_event_driv.Ports.{Fallible, ok, err, Fallible-cases}
use sentinel_flow_event_driv.Database.{SqlValue, SqlRow, Database, only_error}
use sentinel_flow_event_driv.Http.{Reply, json_reply}
use sentinel_flow_event_driv.Fraud.Postgres.{
  Codec, select_events, get_events_by_user_id, read_events, read_event, scan_event,
}
use sentinel_flow_event_driv.Fraud.Postgres.Server.{Tables, is_of_user, is_contact_of}
use sentinel_flow_event_driv.Fraud.Postgres.Purge.{purged}
use sentinel_flow_event_driv.Fraud.Service.{event_service}
use sentinel_flow_event_driv.Marketing.Postgres.{
  select_contact, get_crm_contact, contact_or, first_row,
}
use sentinel_flow_event_driv.Marketing.Handlers.{
  ExportBody, exported, export_error, contact_of, finish_export, handle_ccpa_export,
}
use sentinel_flow_event_driv.Monolith.Database.{fraud_db_port, marketing_db_port, export_db}
use sentinel_flow_event_driv.Monolith.Database.Server.{ServesPrivacy}

-- A second deletion finds nothing.
module _ {A : Type 0} (p : A → Bool) where
  keep-drop_if : (xs : List A) → keep p (drop_if p xs) ≡ []
  unfolding keep
  keep-drop_if [] = refl
  keep-drop_if (x ∷ xs) = elim (Bool-cases (p x)) [
    | inl gone ↦ rw gone (keep-drop_if xs)
    | inr kept ↦ rw (kept, kept) (keep-drop_if xs)
  ]

  pub drop_if_twice : (xs : List A) → drop_if p (drop_if p xs) ≡ drop_if p xs
  unfolding keep
  drop_if_twice [] = refl
  drop_if_twice (x ∷ xs) = elim (Bool-cases (p x)) [
    | inl gone ↦ rw gone (drop_if_twice xs)
    | inr kept ↦ rw (kept, kept) (ap (λ (ys : List A). x ∷ ys) (drop_if_twice xs))
  ]

perm-nil : {A : Type 0} {xs ys : List A} → Permᴰ xs ys → ys ≡ [] → xs ≡ []
perm-nil Permᴰ.nil e = refl
perm-nil (Permᴰ.cons p r) e = cc
perm-nil (Permᴰ.swap p q) e = cc
perm-nil (Permᴰ.trans r s) e = perm-nil r (perm-nil s e)

-- A walk that ends with an error gives no events.
read_events_failure :
    (codec : Codec) (e : String) (rows : List SqlRow)
    → (e' : String) × (read_events codec (some e) rows ≡ err e')
unfolding read_events
read_events_failure codec e [] = (e, refl)
read_events_failure codec e (row ∷ rows) =
    let (e', rest) = read_events_failure codec e rows in
    elim (Fallible-cases (read_event codec (scan_event row))) [
      | inl (event, good) ↦ (e', rw (good, rest, read_events) refl)
      | inr (e'', bad) ↦ (e'', rw (bad, read_events) refl)
    ]

pub only_error-state : {W : Type 0} (r : Fallible ℕ × W) → (only_error r).1 ≡ r.1
only_error-state (ok n, w) = refl
only_error-state (err e, w) = refl

first_row-none : (failure : Option String) → contact_of (contact_or (first_row [] failure)) ≡ none
first_row-none none = refl
first_row-none (some e) = refl

module _ {W : Type 0} (db : Database W) (server : ServesPrivacy db) (codec : Codec) where
  abbrev pub tables_of : W → Tables
  tables_of = server.on_events.tables

  abbrev pub without : String → Tables → Tables
  without user_id t = purged db server.on_events user_id t

  -- No row is the user's.
  abbrev pub IsCleared : String → Tables → Type 0
  IsCleared user_id t =
      (keep (is_of_user user_id) t.events ≡ []) × (keep (is_contact_of user_id) t.contacts ≡ [])

  pub without-IsCleared : (user_id : String) (t : Tables) → IsCleared user_id (without user_id t)
  without-IsCleared user_id t =
      (keep-drop_if (is_of_user user_id) t.events, keep-drop_if (is_contact_of user_id) t.contacts)

  -- A read of the user's events gives none, or an error.
  get_events_cleared :
      (user_id : String) (w : W)
      → IsCleared user_id (tables_of w)
      → (get_events_by_user_id db codec user_id w ≡ ok [])
        ⊎ ((e : String) × (get_events_by_user_id db codec user_id w ≡ err e))
  unfolding get_events_by_user_id
  get_events_cleared user_id w cleared =
      elim (Fallible-cases (db.query select_events (SqlValue.text user_id ∷ []) w)) [
        | inr (e, failed) ↦
            inr (append "failed to query events: " e, rw (failed, get_events_by_user_id) refl)
        | inl (rows, found) ↦
            let opened : get_events_by_user_id db codec user_id w
                ≡ read_events codec rows.failure rows.all =
              rw (found, get_events_by_user_id) refl in
            elim (Option-cases rows.failure) [
              | inl whole ↦
                  let (perm, _) = server.on_events.select_ok user_id w rows found whole in
                  inl (
                    opened
                    ∙ ap (λ (f : Option String). read_events codec f rows.all) whole
                    ∙ ap (read_events codec none) (perm-nil perm cleared.0)
                    ∙ unfold read_events in refl)
              | inr (e, ends) ↦
                  let (e', failed) = read_events_failure codec e rows.all in
                  inr (
                    e',
                    opened ∙ ap (λ (f : Option String). read_events codec f rows.all) ends ∙ failed,
                  )
            ]
      ]

  contact_cleared :
      (user_id : String) (w : W)
      → IsCleared user_id (tables_of w)
      → contact_of (get_crm_contact db user_id w) ≡ none
  unfolding get_crm_contact
  contact_cleared user_id w cleared =
      elim (Fallible-cases (db.query select_contact (SqlValue.text user_id ∷ []) w)) [
        | inr (e, failed) ↦ rw failed refl
        | inl (rows, found) ↦ rw found (
            ap (λ (all : List SqlRow). contact_of (contact_or (first_row all rows.failure)))
              (server.select_contact_none user_id w rows found cleared.1)
            ∙ first_row-none rows.failure)
      ]

  -- What an export shows once a user is cleared: nothing, or that the data could not be read.
  abbrev pub ShowsNothing : String → Time → Reply ExportBody → Type 0
  ShowsNothing user_id now reply =
      (reply
        ≡ json_reply 200 (
            exported
              (record { user_id = user_id; events = []; crm_contact = none; exported_at = now })))
      ⊎ (reply ≡ export_error "{\"error\": \"failed to export data\"}" 500)

  finish_export_cleared :
      (user_id : String) (now : Time) (w : W)
      → contact_of (get_crm_contact db user_id w) ≡ none
      → (answer : Fallible (List ScreenedEvent))
      → (answer ≡ ok []) ⊎ ((e : String) × (answer ≡ err e))
      → ShowsNothing user_id now (
          finish_export
            (event_service (fraud_db_port db codec))
            (marketing_db_port db)
            now
            user_id
            answer
            w)
  unfolding finish_export
  finish_export_cleared user_id now w no_contact answer (inl nothing) =
      rw nothing (inl (rw no_contact refl))
  finish_export_cleared user_id now w no_contact answer (inr (e, failed)) = rw failed (inr refl)

  pub export_cleared :
      (user_id : String) (now : Time) (w : W)
      → user_id ≢ ""
      → IsCleared user_id (tables_of w)
      → ShowsNothing user_id now (export_db db codec now "GET" user_id w)
  unfolding export_db handle_ccpa_export event_service
  export_cleared user_id now w given cleared = rw (str_eq-ne user_id "" given) (
      finish_export_cleared user_id now w (contact_cleared user_id w cleared)
        (get_events_by_user_id db codec user_id w) (get_events_cleared user_id w cleared))

-- ===== src/Fraud/Postgres/Purge.antt =====
-- The transaction that deletes a user's events and contact.
use Prim.Native.String.{◌++◌ as append}
use mathlib.Core.Path.{subst}
use sentinel_flow_event_driv.Base.{ℕ, ◌≡◌, ◌⊎◌, refl, ◌∙◌, inl, inr, String, [], ◌∷◌}
use sentinel_flow_event_driv.Base.Lists.{length}
use sentinel_flow_event_driv.Base.Orders.{keep, drop_if}
use sentinel_flow_event_driv.Base.Word.{add64}
use sentinel_flow_event_driv.Ports.{Fallible, ok, err, Fallible-cases}
use sentinel_flow_event_driv.Database.{SqlValue, Database}
use sentinel_flow_event_driv.Fraud.Postgres.{
  delete_events, delete_contacts, after_commit, after_contacts, after_events, after_begin,
  delete_user_events,
}
use sentinel_flow_event_driv.Fraud.Postgres.Server.{ServesEvents, Tables, is_of_user, is_contact_of}

module _ {W : Type 0} (db : Database W) (server : ServesEvents db) where
  -- With an error, the tables are as they were.
  abbrev Unchanged : W → Fallible ℕ × W → Type 0
  Unchanged w r = ((e : String) × (r.0 ≡ err e)) × (server.tables r.1 ≡ server.tables w)

  -- With no error, the result is a count, and the tables are some others.
  abbrev Done : ℕ → Tables → Fallible ℕ × W → Type 0
  Done count tables r = (r.0 ≡ ok count) × (server.tables r.1 ≡ tables)

  -- The stages of the transaction, the last one first.
  commit_stage :
      (events contacts : ℕ) (w : W)
      → Done (add64 events contacts) (server.view w) (after_commit db events contacts (db.commit w))
        ⊎ Unchanged w (after_commit db events contacts (db.commit w))
  commit_stage events contacts w = elim (Fallible-cases (db.commit w).0) [
    | inl (_, good) ↦
        inl (rw (good, after_commit) refl, rw (good, after_commit) (server.commit_ok w good))
    | inr (e, bad) ↦ inr (
      (e, rw (bad, after_commit) refl),
      rw (bad, after_commit) (server.rollback_tables (db.commit w).1 ∙ server.commit_err w e bad),
    )
  ]

  -- Moves the last stages' outcome to the state before them.
  from_earlier :
      {count : ℕ} {tables : Tables} (w w' : W) (r : Fallible ℕ × W)
      → server.tables w' ≡ server.tables w
      → Done count tables r ⊎ Unchanged w' r
      → Done count tables r ⊎ Unchanged w r
  from_earlier w w' r same (inl done) = inl done
  from_earlier w w' r same (inr ((e, failed), kept)) = inr ((e, failed), kept ∙ same)

  abbrev contacts_after : String → Tables → Tables
  contacts_after user_id t = record t { contacts = drop_if (is_contact_of user_id) t.contacts }

  abbrev contact_count : String → Tables → ℕ
  contact_count user_id t = length (keep (is_contact_of user_id) t.contacts)

  contacts_stage :
      (user_id : String) (events : ℕ) (w : W)
      → let r =
          after_contacts db events (db.tx_exec delete_contacts (SqlValue.text user_id ∷ []) w) in
        Done
          (add64 events (contact_count user_id (server.view w)))
          (contacts_after user_id (server.view w))
          r
        ⊎ Unchanged w r
  contacts_stage user_id events w =
      let args = SqlValue.text user_id ∷ [] in
      let same = server.tx_tables delete_contacts args w (inr refl) in
      let w' = (db.tx_exec delete_contacts args w).1 in
      elim (Fallible-cases (db.tx_exec delete_contacts args w).0) [
        | inl (n, good) ↦
            (let (count, view) = server.tx_contacts user_id w n good in
              rw (good, after_contacts, ← count, ← view)
                (from_earlier w w' (after_commit db events n (db.commit w')) same
                  (commit_stage events n w')))
        | inr (e, bad) ↦ inr (
          (append "failed to delete CRM contacts: " e, rw (bad, after_contacts) refl),
          rw (bad, after_contacts) (server.rollback_tables w' ∙ same),
        )
      ]

  abbrev event_count : String → Tables → ℕ
  event_count user_id t = length (keep (is_of_user user_id) t.events)

  abbrev events_after : String → Tables → Tables
  events_after user_id t = record t { events = drop_if (is_of_user user_id) t.events }

  -- The tables without the user's rows, and how many these are.
  abbrev pub purged : String → Tables → Tables
  purged user_id t = record {
    events = drop_if (is_of_user user_id) t.events;
    contacts = drop_if (is_contact_of user_id) t.contacts;
  }

  abbrev pub purged_count : String → Tables → ℕ
  purged_count user_id t = add64 (event_count user_id t) (contact_count user_id t)

  events_stage :
      (user_id : String) (w : W)
      → let r = after_events db user_id (db.tx_exec delete_events (SqlValue.text user_id ∷ []) w) in
        Done (purged_count user_id (server.view w)) (purged user_id (server.view w)) r
        ⊎ Unchanged w r
  events_stage user_id w =
      let args = SqlValue.text user_id ∷ [] in
      let same = server.tx_tables delete_events args w (inl refl) in
      let w' = (db.tx_exec delete_events args w).1 in
      elim (Fallible-cases (db.tx_exec delete_events args w).0) [
        | inl (n, good) ↦
            (let (count, view) = server.tx_events user_id w n good in
              let last =
                subst
                  (λ (v : Tables).
                    Done (add64 n (contact_count user_id v)) (contacts_after user_id v)
                      (after_contacts db n (db.tx_exec delete_contacts args w'))
                    ⊎ Unchanged w' (after_contacts db n (db.tx_exec delete_contacts args w')))
                  view (contacts_stage user_id n w') in
              rw (good, after_events, ← count)
                (from_earlier w w' (after_contacts db n (db.tx_exec delete_contacts args w')) same
                  last))
        | inr (e, bad) ↦ inr (
          (append "failed to delete events: " e, rw (bad, after_events) refl),
          rw (bad, after_events) (server.rollback_tables w' ∙ same),
        )
      ]

  begin_stage :
      (user_id : String) (w : W)
      → let r = after_begin db user_id (db.begin w) in
        Done (purged_count user_id (server.tables w)) (purged user_id (server.tables w)) r
        ⊎ Unchanged w r
  begin_stage user_id w =
      let same = server.begin_tables w in
      let w' = (db.begin w).1 in
      let r = after_events db user_id (db.tx_exec delete_events (SqlValue.text user_id ∷ []) w') in
      elim (Fallible-cases (db.begin w).0) [
        | inl (_, good) ↦
            (let last =
                subst
                  (λ (v : Tables).
                    Done (purged_count user_id v) (purged user_id v) r ⊎ Unchanged w' r)
                  (server.begin_ok w good) (events_stage user_id w') in
              rw (good, after_begin) (from_earlier w w' r same last))
        | inr (e, bad) ↦ inr ((e, rw (bad, after_begin) refl), rw (bad, after_begin) same)
      ]

  -- Whatever fails, a deletion is all or nothing. With no error, the tables are as before but for the
  -- user's events and contacts, which are gone, and the result is the number of both; with an error,
  -- the tables are as they were.
  pub delete_is_atomic :
      (user_id : String) (w : W)
      → let r = delete_user_events db user_id w in
        (r.0 ≡ ok (purged_count user_id (server.tables w)))
          × (server.tables r.1 ≡ purged user_id (server.tables w))
        ⊎ ((e : String) × (r.0 ≡ err e)) × (server.tables r.1 ≡ server.tables w)
  unfolding delete_user_events
  delete_is_atomic user_id w = begin_stage user_id w

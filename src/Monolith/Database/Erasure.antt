-- ===== src/Monolith/Database/Erasure.antt =====
-- The purge of a user on a database, and the export after it.
use mathlib.Core.Path.{subst}
use sentinel_flow_event_driv.Base.{
  ℕ, ◌≡◌, ◌≢◌, ◌⊎◌, refl, sym, ap, ◌∙◌, inl, inr, String, some, List, [], ◌∷◌, str_eq-ne,
}
use sentinel_flow_event_driv.Base.Word.{Time}
use sentinel_flow_event_driv.Base.Orders.{drop_if}
use sentinel_flow_event_driv.Ports.{Fallible, ok, err}
use sentinel_flow_event_driv.Database.{SqlValue, SqlRow, Database}
use sentinel_flow_event_driv.Http.{Reply, http_error}
use sentinel_flow_event_driv.Fraud.Postgres.{Codec, delete_user_events}
use sentinel_flow_event_driv.Fraud.Postgres.Server.{Tables, is_contact_of}
use sentinel_flow_event_driv.Fraud.Postgres.Purge.{purged_count, delete_is_atomic}
use sentinel_flow_event_driv.Fraud.Service.{event_service}
use sentinel_flow_event_driv.Marketing.Postgres.{
  delete_contact, insert_log, log_columns, delete_crm_contact, save_privacy_log,
}
use sentinel_flow_event_driv.Marketing.Handlers.{finish_purge, handle_gdpr_delete, purge_entry}
use sentinel_flow_event_driv.Monolith.Database.{
  fraud_db_port, marketing_db_port, purge_db, export_db,
}
use sentinel_flow_event_driv.Monolith.Database.Server.{ServesPrivacy}
use sentinel_flow_event_driv.Monolith.Database.Cleared.{
  only_error-state, drop_if_twice, tables_of, without, IsCleared, without-IsCleared, ShowsNothing,
  export_cleared,
}

module _ {W : Type 0} (db : Database W) (server : ServesPrivacy db) (codec : Codec) where
  -- The two later calls of the handler.
  delete_contact_without :
      (user_id : String) (w : W) (t : Tables)
      → tables_of db server codec w ≡ without db server codec user_id t
      → tables_of db server codec (delete_crm_contact db user_id w).1
        ≡ without db server codec user_id t
  unfolding delete_crm_contact
  delete_contact_without user_id w t there =
      let r = db.exec delete_contact (SqlValue.text user_id ∷ []) w in
      ap (tables_of db server codec) (only_error-state r)
      ∙ elim (server.delete_contact_tables user_id w) [
        | inl same ↦ same ∙ there
        | inr gone ↦
            gone
            ∙ ap
                (λ (t' : Tables). record t' {
                  contacts = drop_if (is_contact_of user_id) t'.contacts;
                })
                there
            ∙ ap
                (λ (rows : List SqlRow). record (without db server codec user_id t) {
                  contacts = rows;
                })
                (drop_if_twice (is_contact_of user_id) t.contacts)
      ]

  finish_purge-without :
      (sha256_hex : String → String) (now later : Time) (user_id : String) (n : ℕ) (w : W)
      (t : Tables)
      → tables_of db server codec w ≡ without db server codec user_id t
      → let (reply, w') =
          finish_purge
            (event_service (fraud_db_port db codec))
            (marketing_db_port db)
            sha256_hex
            now
            later
            user_id
            (ok n, w) in
        (reply.status_code ≡ 200)
        × (tables_of db server codec w' ≡ without db server codec user_id t)
  unfolding finish_purge save_privacy_log
  finish_purge-without sha256_hex now later user_id n w t there =
      let w1 = (delete_crm_contact db user_id w).1 in
      let entry = purge_entry sha256_hex now later user_id in
      (
        refl,
        ap (tables_of db server codec)
              (only_error-state (db.exec insert_log (log_columns entry) w1))
            ∙ server.insert_log_tables (log_columns entry) w1
            ∙ delete_contact_without user_id w t there,
      )

  -- From the answer of the repository on.
  settled :
      (sha256_hex : String → String) (now later : Time) (user_id : String) (w : W)
      (r : Fallible ℕ × W)
      → ((n : ℕ) × (r.0 ≡ ok n)
          × (tables_of db server codec r.1
              ≡ without db server codec user_id (tables_of db server codec w)))
        ⊎ ((e : String) × (r.0 ≡ err e))
          × (tables_of db server codec r.1 ≡ tables_of db server codec w)
      → let (reply, w') =
          finish_purge
            (event_service (fraud_db_port db codec))
            (marketing_db_port db)
            sha256_hex
            now
            later
            user_id
            r in
        (reply.status_code ≡ 200)
          × (tables_of db server codec w'
              ≡ without db server codec user_id (tables_of db server codec w))
        ⊎ (reply.status_code ≡ 500) × (tables_of db server codec w' ≡ tables_of db server codec w)
  unfolding finish_purge http_error
  settled sha256_hex now later user_id w (ok n, w') (inl (n', _, there)) =
      inl
        (finish_purge-without sha256_hex now later user_id n w' (tables_of db server codec w) there)
  settled sha256_hex now later user_id w (err e, w') (inl (n', bad, there)) = cc
  settled sha256_hex now later user_id w (ok n, w') (inr ((e, bad), same)) = cc
  settled sha256_hex now later user_id w (err e, w') (inr (_, same)) = inr (refl, same)

  deleted :
      (user_id : String) (w : W)
      → let r = delete_user_events db user_id w in
        ((n : ℕ) × (r.0 ≡ ok n)
          × (tables_of db server codec r.1
              ≡ without db server codec user_id (tables_of db server codec w)))
        ⊎ ((e : String) × (r.0 ≡ err e))
          × (tables_of db server codec r.1 ≡ tables_of db server codec w)
  deleted user_id w = elim (delete_is_atomic db server.on_events user_id w) [
    | inl (good, there) ↦
        inl (purged_count db server.on_events user_id (tables_of db server codec w), good, there)
    | inr failed ↦ inr failed
  ]

  with_exports :
      (user_id : String) (w : W)
      → user_id ≢ ""
      → (out : Reply String × W)
      → (out.0.status_code ≡ 200)
          × (tables_of db server codec out.1
              ≡ without db server codec user_id (tables_of db server codec w))
        ⊎ (out.0.status_code ≡ 500)
          × (tables_of db server codec out.1 ≡ tables_of db server codec w)
      → (out.0.status_code ≡ 200)
          × (tables_of db server codec out.1
              ≡ without db server codec user_id (tables_of db server codec w))
          × ((then_ : Time)
              → ShowsNothing db server codec user_id then_
                  (export_db db codec then_ "GET" user_id out.1))
        ⊎ (out.0.status_code ≡ 500)
          × (tables_of db server codec out.1 ≡ tables_of db server codec w)
  with_exports user_id w given out (inl (status, there)) =
      let cleared =
        subst (IsCleared db server codec user_id) (sym there)
          (without-IsCleared db server codec user_id (tables_of db server codec w)) in
      inl (status, there, λ then_. export_cleared db server codec user_id then_ out.1 given cleared)
  with_exports user_id w given out (inr failed) = inr failed

  -- On a database of which any call may fail, a purge of a user whose id is not empty either answers
  -- 200, and the tables have lost the user's events and contact and nothing else; or it answers 500, and
  -- the tables are as they were. After an answer of 200, an export of the user shows no event and no
  -- contact, or fails with 500.
  pub database_purge_erases :
      (sha256_hex : String → String) (now later : Time) (user_id : String) (w : W)
      → user_id ≢ ""
      → let (reply, w') = purge_db db codec sha256_hex now later "POST" (some user_id) w in
        (reply.status_code ≡ 200)
          × (tables_of db server codec w'
              ≡ without db server codec user_id (tables_of db server codec w))
          × ((then_ : Time)
              → ShowsNothing db server codec user_id then_
                  (export_db db codec then_ "GET" user_id w'))
        ⊎ (reply.status_code ≡ 500) × (tables_of db server codec w' ≡ tables_of db server codec w)
  unfolding purge_db handle_gdpr_delete event_service
  database_purge_erases sha256_hex now later user_id w given =
      let r = delete_user_events db user_id w in
      rw (str_eq-ne user_id "" given) (
        with_exports user_id w given
          (finish_purge (event_service (fraud_db_port db codec)) (marketing_db_port db) sha256_hex
            now later user_id r)
          (settled sha256_hex now later user_id w r (deleted user_id w)))

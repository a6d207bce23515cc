-- ===== src/Tests/Postgres.antt =====
-- The theorems on the Postgres repositories, on a server in memory.
use mathlib.Core.List.{Permᴰ}
use sentinel_flow_event_driv.Base.{
  ℕ, ◌≡◌, ◌⊎◌, refl, true, false, none, some, String, List, [], ◌∷◌, map,
}
use sentinel_flow_event_driv.Base.Dict.{Dict}
use sentinel_flow_event_driv.Base.Orders.{keep, any}
use sentinel_flow_event_driv.Events.{Value, TrackingEvent, ScreenedEvent}
use sentinel_flow_event_driv.Ports.{Fallible, ok, err}
use sentinel_flow_event_driv.Database.{SqlRow}
use sentinel_flow_event_driv.Fraud.Postgres.{
  Codec, save_event, get_events_by_user_id, delete_user_events,
}
use sentinel_flow_event_driv.Fraud.Postgres.Server.{NewestFirst}
use sentinel_flow_event_driv.Fraud.Postgres.Log.{ReadsBack, is_of, row_of, as_kept}
use sentinel_flow_event_driv.Fraud.Postgres.Run.{Call, runs, log_of, postgres-log}
use sentinel_flow_event_driv.Fraud.Postgres.Purge.{purged, purged_count, delete_is_atomic}
use sentinel_flow_event_driv.Base.Word.{Time}
use sentinel_flow_event_driv.Monolith.Database.{purge_db, export_db}
use sentinel_flow_event_driv.Monolith.Database.Cleared.{tables_of, without, ShowsNothing}
use sentinel_flow_event_driv.Monolith.Database.Erasure.{database_purge_erases}
use sentinel_flow_event_driv.Tests.Disk.{Disk, disk_db, disk_serves, disk_erases}

abbrev write_country : Dict Value → Fallible String
write_country ((key, Value.text country) ∷ []) = ok country
write_country _ = err "unsupported"

abbrev country_codec : Codec
country_codec = record {
  marshal = write_country;
  unmarshal = λ s. ok (("country", Value.text s) ∷ []);
}

abbrev at_time : String → ℕ → ScreenedEvent
at_time event_id time =
    let event : TrackingEvent = record {
      event_id = event_id;
      user_id = "u1";
      event_type = "signup";
      ip_address = "10.1.2.0";
      user_agent = "curl/8.0";
      payload = ("country", Value.text "ID") ∷ [];
      timestamp = time;
      gdpr_consent = true;
    } in
    record {
      tracking_event = event;
      is_fraudulent = false;
      fraud_score = 0;
      fraud_reason = "";
      screened_at = 9;
    }

abbrev first : ScreenedEvent
first = at_time "e1" 5_001

abbrev second : ScreenedEvent
second = at_time "e2" 7_000

abbrev row : String → ℕ → SqlRow
row event_id time =
    row_of disk_db country_codec disk_serves
      (as_kept disk_db country_codec disk_serves (at_time event_id time))

reads_back :
    (event_id : String) (time : ℕ)
    → ReadsBack disk_db country_codec disk_serves (at_time event_id time).payload
reads_back event_id time = record { marshals = ("ID", refl); unmarshals = refl; has_bytes = cc }

abbrev empty_disk : Disk
empty_disk = record {
  tables = record { events = []; contacts = [] };
  view = record { events = []; contacts = [] };
}

abbrev run : List Call
run =
    Call.saves first
    ∷ Call.purges "u1"
    ∷ Call.saves second
    ∷ Call.saves first
    ∷ Call.saves first
    ∷ []

postgres-log_example :
    (events : List ScreenedEvent) × (get_events_by_user_id disk_db country_codec "u1"
        (runs disk_db country_codec run empty_disk)
      ≡ ok events)
    × Permᴰ events (
        keep (is_of "u1") (
          log_of disk_db country_codec
            (as_kept disk_db country_codec disk_serves)
            run
            empty_disk
            []))
    × NewestFirst (map (λ e. e.timestamp) events)
unfolding runs log_of save_event delete_user_events keep any
postgres-log_example =
    postgres-log disk_db country_codec disk_serves run "u1" empty_disk
      (record { all = row "e2" 7_000 ∷ row "e1" 5_001 ∷ []; failure = none }) refl
      (
        reads_back "e1" 5_001,
        (tt, (reads_back "e2" 7_000, (reads_back "e1" 5_001, (reads_back "e1" 5_001, tt)))),
      )
      refl refl

abbrev one_saved : Disk
one_saved = runs disk_db country_codec (Call.saves first ∷ []) empty_disk

delete_is_atomic_example :
    let r = delete_user_events disk_db "u1" one_saved in
    (r.0 ≡ ok (purged_count disk_db disk_serves "u1" one_saved.tables))
      × (r.1.tables ≡ purged disk_db disk_serves "u1" one_saved.tables)
    ⊎ ((e : String) × (r.0 ≡ err e)) × (r.1.tables ≡ one_saved.tables)
delete_is_atomic_example = delete_is_atomic disk_db disk_serves "u1" one_saved

database_purge_erases_example :
    let (reply, disk) = purge_db disk_db country_codec (λ s. s) 5 6 "POST" (some "u1") one_saved in
    (reply.status_code ≡ 200)
      × (tables_of disk_db disk_erases country_codec disk
          ≡ without disk_db disk_erases country_codec "u1" one_saved.tables)
      × ((then_ : Time)
          → ShowsNothing disk_db disk_erases country_codec "u1" then_
              (export_db disk_db country_codec then_ "GET" "u1" disk))
    ⊎ (reply.status_code ≡ 500)
      × (tables_of disk_db disk_erases country_codec disk ≡ one_saved.tables)
database_purge_erases_example =
    database_purge_erases disk_db disk_erases country_codec (λ s. s) 5 6 "u1" one_saved (cc)

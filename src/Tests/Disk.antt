-- ===== src/Tests/Disk.antt =====
-- A server in memory for the tests of pkg/domain/fraud/postgres.go: two tables, and the tables as the
-- open transaction sees them.
use mathlib.Core.List.{Permᴰ}
use mathlib.Core.List.Permᴰ
use mathlib.Core.Path.{subst}
use sentinel_flow_event_driv.Base.{
  ℕ, ◌*◌, ◌/◌, ◌≡◌, refl, sym, ap, ◌∙◌, inl, inr, String, none, List, [], ◌∷◌, map, str_eq, leb,
  if◌then◌else◌, Bool-cases, leb→le, leb→ge,
}
use sentinel_flow_event_driv.Base.Lists.{length}
use sentinel_flow_event_driv.Base.Orders.{keep, drop_if}
use sentinel_flow_event_driv.Base.Word.{Time}
use sentinel_flow_event_driv.Ports.{Fallible, ok, err, ok-injective}
use sentinel_flow_event_driv.Database.{SqlValue, SqlRow, Rows, Database}
use sentinel_flow_event_driv.Fraud.Postgres.{
  insert_event, select_events, delete_events, delete_contacts,
}
use sentinel_flow_event_driv.Marketing.Postgres.{delete_contact, insert_log, select_contact}
use sentinel_flow_event_driv.Monolith.Database.Server.{ServesPrivacy}
use sentinel_flow_event_driv.Fraud.Postgres.Server.{
  ServesEvents, Tables, is_of_user, is_contact_of, timestamp_of, NewestFirst, insert_row, stored,
}

pub record Disk : Type 0 where
  pub tables : Tables
  pub view : Tables

abbrev pub to_microseconds : Time → Time
to_microseconds t = t / 1_000 * 1_000

abbrev place : SqlRow → List SqlRow → List SqlRow
place row [] = row ∷ []
place row (other ∷ rows) =
    let rest = place row rows in
    if leb (timestamp_of other) (timestamp_of row) then row ∷ other ∷ rows else other ∷ rest

abbrev sort_newest : List SqlRow → List SqlRow
sort_newest [] = []
sort_newest (row ∷ rows) = place row (sort_newest rows)

place-perm : (row : SqlRow) (rows : List SqlRow) → Permᴰ (place row rows) (row ∷ rows)
place-perm row [] = Permᴰ.refl (row ∷ [])
place-perm row (other ∷ rows) = elim (Bool-cases (leb (timestamp_of other) (timestamp_of row))) [
  | inl newer ↦ rw newer (Permᴰ.refl (row ∷ other ∷ rows))
  | inr older ↦
      rw older (Permᴰ.trans (Permᴰ.cons refl (place-perm row rows)) (Permᴰ.swap refl refl))
]

sort-perm : (rows : List SqlRow) → Permᴰ (sort_newest rows) rows
sort-perm [] = Permᴰ.nil
sort-perm (row ∷ rows) =
    Permᴰ.trans (place-perm row (sort_newest rows)) (Permᴰ.cons refl (sort-perm rows))

place-NewestFirst :
    (row : SqlRow) (rows : List SqlRow)
    → NewestFirst (map timestamp_of rows)
    → NewestFirst (map timestamp_of (place row rows))
place-NewestFirst row [] h = tt
place-NewestFirst row (a ∷ []) h = elim (Bool-cases (leb (timestamp_of a) (timestamp_of row))) [
  | inl newer ↦ rw newer (leb→le _ _ newer, tt)
  | inr older ↦ rw older (leb→ge _ _ older, tt)
]
place-NewestFirst row (a ∷ b ∷ rows) h =
    let rest = place-NewestFirst row (b ∷ rows) h.1 in
    elim (Bool-cases (leb (timestamp_of a) (timestamp_of row))) [
      | inl newer ↦ rw newer (leb→le _ _ newer, h)
      | inr older ↦ elim (Bool-cases (leb (timestamp_of b) (timestamp_of row))) [
        | inl newer ↦ rw (older, newer) (leb→ge _ _ older, rw newer at rest)
        | inr older' ↦ rw (older, older') (h.0, rw older' at rest)
      ]
    ]

sort-NewestFirst : (rows : List SqlRow) → NewestFirst (map timestamp_of (sort_newest rows))
sort-NewestFirst [] = tt
sort-NewestFirst (row ∷ rows) = place-NewestFirst row (sort_newest rows) (sort-NewestFirst rows)

abbrev execute_own : String → List SqlValue → Disk → Fallible ℕ × Disk
execute_own statement (SqlValue.text user_id ∷ []) disk =
    if str_eq statement delete_contact
    then (
      ok 1,
      record disk {
        tables = record disk.tables {
          contacts = drop_if (is_contact_of user_id) disk.tables.contacts;
        };
      },
    )
    else (err "unknown statement", disk)
execute_own statement _ disk = (err "wrong arguments", disk)

abbrev execute : String → List SqlValue → Disk → Fallible ℕ × Disk
execute statement args disk =
    if str_eq statement insert_event
    then (
      ok 1,
      record disk {
        tables = record disk.tables {
          events = insert_row (map (stored (λ s. s) to_microseconds) args) disk.tables.events;
        };
      },
    )
    else if str_eq statement insert_log
    then (ok 1, disk)
    else execute_own statement args disk

abbrev ask : String → List SqlValue → Disk → Fallible Rows
ask statement (SqlValue.text user_id ∷ []) disk =
    if str_eq statement select_events
    then ok (record {
      all = sort_newest (keep (is_of_user user_id) disk.tables.events);
      failure = none;
    })
    else if str_eq statement select_contact
    then ok (record { all = keep (is_contact_of user_id) disk.tables.contacts; failure = none })
    else err "unknown statement"
ask statement _ disk = err "wrong arguments"

abbrev delete_own : String → String → Tables → Fallible ℕ × Tables
delete_own statement user_id t =
    if str_eq statement delete_events
    then (
      ok (length (keep (is_of_user user_id) t.events)),
      record t { events = drop_if (is_of_user user_id) t.events },
    )
    else if str_eq statement delete_contacts
    then (
      ok (length (keep (is_contact_of user_id) t.contacts)),
      record t { contacts = drop_if (is_contact_of user_id) t.contacts },
    )
    else (err "unknown statement", t)

abbrev change_view : String → List SqlValue → Tables → Fallible ℕ × Tables
change_view statement (SqlValue.text user_id ∷ []) t = delete_own statement user_id t
change_view statement _ t = (err "wrong arguments", t)

abbrev execute_tx : String → List SqlValue → Disk → Fallible ℕ × Disk
execute_tx statement args disk =
    let r = change_view statement args disk.view in (r.0, record disk { view = r.1 })

abbrev pub disk_db : Database Disk
disk_db = record {
  exec = execute;
  query = ask;
  begin = λ disk. (ok tt, record disk { view = disk.tables });
  tx_exec = execute_tx;
  commit = λ disk. (ok tt, record disk { tables = disk.view });
  rollback = λ disk. disk;
}

pub ask-select :
    (user_id : String) (disk : Disk) (rows : Rows)
    → ok (record {
      all = sort_newest (keep (is_of_user user_id) disk.tables.events);
      failure = none;
    })
      ≡ ok rows
    → Permᴰ rows.all (keep (is_of_user user_id) disk.tables.events)
      × NewestFirst (map timestamp_of rows.all)
ask-select user_id disk rows e =
    let kept = keep (is_of_user user_id) disk.tables.events in
    let same = ap (λ (r : Rows). r.all) (ok-injective e) in
    (
      subst (λ rs. Permᴰ rs kept) same (sort-perm kept),
      subst (λ rs. NewestFirst (map timestamp_of rs)) same (sort-NewestFirst kept),
    )

abbrev pub disk_serves : ServesEvents disk_db
disk_serves = record {
  tables = λ disk. disk.tables;
  view = λ disk. disk.view;
  jsonb = λ s. s;
  kept_time = to_microseconds;
  insert_ok = λ row disk n e. refl;
  insert_err = λ row disk n e. cc;
  select_ok = λ user_id disk rows e _. ask-select user_id disk rows e;
  begin_tables = λ disk. refl;
  begin_ok = λ disk e. refl;
  tx_tables = λ statement args disk _. refl;
  tx_events = λ user_id disk n e. (sym (ok-injective e), refl);
  tx_contacts = λ user_id disk n e. (sym (ok-injective e), refl);
  commit_ok = λ disk e. refl;
  commit_err = λ disk s e. cc;
  rollback_tables = λ disk. refl;
}

pub ask-contact :
    (user_id : String) (disk : Disk) (rows : Rows)
    → ok (record { all = keep (is_contact_of user_id) disk.tables.contacts; failure = none })
      ≡ ok rows
    → keep (is_contact_of user_id) disk.tables.contacts ≡ []
    → rows.all ≡ []
ask-contact user_id disk rows e gone = sym (ap (λ (r : Rows). r.all) (ok-injective e)) ∙ gone

abbrev pub disk_erases : ServesPrivacy disk_db
disk_erases = record {
  on_events = disk_serves;
  delete_contact_tables = λ user_id disk. inr refl;
  insert_log_tables = λ args disk. refl;
  select_contact_none = λ user_id disk rows e gone. ask-contact user_id disk rows e gone;
}

-- ===== src/Tests/Counters.antt =====
-- The tracker on Postgres, on a server whose table has room for one counter.
use mathlib.Core.Path.{subst}
use sentinel_flow_event_driv.Base.{
  ℕ, ◌≡◌, refl, inl, inr, true, String, Option, none, some, List, [], ◌∷◌, str_eq, if◌then◌else◌,
  arith, Bool-cases, eq_iff, eq_refl,
}
use sentinel_flow_event_driv.Base.Lists.{All}
use sentinel_flow_event_driv.Base.Orders.{any}
use sentinel_flow_event_driv.Base.Word.{add64}
use sentinel_flow_event_driv.Ports.{Fallible, ok, err, ok-injective}
use sentinel_flow_event_driv.Database.{SqlValue, SqlRow, Rows, Database}
use sentinel_flow_event_driv.Analytics.Memory as Memory
use sentinel_flow_event_driv.Analytics.Postgres.{insert_metric, select_metrics}
use sentinel_flow_event_driv.Analytics.Postgres.Server.{ServesMetrics, Shows, is_named, or_zero}

abbrev Room : Type 0
Room = Option (String × ℕ)

abbrev add_counter : String → ℕ → Room → Fallible ℕ × Room
add_counter name delta none = (ok 1, some (name, add64 0 delta))
add_counter name delta (some (kept, val)) =
    if str_eq kept name
    then (ok 1, some (kept, add64 val delta))
    else (err "no room", some (kept, val))

abbrev exec_counter : List SqlValue → Room → Fallible ℕ × Room
exec_counter (SqlValue.text name ∷ SqlValue.number delta ∷ []) room = add_counter name delta room
exec_counter _ room = (err "wrong arguments", room)

abbrev rows_of : Room → List SqlRow
rows_of none = []
rows_of (some (name, val)) = (SqlValue.text name ∷ SqlValue.number val ∷ []) ∷ []

abbrev room_db : Database Room
room_db = record {
  exec = λ statement args room.
      if str_eq statement insert_metric
      then exec_counter args room
      else (err "unknown statement", room);
  query = λ statement args room.
      if str_eq statement select_metrics
      then ok (record { all = rows_of room; failure = none })
      else err "unknown statement";
  begin = λ room. (err "no transactions", room);
  tx_exec = λ statement args room. (err "no transactions", room);
  commit = λ room. (err "no transactions", room);
  rollback = λ room. room;
}

abbrev counter_in : Room → String → Option ℕ
counter_in none read = none
counter_in (some (name, val)) read = if str_eq name read then some val else none

add_counter-ok :
    (name : String) (delta : ℕ) (room : Room) (n : ℕ)
    → (add_counter name delta room).0 ≡ ok n
    → (read : String)
    → counter_in (add_counter name delta room).1 read ≡ (
        if str_eq name read
        then some (add64 (or_zero (counter_in room name)) delta)
        else counter_in room read)
add_counter-ok name delta none n h read = refl
add_counter-ok name delta (some (kept, val)) n h read =
    ground (arith, eq_iff kept name, eq_iff kept read, eq_iff name read)

add_counter-err :
    (name : String) (delta : ℕ) (room : Room) (e : String)
    → (add_counter name delta room).0 ≡ err e
    → (read : String) → counter_in (add_counter name delta room).1 read ≡ counter_in room read
add_counter-err name delta none e h read = cc
add_counter-err name delta (some (kept, val)) e h read = elim (Bool-cases (str_eq kept name)) [
  | inl alike ↦ let h' : ok 1 ≡ err e = rw alike at h in cc
  | inr apart ↦ rw apart refl
]

rows_of-Shows : (room : Room) → All (Shows (counter_in room)) (rows_of room)
rows_of-Shows none = tt
rows_of-Shows (some (name, val)) = ((name, val, refl, rw (eq_refl name) refl), tt)

rows_of-all :
    (room : Room) (name : String) (val : ℕ)
    → counter_in room name ≡ some val
    → any (is_named name) (rows_of room) ≡ true
unfolding any
rows_of-all none name val h = cc
rows_of-all (some (kept, val')) name val h = ground arith

room_serves : ServesMetrics room_db
room_serves = record {
  counters = counter_in;
  insert_ok = λ name delta room n h. add_counter-ok name delta room n h;
  insert_err = λ name delta room e h. add_counter-err name delta room e h;
  select_rows = λ room rows h.
      subst (λ (r : Rows). All (Shows (counter_in room)) r.all) (ok-injective h)
        (rows_of-Shows room);
  select_all = λ room rows h whole name val there.
      subst (λ (r : Rows). any (is_named name) r.all ≡ true) (ok-injective h)
        (rows_of-all room name val there);
}

abbrev calls : List (String × ℕ)
calls = ("fraudulent", 2) ∷ ("legitimate", 1) ∷ ("fraudulent", 3) ∷ []

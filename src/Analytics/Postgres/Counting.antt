-- ===== src/Analytics/Postgres/Counting.antt =====
-- The tracker on Postgres, against the tracker in memory.
use sentinel_flow_event_driv.Base.{
  ℕ, ◌≡◌, ◌⊎◌, ◌∙◌, inl, inr, String, List, [], ◌∷◌, arith, Bool-cases,
}
use sentinel_flow_event_driv.Base.Orders.{any}
use sentinel_flow_event_driv.Base.Word.{Time}
use sentinel_flow_event_driv.Ports.{Fallible, ok, err, Fallible-cases}
use sentinel_flow_event_driv.Database.{SqlValue, Database}
use sentinel_flow_event_driv.Analytics.Models.{SystemMetrics, Ratio}
use sentinel_flow_event_driv.Analytics.Memory as Memory
use sentinel_flow_event_driv.Analytics.Memory.{Counter, MemoryTelemetryTracker}
use sentinel_flow_event_driv.Analytics.Memory.Counting.{read}
use sentinel_flow_event_driv.Analytics.Postgres.Names.{name_of}
use sentinel_flow_event_driv.Analytics.Postgres.Walk.{shown, collect-Shows}
use sentinel_flow_event_driv.Analytics.Postgres.{
  insert_metric, select_metrics, zero_metrics, collect, increment_metric, metrics_of, get_metrics,
}
use sentinel_flow_event_driv.Analytics.Postgres.Server.{ServesMetrics, is_named, or_zero}

shown-zero : (c : Counter) → shown c zero_metrics ≡ 0
shown-zero c = ground arith

shown-rate :
    (c : Counter) (rate : Ratio) (metrics : SystemMetrics)
    → shown c (record metrics { events_per_second = rate }) ≡ shown c metrics
shown-rate c rate metrics = ground arith

module _ {W : Type 0} (db : Database W) where
  unfoldable pub increments_stored : List (String × ℕ) → W → W
  unfolding increment_metric
  increments_stored [] w = w
  increments_stored ((name, delta) ∷ calls) w =
      increments_stored calls (increment_metric db name delta w)

  abbrev count_if : Fallible ℕ → String × ℕ → List (String × ℕ) → List (String × ℕ)
  count_if (ok _) call calls = call ∷ calls
  count_if (err _) call calls = calls

  -- The increments of a run whose statement returned no error.
  unfoldable pub counted : List (String × ℕ) → W → List (String × ℕ)
  unfolding increment_metric
  counted [] w = []
  counted ((name, delta) ∷ calls) w =
      let args = SqlValue.text name ∷ SqlValue.number delta ∷ [] in
      count_if (db.exec insert_metric args w).0 (name, delta)
        (counted calls (increment_metric db name delta w))

  module _ (server : ServesMetrics db) where
    -- The table and the counters in memory are alike.
    abbrev Agrees : W → MemoryTelemetryTracker → Type 0
    Agrees w m = (c : Counter) → or_zero (server.counters w (name_of c)) ≡ read c m

    -- Where the rows stop early with an error, which `GetMetrics` does not ask for, a counter that it gives
    -- is the table's or zero.
    pub get_metrics_partial :
        (c : Counter) (start_time now : Time) (w : W)
        → let given = shown c (get_metrics db start_time now w) in
          (given ≡ or_zero (server.counters w (name_of c))) ⊎ (given ≡ 0)
    unfolding get_metrics metrics_of
    get_metrics_partial c start_time now w = elim (Fallible-cases (db.query select_metrics [] w)) [
      | inl (rows, found) ↦
          let walked =
            collect-Shows c (server.counters w) rows.all zero_metrics
              (server.select_rows w rows found) in
          let metrics = metrics_of start_time now (ok rows) in
          let given : shown c metrics ≡ _ =
            shown-rate c metrics.events_per_second (collect rows.all zero_metrics) ∙ walked in
          elim (Bool-cases (any (is_named (name_of c)) rows.all)) [
            | inl there ↦ rw found (inl (rw there at given))
            | inr absent ↦ rw found (inr (rw absent at given ∙ shown-zero c))
          ]
      | inr (e, failed) ↦ rw failed (inr (shown-zero c))
    ]

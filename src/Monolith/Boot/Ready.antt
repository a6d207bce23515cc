-- ===== src/Monolith/Boot/Ready.antt =====
-- When the monolith starts, and with what.
use sentinel_flow_event_driv.Base.{
  ℕ, ◌≡◌, ◌⊎◌, ◌↔◌, refl, sym, ap, ◌∙◌, inl, inr, String, Bool, true, false, Option, none, some, [],
  str_eq, Bool-cases,
}
use sentinel_flow_event_driv.Base.Dict.{lookup}
use sentinel_flow_event_driv.Base.Word.{Time}
use sentinel_flow_event_driv.Ports.{Fallible, ok, err, ok-injective}
use sentinel_flow_event_driv.Config.{Config, load_config, get_env}
use sentinel_flow_event_driv.Database.{Database}
use sentinel_flow_event_driv.Redis.{new_redis_broker}
use sentinel_flow_event_driv.Redis.Connect.{Answered, new_redis_broker-pings}
use sentinel_flow_event_driv.Cluster.{new_cluster}
use sentinel_flow_event_driv.Broker.{new_in_memory_broker}
use sentinel_flow_event_driv.Monolith.Boot.{
  Started, up, exits, ◌>>=◌, or_exit, exit_on, Host, uses_database, driver_of, migration_path,
  in_memory, memory_stores, after_exec, open_and_migrate, init_database, connect_redis, init_broker,
  boot, stores_of, over_redis, new_crm_adapter, setup_logger,
}

abbrev pub IsUp : {A : Type 0} → Started A → Type 0
IsUp {A} m = (a : A) × (m ≡ up a)

abbrev pub IsOk : {A : Type 0} → Fallible A → Type 0
IsOk {A} r = (a : A) × (r ≡ ok a)

up_of :
    {A B : Type 0} (m : Started A) (f : A → Started B)
    → IsUp (m >>= f)
    → (a : A) × (m ≡ up a) × IsUp (f a)
up_of (up a) f h = (a, refl, h)
up_of (exits message e) f (b, h) = cc

up_then :
    {A B : Type 0} (m : Started A) (f : A → Started B) {a : A}
    → m ≡ up a
    → IsUp (f a)
    → IsUp (m >>= f)
up_then m f {a} h (b, e) = (b, ap (λ s. s >>= f) h ∙ e)

or_exit-up :
    {A : Type 0} (message : String) (r : Fallible A) {a : A} → or_exit message r ≡ up a → r ≡ ok a
or_exit-up message (ok a) h = cc
or_exit-up message (err e) h = cc

exit_on-up : (message : String) (e : Option String) {u : Unit} → exit_on message e ≡ up u → e ≡ none
exit_on-up message none h = refl
exit_on-up message (some e) h = cc

after_exec-ok : {W : Type 0} (r : Fallible ℕ × W) {w : W} → after_exec r ≡ ok w → IsOk r.0
after_exec-ok (ok n, w) h = (n, refl)
after_exec-ok (err e, w) h = cc

IsOk-after_exec : {W : Type 0} (r : Fallible ℕ × W) → IsOk r.0 → IsOk (after_exec r)
IsOk-after_exec (ok n, w) h = (w, refl)
IsOk-after_exec (err e, w) (n, h) = cc

-- A need where a test holds, as a choice.
unneeded_or : (test : Bool) {A : Type 0} → (test ≡ true → A) → (test ≡ false) ⊎ A
unneeded_or true need = inr (need refl)
unneeded_or false need = inl refl

needed : (test : Bool) {A : Type 0} → (test ≡ false) ⊎ A → test ≡ true → A
needed test (inl unneeded) h = let clash : true ≡ false = sym h ∙ unneeded in cc
needed test (inr a) h = a

module _ {W C : Type 0} (db : Database W) (host : Host W C) where
  -- The steps to a database that has its schema.
  abbrev pub DatabaseAnswers : Config → Type 0
  DatabaseAnswers cfg =
      (w : W) × (host.open_database (driver_of host.env cfg) cfg.database_url ≡ ok w)
      × (host.ping_database w ≡ none)
      × (content : String) × (host.read_file (migration_path host.is_missing) ≡ ok content)
      × IsOk (db.exec content [] w).0

  abbrev pub RedisAnswers : Config → Type 0
  RedisAnswers cfg =
      (c : C) × (host.redis_client cfg.redis_url ≡ ok c) × Answered (host.redis_pings c) 0 10

  -- What is configured answers.
  abbrev pub IsReady : Config → Type 0
  IsReady cfg =
      ((uses_database cfg ≡ false) ⊎ DatabaseAnswers cfg)
      × ((str_eq cfg.broker_type "redis" ≡ false) ⊎ RedisAnswers cfg)

  open_and_migrate-IsUp : (cfg : Config) → IsUp (open_and_migrate db host cfg) ↔ DatabaseAnswers cfg
  open_and_migrate-IsUp cfg = (
    λ h.
        let (w, opened, h1) =
          up_of
            (or_exit "Failed to initialize PostgreSQL database connection"
              (host.open_database (driver_of host.env cfg) cfg.database_url))
            _ h in
        let (u, pinged, h2) =
          up_of (exit_on "Failed to ping PostgreSQL database" (host.ping_database w)) _ h1 in
        let (content, was_read, h3) =
          up_of
            (or_exit "Failed to read schema migrations file"
              (host.read_file (migration_path host.is_missing)))
            _ h2 in
        let (w', executed, h4) =
          up_of
            (or_exit "Failed to apply database DDL migrations" (after_exec (db.exec content [] w)))
            _ h3 in
        (
          w,
          or_exit-up "Failed to initialize PostgreSQL database connection" _ opened,
          exit_on-up "Failed to ping PostgreSQL database" _ pinged,
          content,
          or_exit-up "Failed to read schema migrations file" _ was_read,
          after_exec-ok (db.exec content [] w)
              (or_exit-up "Failed to apply database DDL migrations" _ executed),
        ),
    λ (w, opened, pinged, content, was_read, executed).
        let (w', done) = IsOk-after_exec (db.exec content [] w) executed in
        (some w', rw (opened, pinged, was_read, done) refl),
  )

  init_database-IsUp :
      (cfg : Config)
      → IsUp (init_database db host cfg) ↔ (uses_database cfg ≡ true → DatabaseAnswers cfg)
  unfolding init_database
  init_database-IsUp cfg = elim (Bool-cases (uses_database cfg)) [
    | inl used ↦
        let both = open_and_migrate-IsUp cfg in rw used (λ h _. both.0 h, λ h. both.1 (h refl))
    | inr unused ↦ rw unused (λ _ h. cc, λ _. (none, refl))
  ]

  connect_redis-IsOk :
      (r : Fallible C)
      → IsOk (connect_redis db host r) ↔ ((c : C) × (r ≡ ok c) × Answered (host.redis_pings c) 0 10)
  unfolding new_redis_broker
  connect_redis-IsOk (err e) = (λ (a, h). cc, λ (c, h, _). cc)
  connect_redis-IsOk (ok c) = elim (new_redis_broker-pings (host.redis_pings c) c 10000) [
    | inl (answered, made) ↦ (λ _. (c, refl, answered), λ _. (_, made))
    | inr (e, (fail, _), gone) ↦ (
      λ (a, h). let clash : ok a ≡ err e = cc in cc,
      λ (c', same, (k, low, high, heard)).
          let own : c ≡ c' = ok-injective same in
          elim (fail k low high (ap (λ x. host.redis_pings x k) own ∙ heard)) [ ],
    )
  ]

  init_broker-IsUp :
      (cfg : Config)
      → IsUp (init_broker db host cfg) ↔ (str_eq cfg.broker_type "redis" ≡ true → RedisAnswers cfg)
  unfolding init_broker
  init_broker-IsUp cfg =
      let r = connect_redis db host (host.redis_client cfg.redis_url) in
      let both = connect_redis-IsOk (host.redis_client cfg.redis_url) in
      let connected = or_exit "Failed to initialize Redis event broker" r in
      elim (Bool-cases (str_eq cfg.broker_type "redis")) [
        | inl used ↦ rw used (
          λ h _.
              let (b, made, _) = up_of connected (λ b. up (over_redis b)) h in
              both.0 (b, or_exit-up "Failed to initialize Redis event broker" r made),
          λ h.
              let (b, made) = both.1 (h refl) in
              up_then connected (λ b. up (over_redis b))
                (ap (or_exit "Failed to initialize Redis event broker") made) (over_redis b, refl),
        )
        | inr unused ↦ rw unused (λ _ h. cc, λ _. (in_memory (new_in_memory_broker 10000), refl))
      ]

  -- The monolith starts exactly when what is configured answers: with a database, it can be opened and
  -- pinged, the migrations can be read, and executing them succeeds; with Redis, the URL parses and one
  -- of the first ten pings is answered.
  pub boot_iff_IsReady : (now : Time) → IsUp (boot db host now) ↔ IsReady (load_config host.env)
  unfolding boot
  boot_iff_IsReady now =
      let cfg = load_config host.env in
      (
        λ h.
            let (sql_db, opened, h1) = up_of (init_database db host cfg) _ h in
            let (event_broker, connected, h2) = up_of (init_broker db host cfg) _ h1 in
            (
              unneeded_or (uses_database cfg) ((init_database-IsUp cfg).0 (sql_db, opened)),
              unneeded_or (str_eq cfg.broker_type "redis")
                  ((init_broker-IsUp cfg).0 (event_broker, connected)),
            ),
        λ (database, redis).
            let (sql_db, opened) =
              (init_database-IsUp cfg).1 (needed (uses_database cfg) database) in
            let (event_broker, connected) =
              (init_broker-IsUp cfg).1 (needed (str_eq cfg.broker_type "redis") redis) in
            up_then (init_database db host cfg) _ opened
              (up_then (init_broker db host cfg) _ connected (_, refl)),
      )

  -- Where the environment sets neither DATABASE_TYPE nor BROKER_TYPE the monolith starts, whatever the
  -- host answers, with the repositories, the tracker and the broker of the cluster in memory.
  pub boot_default :
      (now : Time) (c : C)
      → lookup "DATABASE_TYPE" host.env ≡ none
      → lookup "BROKER_TYPE" host.env ≡ none
      → let cfg = load_config host.env in
        let w = new_cluster 10000 now c in
        boot db host now
        ≡ up (record {
          log_handler = setup_logger cfg.log_format;
          stores = memory_stores w.fraud_repo w.marketing_repo w.tracker;
          event_broker = in_memory w.broker;
          crm_adapter = new_crm_adapter cfg.crm_url;
        })
  unfolding boot init_database init_broker load_config get_env new_cluster stores_of
  boot_default now c no_database no_redis = rw (no_database, no_redis) refl

-- ===== src/Deploy/Entrypoint.antt =====
-- docker-entrypoint.sh: the migrations, and the service after them.
use mathlib.Core.List.{append-nil, append_assoc}
use content_approval.Common.{
  String, ◌≡◌, refl, ap, ◌∙◌, Bool, true, false, eq_refl, Option, none, some, or_else, find, List,
  [], ◌∷◌, ◌++◌, All, All-imp, sym, not, ◌&&◌, ◌||◌, if◌then◌else◌,
}
use content_approval.Db.Engine.{Engine, create_engine}
use content_approval.Observability.Formatter.{value_of-set_item}
use content_approval.Schema.{Table}
use content_approval.Schema.Declared.{metadata}
use content_approval.Schema.Initial.{upgrade}
use content_approval.Schema.Run.{Catalog, is_table, execute_all}
use content_approval.Schema.Migrated.{IsBare, upgrade-adds, upgrade-declared}
use content_approval.Deploy.Settings.{Environ, settings_of, get_settings}
use content_approval.Deploy.Service.{
  RootLogger, Service, Client, started, engines_for, IsEngineOf, started-IsEngineOf,
}
use content_approval.Deploy.Environment.{
  Event, file_configured, configured, connected, closed, disposed, Migrating, Alembic, with_tables,
  get_url, env_py, run_migrations_offline, run_async_migrations, do_run_migrations, tables_at,
}

abbrev pub of_file : Option String → List Event
of_file none = []
of_file (some name) = file_configured name ∷ []

-- Whether what the revisions left lasts, by whether they returned, whether the database undoes changes
-- of tables, and whether it ends with the connection.
abbrev pub lasts : Bool → Bool → Bool → Bool
lasts returned transactional is_private = not is_private && (returned || not transactional)

-- The calls from the connection on.
abbrev pub calls : String → Bool → List Event
calls url returned =
    connected url
    ∷ configured url metadata
    ∷ closed url
    ∷ (if returned then disposed url ∷ [] else [])

-- The events of a list, one after the other.
abbrev noted : List Event → List Event → List Event
noted [] events = events
noted (event ∷ rest) events = noted rest (events ++ event ∷ [])

noted-append : (added events : List Event) → noted added events ≡ events ++ added
noted-append [] events = sym (append-nil events)
noted-append (event ∷ rest) events =
    noted-append rest (events ++ event ∷ []) ∙ append_assoc events (event ∷ []) rest

module _ (environ : Environ) (alembic : Alembic) where
  abbrev pub url : String
  url = (settings_of environ).database_url

  -- What the revisions do with the tables that a connection finds.
  abbrev pub revised : Migrating → Bool × Catalog
  revised s = alembic.run_migrations (tables_at alembic url s.databases)

  abbrev pub kept : Migrating → Bool × Catalog → Bool → Bool → String → Catalog
  kept s left transactional is_private =
      if lasts left.0 transactional is_private
      then with_tables url left.1 s.databases
      else s.databases

  abbrev end_of : Migrating → Bool × Catalog → Bool → Bool → Bool × Migrating
  end_of s left transactional is_private = (
    left.0,
    record {
      databases = kept s left transactional is_private;
      events = noted (calls url left.0) s.events;
    },
  )

  online :
      (s : Migrating) (returned transactional is_private : Bool) (tables : Catalog)
      → revised s ≡ (returned, tables)
      → alembic.transactional_ddl url ≡ transactional
      → alembic.is_private url ≡ is_private
      → run_async_migrations environ alembic s
        ≡ end_of s (returned, tables) transactional is_private
  unfolding run_async_migrations do_run_migrations get_url get_settings
  online s true transactional true tables runs ddl own =
      rw (value_of-set_item "sqlalchemy.url" url alembic.section, ddl, runs, own) refl
  online s true transactional false tables runs ddl own =
      rw (value_of-set_item "sqlalchemy.url" url alembic.section, ddl, runs, own) refl
  online s false true true tables runs ddl own =
      rw (value_of-set_item "sqlalchemy.url" url alembic.section, ddl, runs) refl
  online s false true false tables runs ddl own =
      rw (value_of-set_item "sqlalchemy.url" url alembic.section, ddl, runs) refl
  online s false false true tables runs ddl own =
      rw (value_of-set_item "sqlalchemy.url" url alembic.section, ddl, runs, own) refl
  online s false false false tables runs ddl own =
      rw (value_of-set_item "sqlalchemy.url" url alembic.section, ddl, runs, own) refl

  abbrev filed : Migrating → Migrating
  filed s = record s { events = noted (of_file alembic.config_file_name) s.events }

  env_py-online :
      (file : Option String) (s : Migrating)
      → alembic.config_file_name ≡ file
      → env_py environ alembic false s ≡ run_async_migrations environ alembic (filed s)
  unfolding env_py
  env_py-online none s none_there = rw none_there
  env_py-online (some name) s there = rw there

  pub env_py-ended :
      (s : Migrating)
      → env_py environ alembic false s
        ≡ end_of (filed s) (revised s) (alembic.transactional_ddl url) (alembic.is_private url)
  env_py-ended s =
      env_py-online alembic.config_file_name s refl
      ∙ online (filed s) (revised s).0 (alembic.transactional_ddl url) (alembic.is_private url)
          (revised s).1 refl refl refl

  printed-Untouched :
      (s : Migrating) (file : Option String) (returns transactional : Bool)
      → alembic.config_file_name ≡ file
      → alembic.print_migrations ≡ returns
      → alembic.transactional_ddl url ≡ transactional
      → (env_py environ alembic true s).1.databases ≡ s.databases
  unfolding env_py run_migrations_offline get_url get_settings
  printed-Untouched s none true t file prints ddl = rw (file, prints) refl
  printed-Untouched s none false true file prints ddl = rw (file, prints, ddl) refl
  printed-Untouched s none false false file prints ddl = rw (file, prints, ddl) refl
  printed-Untouched s (some name) true t file prints ddl = rw (file, prints) refl
  printed-Untouched s (some name) false true file prints ddl = rw (file, prints, ddl) refl
  printed-Untouched s (some name) false false file prints ddl = rw (file, prints, ddl) refl

  -- Whatever URL the ini file has: online, env.py returns where the revisions return on the tables
  -- that a connection to the URL of the settings finds. What they left lasts where they returned, or
  -- where the database does not undo changes of tables, unless the database ends with its connection;
  -- then the database of that URL has it, and no other changed. Otherwise no database changed. The
  -- connection is closed, and the engine is disposed where they returned. Offline, no database
  -- changes.
  pub env_py-Ends :
      (s : Migrating)
      → ((env_py environ alembic false s).0 ≡ (revised s).0)
        × ((env_py environ alembic false s).1.databases
            ≡ kept s (revised s) (alembic.transactional_ddl url) (alembic.is_private url))
        × ((env_py environ alembic false s).1.events
            ≡ s.events ++ of_file alembic.config_file_name ++ calls url (revised s).0)
        × ((env_py environ alembic true s).1.databases ≡ s.databases)
  env_py-Ends s =
      let end = env_py-ended s in
      (
        ap (λ x. x.0) end,
        ap (λ x. x.1.databases) end,
        ap (λ x. x.1.events) end
            ∙ noted-append (calls url (revised s).0)
                (noted (of_file alembic.config_file_name) s.events)
            ∙ ap (λ events. events ++ calls url (revised s).0)
                (noted-append (of_file alembic.config_file_name) s.events),
        printed-Untouched s alembic.config_file_name alembic.print_migrations
            (alembic.transactional_ddl url) refl refl refl,
      )

-- `set -e`: the service starts where the migrations returned.
abbrev pub started_if : Environ → RootLogger → Bool → Option Service
started_if environ root true = some (started environ root)
started_if environ root false = none

-- `alembic upgrade head`, which is not the offline mode, and `exec uvicorn`.
unfoldable pub entrypoint : Environ → Alembic → RootLogger → Migrating → Option Service × Migrating
entrypoint environ alembic root s =
    let (migrated, s') = env_py environ alembic false s in (started_if environ root migrated, s')

-- The tables that a connection of an engine finds by their names: those of the models, and those of
-- before.
abbrev pub HasTables : Alembic → Catalog → Migrating → Engine → Type 0
HasTables alembic before s e =
    (name : String)
    → find (is_table name) (tables_at alembic e.url s.databases)
      ≡ or_else (find (is_table name) before) (find (is_table name) metadata)

-- What the execution of operations on tables leaves, and whether it returns.
abbrev pub executed : Catalog → Option Catalog → Bool × Catalog
executed before none = (false, before)
executed before (some after) = (true, after)

upgraded :
    (before tables : Catalog) (name : String)
    → IsBare before
    → execute_all upgrade before ≡ some tables
    → find (is_table name) tables
      ≡ or_else (find (is_table name) before) (find (is_table name) metadata)
upgraded before tables name bare runs =
    let declared = upgrade-declared before bare name in cc (rw runs at declared)

module _ (environ : Environ) (alembic : Alembic) (root : RootLogger) (s : Migrating) where
  at_url :
      (before tables : Catalog)
      → alembic.is_private (settings_of environ).database_url ≡ false
      → IsBare before
      → execute_all upgrade before ≡ some tables
      → (events : List Event) (e : Engine) → IsEngineOf (settings_of environ) e
      → HasTables alembic before
          (record {
            databases = with_tables (settings_of environ).database_url tables s.databases;
            events = events;
          })
          e
  unfolding create_engine
  at_url before tables lives bare runs events e (made, _) name =
      rw (made, lives, eq_refl (settings_of environ).database_url)
        (upgraded before tables name bare runs)

  -- The tables of the database, and the table of the versions that alembic makes.
  abbrev pub versioned : Table → Catalog
  versioned versions = s.databases (settings_of environ).database_url ++ versions ∷ []

  revised_there :
      (ran : Bool × Catalog)
      → alembic.is_private (settings_of environ).database_url ≡ false
      → alembic.run_migrations (s.databases (settings_of environ).database_url) ≡ ran
      → revised environ alembic s ≡ ran
  revised_there ran lives runs = rw (revised, lives) runs

  served :
      (versions : Table) (tables : Catalog) (later : List (Client × Environ))
      → alembic.is_private (settings_of environ).database_url ≡ false
      → alembic.run_migrations (s.databases (settings_of environ).database_url) ≡ (true, tables)
      → execute_all upgrade (versioned versions) ≡ some tables
      → IsBare (versioned versions)
      → ((entrypoint environ alembic root s).0 ≡ some (started environ root))
        × All
            (HasTables alembic (versioned versions) (entrypoint environ alembic root s).1)
            (engines_for later (started environ root))
  unfolding entrypoint
  served versions tables later lives runs upgrades bare =
      let end = env_py-ended environ alembic s in
      let there = revised_there (true, tables) lives runs in
      rw (end, there, lives)
        (
          refl,
          All-imp (IsEngineOf (settings_of environ)) _ (engines_for later (started environ root))
              (at_url (versioned versions) tables lives bare upgrades (
                noted (calls (settings_of environ).database_url true)
                  (noted (of_file alembic.config_file_name) s.events)))
              (started-IsEngineOf environ root later),
        )

  -- Where the database of the settings does not end with a connection, and alembic, which finds the
  -- tables of that database, runs the upgrade on them and its table of versions, and none of them has
  -- a name of the service or refers to its tables: the entry point starts the service, and however the
  -- environment changes later, a connection of a session or a ping finds by their names the tables
  -- that the models declare, and all that were there before.
  pub entrypoint-HasTables :
      (versions : Table) (later : List (Client × Environ))
      → alembic.is_private (settings_of environ).database_url ≡ false
      → alembic.run_migrations (s.databases (settings_of environ).database_url)
        ≡ executed (versioned versions) (execute_all upgrade (versioned versions))
      → IsBare (versioned versions)
      → ((entrypoint environ alembic root s).0 ≡ some (started environ root))
        × All
            (HasTables alembic (versioned versions) (entrypoint environ alembic root s).1)
            (engines_for later (started environ root))
  entrypoint-HasTables versions later lives runs bare =
      let upgrades = upgrade-adds (versioned versions) bare in
      served versions _ later lives (runs ∙ ap (executed (versioned versions)) upgrades) upgrades
        bare

-- ===== src/Deploy/Environment.antt =====
-- migrations/env.py: what alembic runs around the revisions.
use content_approval.Common.{
  String, Bool, true, false, ◌==◌, Option, none, some, List, [], ◌∷◌, ◌++◌, if◌then◌else◌,
}
use content_approval.Observability.{set_item}
use content_approval.Observability.Formatter.{value_of}
use content_approval.Schema.Declared.{metadata}
use content_approval.Schema.Run.{Catalog}
use content_approval.Deploy.Settings.{Environ, get_settings}

-- The calls that env.py makes of alembic and of an engine, the database by its URL, and the exits of
-- the connection.
pub data Event : Type 0 where
  file_configured : String → Event
  configured : String → Catalog → Event
  connected closed disposed : String → Event
  printed : Event

-- The tables of the databases, by their URLs, and the calls so far.
pub record Migrating : Type 0 where
  pub databases : String → Catalog
  pub events : List Event

-- Whether it returned, or raised.
abbrev pub Migration : Type 0
Migration = Migrating → Bool × Migrating

-- What `context` and `config` of alembic have.
pub record Alembic : Type 0 where
  pub config_file_name : Option String
  -- `config.get_section(config.config_ini_section, {})`
  pub section : List (String × String)
  -- `context.run_migrations()` on a connection that finds these tables: whether it returned, and the
  -- tables that the revisions left, all of them or, after an exception, those before it
  pub run_migrations : Catalog → Bool × Catalog
  -- `context.run_migrations()` without one, which prints: whether it returned
  pub print_migrations : Bool
  -- whether the database of a URL undoes changes of tables with a transaction: Postgres does, and on
  -- SQLite `begin_transaction` around `run_migrations` begins none
  pub transactional_ddl : String → Bool
  -- whether a connection to a URL has a database of its own, which ends with it: one in memory
  pub is_private : String → Bool

abbrev note : Event → Migration
note event s = (true, record s { events = s.events ++ event ∷ [] })

abbrev after : Bool × Migrating → Migration → Bool × Migrating
after (true, s) k = k s
after (false, s) k = (false, s)

infixl 5 ◌>>◌
abbrev ◌>>◌ : Migration → Migration → Migration
◌>>◌ m k s = after (m s) k

-- The exit of `with context.begin_transaction()`: an exception in a transaction undoes what it did.
abbrev pub leave_transaction : Bool → (String → Catalog) → Bool × Migrating → Bool × Migrating
leave_transaction transactional before (true, s) = (true, s)
leave_transaction true before (false, s) = (false, record s { databases = before })
leave_transaction false before (false, s) = (false, s)

abbrev in_transaction : Bool → Migration → Migration
in_transaction transactional body s = leave_transaction transactional s.databases (body s)

-- `async with connectable.connect()`
abbrev close : String → Bool × Migrating → Bool × Migrating
close url (ok, s) = (ok, record s { events = s.events ++ closed url ∷ [] })

abbrev with_connection : String → Migration → Migration
with_connection url body s = close url ((note (connected url) >> body) s)

abbrev pub with_tables : String → Catalog → (String → Catalog) → String → Catalog
with_tables url tables databases other = if other == url then tables else databases other

abbrev pub left_at : Bool → String → Catalog → (String → Catalog) → String → Catalog
left_at true url tables databases = databases
left_at false url tables databases = with_tables url tables databases

abbrev ran : Bool → String → Bool × Catalog → Migration
ran is_private url (returned, tables) s =
    (returned, record s { databases = left_at is_private url tables s.databases })

abbrev on_url : Option String → (String → Migration) → Migration
on_url none k s = (false, s)
on_url (some url) k s = k url s

-- The cache of the settings is empty when env.py is loaded.
unfoldable pub get_url : Environ → String
get_url environ = (get_settings environ none).0.database_url

-- The tables that a new connection to a URL finds.
abbrev pub tables_at : Alembic → String → (String → Catalog) → Catalog
tables_at alembic url databases = if alembic.is_private url then [] else databases url

module _ (environ : Environ) (alembic : Alembic) where
  unfoldable pub run_migrations_offline : Migration
  run_migrations_offline =
      note (configured (get_url environ) metadata)
      >> in_transaction (alembic.transactional_ddl (get_url environ))
          (note printed >> λ s. (alembic.print_migrations, s))

  unfoldable pub do_run_migrations : String → Migration
  do_run_migrations url =
      note (configured url metadata)
      >> in_transaction (alembic.transactional_ddl url) (λ s.
        ran (alembic.is_private url) url
          (alembic.run_migrations (tables_at alembic url s.databases)) s)

  -- The engine is the one of the key "sqlalchemy.url".
  unfoldable pub run_async_migrations : Migration
  unfolding do_run_migrations set_item
  run_async_migrations =
      let configuration = set_item "sqlalchemy.url" (get_url environ) alembic.section in
      on_url (value_of "sqlalchemy.url" configuration)
        (λ url. with_connection url (do_run_migrations url) >> note (disposed url))

  abbrev file_config : Option String → Migration
  file_config none s = (true, s)
  file_config (some name) s = note (file_configured name) s

  -- The module, by `context.is_offline_mode()`.
  unfoldable pub env_py : Bool → Migration
  unfolding run_migrations_offline run_async_migrations
  env_py offline =
      file_config alembic.config_file_name
      >> (if offline then run_migrations_offline else run_async_migrations)

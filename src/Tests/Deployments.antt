-- ===== src/Tests/Deployments.antt =====
-- A service that is started with docker-entrypoint.sh: the theorems of Deploy at work.
use content_approval.Common.{
  ◌≡◌, refl, ap, not, ◌&&◌, ◌++◌, ◌==◌, if◌then◌else◌, All, true, false, none, some, [], ◌∷◌,
}
use content_approval.Schema.Initial.{upgrade}
use content_approval.Schema.Run.{execute_all}
use content_approval.Db.Engine.{is_sqlite, is_in_memory}
use content_approval.Deploy.Settings.{Environ, settings_of}
use content_approval.Deploy.Service.{
  RootLogger, other, session, probe, started, engines_for, IsEngineOf, started-IsEngineOf,
}
use content_approval.Deploy.Environment.{file_configured, Migrating, Alembic, env_py}
use content_approval.Deploy.Entrypoint.{
  revised, kept, calls, executed, HasTables, entrypoint, env_py-Ends, entrypoint-HasTables,
}
use content_approval.Tests.Migrations.{version_table, versions, versions-IsBare}

-- docker-compose.yml
abbrev composed : Environ
composed name =
    if name == "APPROVAL_DATABASE_URL"
    then some "postgresql+asyncpg://approval:approval@db:5432/approval_service"
    else if name == "APPROVAL_ENV"
    then some "docker"
    else none

abbrev nothing_set : Environ
nothing_set name = none

-- The ini file names another database, and the revision makes its tables beside the version table.
abbrev alembic : Alembic
alembic = record {
  config_file_name = some "alembic.ini";
  section = ("sqlalchemy.url", "sqlite:///other.db") ∷ [];
  run_migrations = λ tables.
      executed (tables ++ version_table ∷ []) (execute_all upgrade (tables ++ version_table ∷ []));
  print_migrations = true;
  transactional_ddl = λ url. not (is_sqlite url);
  is_private = λ url. is_sqlite url && is_in_memory url;
}

-- The revisions raise after they made the version table.
abbrev refusing : Alembic
refusing = record alembic { run_migrations = λ tables. (false, version_table ∷ []) }

abbrev root : RootLogger
root = record { handlers = other "uvicorn" ∷ []; level = "WARNING" }

abbrev empty_server : Migrating
empty_server = record { databases = λ url. []; events = [] }

started-IsEngineOf_example : All (IsEngineOf (settings_of composed)) (
    engines_for
      ((probe, nothing_set) ∷ (session, composed) ∷ (session, nothing_set) ∷ [])
      (started composed root))
started-IsEngineOf_example =
    started-IsEngineOf composed root
      ((probe, nothing_set) ∷ (session, composed) ∷ (session, nothing_set) ∷ [])

env_py-Ends_example :
    ((env_py composed refusing false empty_server).0 ≡ (revised composed refusing empty_server).0)
    × ((env_py composed refusing false empty_server).1.databases
        ≡ kept composed refusing empty_server (revised composed refusing empty_server) true false)
    × ((env_py composed refusing false empty_server).1.events
        ≡ file_configured "alembic.ini" ∷ calls (settings_of composed).database_url false)
    × ((env_py composed refusing true empty_server).1.databases ≡ empty_server.databases)
unfolding settings_of
env_py-Ends_example = env_py-Ends composed refusing empty_server

-- On SQLite, the default, a file keeps what the revisions had done when they raised.
partly_done :
    (env_py nothing_set refusing false empty_server).1.databases
      (settings_of nothing_set).database_url
    ≡ version_table ∷ []
unfolding settings_of
partly_done =
    ap (λ d. d (settings_of nothing_set).database_url)
      (env_py-Ends nothing_set refusing empty_server).1

entrypoint-HasTables_example :
    ((entrypoint composed alembic root empty_server).0 ≡ some (started composed root))
    × All
        (HasTables alembic versions (entrypoint composed alembic root empty_server).1)
        (engines_for ((session, nothing_set) ∷ []) (started composed root))
unfolding settings_of
entrypoint-HasTables_example =
    entrypoint-HasTables composed alembic root empty_server version_table
      ((session, nothing_set) ∷ []) refl refl versions-IsBare

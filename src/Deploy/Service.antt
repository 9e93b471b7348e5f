-- ===== src/Deploy/Service.antt =====
-- A process of the service: create_app of app/main.py with configure_logging of
-- app/observability/logging.py, and the engine of app/db/session.py with the settings that it reads.
use Prim.Native.String.{◌++◌}
use content_approval.Common.{
  String, Bool, true, false, ◌≡◌, refl, ap, ◌∙◌, ◌⊎◌, inl, inr, Option, none, some, List, [], ◌∷◌,
  All,
}
use content_approval.Common
use content_approval.Db.Session.{LogRecord}
use content_approval.Db.Engine.{Engine, create_engine, get_engine, enforces, create_engine-enforces}
use content_approval.Deploy.Settings.{Settings, Environ, settings_of, get_settings}

-- A handler of the logging library, by its formatter.
pub data Handler : Type 0 where
  json_formatter : Handler
  -- one that somebody else installed
  other : String → Handler

pub record RootLogger : Type 0 where
  pub handlers : List Handler
  pub level : String

-- What `async_sessionmaker` is given.
pub record SessionMaker : Type 0 where
  pub bind : Engine
  pub expire_on_commit : Bool

-- What a process keeps: the three caches, the root logger and the lines that were logged.
pub record Service : Type 0 where
  pub settings : Option Settings
  pub engine : Option Engine
  pub sessionmaker : Option SessionMaker
  pub root : RootLogger
  pub log : List LogRecord

unfoldable pub configure_logging : String → RootLogger → RootLogger
configure_logging level root = record { handlers = json_formatter ∷ []; level = level }

pub record FastApi : Type 0 where
  pub title : String
  pub version : String

abbrev pub starting : Settings → LogRecord
starting settings = record {
  message = settings.app_name ++ " starting";
  context = ("env", settings.env) ∷ [];
}

-- The middleware, the handlers of exceptions and the routes that it adds are those of App.
unfoldable pub create_app : Environ → Service → FastApi × Service
unfolding get_settings configure_logging
create_app environ p =
    let (settings, kept) = get_settings environ p.settings in
    (
      record { title = settings.app_name; version = "0.1.0" },
      record p {
        settings = kept;
        root = configure_logging settings.log_level p.root;
        log = Common.◌++◌ p.log (starting settings ∷ []);
      },
    )

abbrev with_settings : Settings × Option Settings → Service → Engine × Service
with_settings (settings, kept) p =
    let (engine, kept_engine) = get_engine settings.database_url p.engine in
    (engine, record p { settings = kept; engine = kept_engine })

-- The settings are asked for where the cache has no engine.
abbrev by_cache : Environ → Option Engine → Service → Engine × Service
by_cache environ (some engine) p = (engine, p)
by_cache environ none p = with_settings (get_settings environ p.settings) p

-- `get_engine` in the process, with what the environment has at the time of the call.
unfoldable pub current_engine : Environ → Service → Engine × Service
unfolding get_engine get_settings
current_engine environ p = by_cache environ p.engine p

abbrev kept_maker : Engine × Service → SessionMaker × Service
kept_maker (engine, p) =
    let maker : SessionMaker = record { bind = engine; expire_on_commit = false } in
    (maker, record p { sessionmaker = some maker })

abbrev maker_by_cache : Environ → Option SessionMaker → Service → SessionMaker × Service
maker_by_cache environ (some maker) p = (maker, p)
maker_by_cache environ none p = kept_maker (current_engine environ p)

-- `get_sessionmaker` in the process.
unfoldable pub current_sessionmaker : Environ → Service → SessionMaker × Service
unfolding current_engine
current_sessionmaker environ p = maker_by_cache environ p.sessionmaker p

-- Who connects: `get_db` for a request, and `ping` for the probe.
pub data Client : Type 0 where
  session probe : Client

abbrev bound : SessionMaker × Service → Engine × Service
bound (maker, p) = (maker.bind, p)

unfoldable pub engine_for : Client → Environ → Service → Engine × Service
unfolding current_engine current_sessionmaker
engine_for session environ p = bound (current_sessionmaker environ p)
engine_for probe environ p = current_engine environ p

-- The engines on which clients connect one after the other, as the environment changes.
unfoldable pub engines_for : List (Client × Environ) → Service → List Engine
unfolding engine_for
engines_for [] p = []
engines_for ((client, environ) ∷ rest) p =
    let (engine, p') = engine_for client environ p in engine ∷ engines_for rest p'

-- A process before `create_app`, with whatever logging it found.
abbrev pub fresh : RootLogger → Service
fresh root = record { settings = none; engine = none; sessionmaker = none; root = root; log = [] }

abbrev pub started : Environ → RootLogger → Service
started environ root = (create_app environ (fresh root)).1

-- The engine for the database of the settings.
abbrev pub IsEngineOf : Settings → Engine → Type 0
IsEngineOf settings e = (e ≡ create_engine settings.database_url) × (enforces e ≡ true)

-- A process that has its settings, and no engine or theirs.
record IsBound (settings : Settings) (p : Service) : Type 0 where
  settled : p.settings ≡ some settings
  engine : (p.engine ≡ none) ⊎ (p.engine ≡ some (create_engine settings.database_url))
  maker :
      (p.sessionmaker ≡ none)
      ⊎ ((m : SessionMaker) × (p.sessionmaker ≡ some m)
          × (m.bind ≡ create_engine settings.database_url))

module _ (settings : Settings) (environ : Environ) (p : Service) (inv : IsBound settings p) where
  current_engine-IsBound :
      ((current_engine environ p).0 ≡ create_engine settings.database_url)
      × IsBound settings (current_engine environ p).1
  unfolding current_engine get_engine get_settings
  current_engine-IsBound = elim inv.engine [
    | inl missing ↦
        rw (missing, inv.settled)
          (refl, record { settled = refl; engine = inr refl; maker = inv.maker })
    | inr there ↦
        rw there (refl, record { settled = inv.settled; engine = inr refl; maker = inv.maker })
  ]

  by_maker :
      (o : Option SessionMaker)
      → (o ≡ none)
        ⊎ ((m : SessionMaker) × (o ≡ some m) × (m.bind ≡ create_engine settings.database_url))
      → ((bound (maker_by_cache environ o p)).0 ≡ create_engine settings.database_url)
        × IsBound settings (bound (maker_by_cache environ o p)).1
  by_maker none known =
      let (made, inv') = current_engine-IsBound in
      (made, record { settled = inv'.settled; engine = inv'.engine; maker = inr (_, refl, made) })
  by_maker (some m) (inl missing) = cc
  by_maker (some m) (inr (m', there, same)) = (cc (there, same), inv)

  engine_for-IsBound :
      (client : Client)
      → ((engine_for client environ p).0 ≡ create_engine settings.database_url)
        × IsBound settings (engine_for client environ p).1
  unfolding engine_for current_sessionmaker
  engine_for-IsBound probe = current_engine-IsBound
  engine_for-IsBound session = by_maker p.sessionmaker inv.maker

engines_for-IsBound :
    (settings : Settings) (clients : List (Client × Environ)) (p : Service)
    → IsBound settings p
    → All (IsEngineOf settings) (engines_for clients p)
unfolding engines_for
engines_for-IsBound settings [] p inv = tt
engines_for-IsBound settings ((client, environ) ∷ rest) p inv =
    let (made, inv') = engine_for-IsBound settings environ p inv client in
    (
      (made, ap enforces made ∙ create_engine-enforces settings.database_url),
      engines_for-IsBound settings rest (engine_for client environ p).1 inv',
    )

-- Whatever the environment has later: in a process that ran create_app, every session of get_db and
-- every ping connects on the engine for the database URL of the settings that create_app read, and
-- that engine enforces the foreign keys: it is not one of SQLite, or it sets the pragma on its
-- connections.
pub started-IsEngineOf :
    (environ : Environ) (root : RootLogger) (later : List (Client × Environ))
    → All (IsEngineOf (settings_of environ)) (engines_for later (started environ root))
unfolding create_app get_settings
started-IsEngineOf environ root later =
    engines_for-IsBound (settings_of environ) later (started environ root)
      (record { settled = refl; engine = inl refl; maker = inl refl })

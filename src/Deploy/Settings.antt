-- ===== src/Deploy/Settings.antt =====
-- app/config.py: the settings and their cache.
use content_approval.Common.{String, Option, none, some}
use content_approval.Db.Engine.{cached}

pub record Settings : Type 0 where
  pub app_name : String
  pub env : String
  pub database_url : String
  pub log_level : String

-- What the environment, and `.env` after it, have for a variable.
abbrev pub Environ : Type 0
Environ = String → Option String

abbrev pub or_default : Option String → String → String
or_default none default = default
or_default (some value) default = value

-- `Settings()`, with the prefix of `env_prefix`.
unfoldable pub settings_of : Environ → Settings
settings_of environ = record {
  app_name = or_default (environ "APPROVAL_APP_NAME") "approval-service";
  env = or_default (environ "APPROVAL_ENV") "local";
  database_url =
      or_default (environ "APPROVAL_DATABASE_URL") "sqlite+aiosqlite:///./approval_service.db";
  log_level = or_default (environ "APPROVAL_LOG_LEVEL") "INFO";
}

-- `get_settings`, by what its cache holds.
unfoldable pub get_settings : Environ → Option Settings → Settings × Option Settings
get_settings environ cache = cached cache (settings_of environ)

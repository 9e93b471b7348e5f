-- ===== src/Db/Session.antt =====
-- app/db/session.py and the session that it hands out: what a request reads and writes, the rows
-- that wait for a flush, and the transaction around a handler.
pub mod Flush
pub mod Transaction
pub mod Keeps
pub mod Atomic
use mathlib.Core.List.{Permᴰ}
use content_approval.Common.{ℕ, suc, String, List, [], ◌∷◌, ◌++◌, if◌then◌else◌}
use content_approval.Domain.DateTime.{UtcOffset, DateTime, aware, utc}
use content_approval.Domain.Exceptions.{Failure, integrity_error}
use content_approval.Db.Models.{AuditLogEntry, OutboxEvent, IdempotencyKey, Db}

pub data Dialect : Type 0 where
  sqlite : Dialect
  -- with the offset of the connection's time zone
  postgres : UtcOffset → Dialect

-- An order in which the same texts can be answered.
pub record Arrangement : Type 0 where
  pub arrange : List String → List String
  pub permutes : (xs : List String) → Permᴰ xs (arrange xs)

-- A row that waits for the default of its `created_at`, which the flush fills in.
pub data NewRow : Type 0 where
  new_audit : (DateTime → AuditLogEntry) → NewRow
  new_event : (DateTime → OutboxEvent) → NewRow
  new_key : (DateTime → IdempotencyKey) → NewRow

pub record LogRecord : Type 0 where
  pub message : String
  pub context : List (String × String)

-- The database as the transaction sees it, the rows added and not flushed, the answers that
-- `secrets.token_hex(12)` and the clock will give, and the log lines written.
pub record World : Type 0 where
  pub db : Db
  pub new : List NewRow
  pub tokens : ℕ → String
  pub clock : ℕ → ℕ
  pub dialect : Dialect
  -- in which order the database answers a query of a request's reviewers, which asks for none
  pub reviewers_order : Arrangement
  pub log : List LogRecord

pub data Outcome {ℓ} (A : Type ℓ) : Type ℓ where
  returned : A → World → Outcome A
  raised : Failure → World → Outcome A

abbrev pub Exec {ℓ} : Type ℓ → Type ℓ
Exec A = World → Outcome A

-- An exception skips what follows.
abbrev pub and_then {ℓ κ} : {A : Type ℓ} {B : Type κ} → Outcome A → (A → Exec B) → Outcome B
and_then (returned a w) f = f a w
and_then (raised e w) f = raised e w

infixl 5 ◌>>=◌ ◌>>◌
abbrev pub ◌>>=◌ {ℓ κ} : {A : Type ℓ} {B : Type κ} → Exec A → (A → Exec B) → Exec B
◌>>=◌ m f w = and_then (m w) f

abbrev pub ◌>>◌ {ℓ κ} : {A : Type ℓ} {B : Type κ} → Exec A → Exec B → Exec B
m >> k = m >>= λ _. k

module _ {ℓ} {A : Type ℓ} where
  abbrev pub pure : A → Exec A
  pure a w = returned a w

  abbrev pub raise : Failure → Exec A
  raise e w = raised e w

  abbrev pub gets : (World → A) → Exec A
  gets f w = returned (f w) w

  abbrev pub world_of : Outcome A → World
  world_of (returned a w) = w
  world_of (raised e w) = w

-- What the caller sees of an outcome, and what it leaves in the database.
pub data Result {ℓ} (A : Type ℓ) : Type ℓ where
  ok : A → Result A
  err : Failure → Result A

module _ {ℓ} {A : Type ℓ} where
  abbrev pub answer : Outcome A → Result A
  answer (returned a w) = ok a
  answer (raised e w) = err e

  abbrev pub effect : Outcome A → Result A × Db
  effect o = (answer o, (world_of o).db)

-- `secrets.token_hex(12)`
abbrev pub token_hex : Exec String
token_hex w = returned (w.tokens 0) (record w { tokens = λ n. w.tokens (suc n) })

-- `_utcnow` of models.py and `datetime.now(UTC)`
abbrev pub utcnow : Exec DateTime
utcnow w = returned (aware (w.clock 0) utc) (record w { clock = λ n. w.clock (suc n) })

abbrev pub modify_db : (Db → Db) → Exec (Unit {0})
modify_db f w = returned tt (record w { db = f w.db })

abbrev pub logger_info : String → List (String × String) → Exec (Unit {0})
logger_info message context w =
    returned tt (record w { log = w.log ++ record { message = message; context = context } ∷ [] })

-- `session.add`
abbrev pub add : NewRow → Exec (Unit {0})
add row w = returned tt (record w { new = w.new ++ row ∷ [] })

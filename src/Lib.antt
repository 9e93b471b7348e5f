-- ===== src/Lib.antt =====
-- A verification library for the approval service under app/: requests for approval that the users of a
-- workspace create, approve, reject and cancel, with an audit trail, an outbox of events and idempotent
-- retries.
--
-- The parts and the files that model them:
--   Domain/Enums, Domain/Entities, Domain/Exceptions   app/domain/enums.py, entities.py, exceptions.py
--   Domain/DateTime     what the code tests and converts of Python's datetime
--   Domain/Service      app/domain/service.py: create_request, get_request, list_requests,
--                       approve_request, reject_request, cancel_request, _get_or_raise,
--                       _require_reviewer, _decide
--   Domain/Repository   app/domain/repository.py, the port, with app/db/repository.py behind it
--   Domain/Changes      the committed operations as a relation between databases, their histories, and
--                       what these leave alone
--   Domain/Interleaved  decisions of app/domain/service.py whose transactions overlap, alone or under a key
--                       of app/api/idempotency.py, and their schedules
--   Db/Models           app/db/models.py, a table as the list of its rows in the order of insertion
--   Db/Session          app/db/session.py: the session, its flush and the transaction of get_db
--   Db/Engine           get_engine of app/db/session.py
--   Db/Repository       app/db/repository.py, and generate_id of app/domain/ids.py
--   Db/Integrity        the keys of app/db/models.py as an invariant
--   Auth                app/auth: the principal, the checks of a route, the stub provider and its tokens
--   Observability       app/observability/redaction.py and the formatter of logging.py
--   Api/Schemas         app/schemas/approval_request.py: bounds, validators, response models
--   Api/Errors          app/api/errors.py
--   Api/Idempotency     app/api/idempotency.py, and in Race two runs with one key that overlap
--   Api/Routes          app/api/v1/approval_requests.py, and sequences of requests
--   App                 app/main.py, app/observability/middleware.py and context.py, ping of
--                       app/db/session.py, and the handlers of exceptions of app/api/errors.py,
--                       around the routes; its children follow a request through all parts to its
--                       response: Authorized, Decided, Retried, Untold, Refusals
--   Schema              the tables that app/db/models.py declares, with the naming of app/db/base.py, and
--                       upgrade and downgrade of migrations/versions/1fe27f129dda_initial_schema.py
--   Deploy              app/config.py, create_app of app/main.py, configure_logging of
--                       app/observability/logging.py, migrations/env.py and docker-entrypoint.sh
--   Common, Tests       shared helpers; data and examples
--
-- A route checks the principal, validates header and body, and runs its handler in one transaction; the
-- handler of a writing route runs under its idempotency key and calls the service, which calls the
-- repository, which reads and writes the session. An operation is a function from a World to an Outcome,
-- a value or an exception with the World after it. A World is the database as the transaction sees it,
-- the rows that were added and wait for a flush, the log lines, and two streams of answers: the tokens
-- that secrets.token_hex will give and the readings of the clock. So nothing is assumed of fresh
-- identifiers or of the clock; where a theorem needs an identifier to be unused it says so.
--
-- How the database is modelled. A query is a filter of its table; scalar_one_or_none on two rows raises.
-- An insertion is refused with an integrity error when its primary key is taken or the row that its
-- foreign key names is missing. get_db starts with nothing waiting, flushes when the handler returns, and
-- puts the old database back when anything raised; the log is not rolled back. A stored time is read back
-- as the dialect has it: SQLite drops the zone, Postgres keeps the instant. The query of a request's
-- reviewers has no ORDER BY: a World has the order in which its database answers them, any arrangement of
-- the texts by what they are, the same for each query of it. Texts are ordered by the
-- numbers of their characters. Queries of the code run when no row waits, so the flush before a query is
-- left out, but for the flush of create. An update of rows is seen by the reads that follow it in its
-- transaction: the identity map of the session is not modelled. The order in which a flush inserts is that
-- in which the rows were added. Whether the response is sent before the commit or after it is not
-- modelled: the answer of a transaction is the one that counts its commit.
--
-- Parameters stand for code that is not in the repository: pydantic's dump and its reader, json.dumps,
-- SHA-256, the report of a failed validation (the record Libraries, with the one law that a dumped
-- response is read back as it was), casefold, base64 and json.loads (TokenLibrary), their inverses
-- (TokenWriter), str.lower, and the authentication provider. A request comes with values of their types:
-- parsing JSON and the names of its fields are pydantic's. The dependencies of a route run before its
-- header and its body are validated, as FastAPI does.
--
-- Transactions that overlap. A served request is one step; Domain/Interleaved and Api/Idempotency/Race
-- take a request apart into what it reads first and what it writes and commits, in two worlds, with
-- commits of others in between. The writing of a decision is one event with its commit: the conditional
-- UPDATE reads the row again as it is committed and holds its lock until the end of the transaction, so a
-- second UPDATE of the row waits. In the schedules creations and decisions can be under a key.
--
-- Schema/Run says what an operation of a migration does to a list of tables and when a database refuses
-- it: a name that is taken or missing, a foreign key without a key of those columns, a table that another
-- refers to. A foreign key is checked when its table is made and kept with it.
--
-- The application runs the handlers of the exceptions in the middleware and the handler of `Exception`
-- outside of it, as Starlette builds its stack. A log line is kept with the value that the context
-- variable had when the line was formatted. What the server does with the exception that is raised again
-- after the response of the last resort is not modelled.
--
-- Deploy starts the service: env.py as a run over the databases, by their URLs, that lists the calls it
-- makes and stops at an exception, and a process with its three caches, of the settings, the engine and
-- the maker of sessions. What the environment and .env have for a variable, what alembic has in its ini
-- file and what its revisions make of the tables that a connection finds are parameters, with two facts of
-- a URL: whether its database undoes changes of tables with a transaction (Postgres does; on SQLite, the
-- default of the settings, env.py's begin_transaction begins none, and what the revisions did before an
-- exception stays), and whether each connection to it has a database of its own (SQLite in memory). Any
-- other URL names one database.
--
-- Every function is total by structural recursion; there is no fuel. Not modelled: the levels of log
-- lines, and which of them the root logger drops.
pub mod Common
pub mod Domain
pub mod Db
pub mod Auth
pub mod Observability
pub mod Api
pub mod App
pub mod Schema
pub mod Deploy
pub mod Tests

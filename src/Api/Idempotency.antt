-- ===== src/Api/Idempotency.antt =====
-- app/api/idempotency.py: `fingerprint` and `run_idempotent`.
pub mod Split
pub mod Replay
pub mod Again
pub mod Race
use content_approval.Common.{ℕ, String, Bool, not, ◌==◌, Option, none, some, find, if◌then◌else◌}
use content_approval.Domain.Exceptions.{Failure, http_exception, integrity_error, validation_error}
use content_approval.Domain.DateTime.{DateTime}
use content_approval.Db.Models.{JsonObject, IdempotencyKey}
use content_approval.Db.Session.{
  Outcome, returned, raised, Exec, ◌>>=◌, ◌>>◌, pure, raise, gets, NewRow, new_key, add,
}
use content_approval.Db.Session.Flush.{is_entry, flush}
use content_approval.Api.Schemas.{ApprovalRequestOut, Libraries}

-- What a handler of a route returns: the response and its status code.
abbrev pub Reply : Type 0
Reply = ApprovalRequestOut × ℕ

abbrev pub used_with_another_body : Failure
used_with_another_body =
    http_exception 409 "Idempotency-Key was already used with a different request body"

abbrev pub being_processed : Failure
being_processed =
    http_exception 409 "Idempotency-Key is already being processed by a concurrent request"

-- `except IntegrityError` around the flush.
abbrev pub or_conflict : Outcome (Unit {0}) → Outcome (Unit {0})
or_conflict (raised integrity_error w) = raised being_processed w
or_conflict o = o

module _ (lib : Libraries) where
  abbrev pub fingerprint : JsonObject → String
  fingerprint payload = lib.sha256_hexdigest (lib.dumps payload)

  abbrev pub key_row : String → String → String → JsonObject → Reply → DateTime → IdempotencyKey
  key_row workspace_id route key payload (response, status_code) created = record {
    workspace_id = workspace_id;
    route = route;
    idempotency_key = key;
    request_fingerprint = fingerprint payload;
    response_status = status_code;
    response_body = lib.model_dump response;
    created_at = created;
  }

  abbrev pub validated : Option ApprovalRequestOut → ℕ → Exec Reply
  validated none status_code = raise validation_error
  validated (some response) status_code = pure (response, status_code)

  abbrev pub replay : String → IdempotencyKey → Exec Reply
  replay fp existing =
      if not (existing.request_fingerprint == fp)
      then raise used_with_another_body
      else validated (lib.model_validate existing.response_body) existing.response_status

  abbrev pub flush_key : Exec (Unit {0})
  flush_key w = or_conflict (flush w)

  unfoldable pub run_and_store : String → String → String → JsonObject → Exec Reply → Exec Reply
  run_and_store workspace_id route key payload handler = do
    reply ← handler
    add (new_key (key_row workspace_id route key payload reply))
    flush_key
    pure reply

  abbrev pub replay_or_run : Option IdempotencyKey → String → Exec Reply → Exec Reply
  replay_or_run (some existing) fp run = replay fp existing
  replay_or_run none fp run = run

  unfoldable pub run_idempotent :
      String → String → Option String → JsonObject → Exec Reply → Exec Reply
  run_idempotent workspace_id route none payload handler = handler
  run_idempotent workspace_id route (some key) payload handler = do
    existing ← gets (λ w. find (is_entry workspace_id route key) w.db.idempotency_keys)
    replay_or_run existing (fingerprint payload)
        (run_and_store workspace_id route key payload handler)

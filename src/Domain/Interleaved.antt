-- ===== src/Domain/Interleaved.antt =====
-- Decisions of app/domain/service.py in transactions that overlap: what a transaction reads may be older
-- than what its conditional UPDATE meets, since other transactions commit in between.
pub mod Late
pub mod AtOnce
pub mod Keyed
pub mod Posts
pub mod Decisions
pub mod Schedule
use content_approval.Common.{String, Option}
use content_approval.Domain.Entities.{ApprovalRequest}
use content_approval.Domain.Exceptions.{Failure}
use content_approval.Db.Models.{Db}
use content_approval.Db.Session.{World, Exec, ◌>>=◌, Result, ok, err, answer, effect}
use content_approval.Db.Session.Transaction.{get_db}
use content_approval.Domain.Service.{
  get_or_raise, require_reviewer, require_creator, decide, approve_request, reject_request,
  cancel_request,
}
use content_approval.Domain.Service.Verdicts.{reviewer_refusal, creator_refusal}
use content_approval.Domain.Changes.{
  Choice, approve, reject, cancel, decision_of, action_of, event_of,
}

-- What is written once the reading has passed, in the world of then; a refusal writes nothing.
abbrev pub after_read :
    Result (Unit {0}) → Exec ApprovalRequest → World → Result ApprovalRequest × Db
after_read (err e) m now = (err e, now.db)
after_read (ok _) m now = effect (get_db m now)

module _ (ws id actor : String) where
  -- The method that a choice calls: its parts are the reading and checking, and the writing.
  unfoldable pub perform : Choice → Exec ApprovalRequest
  perform (approve comment) = approve_request ws id actor comment
  perform (reject reason) = reject_request ws id actor reason
  perform (cancel reason) = cancel_request ws id actor reason

  unfoldable pub require : Choice → ApprovalRequest → Exec (Unit {0})
  require (approve _) request = require_reviewer request actor
  require (reject _) request = require_reviewer request actor
  require (cancel _) request = require_creator request id actor

  unfoldable pub read : Choice → Exec (Unit {0})
  unfolding require
  read c = do request ← get_or_raise ws id; require c request

  abbrev pub write : Choice → Exec ApprovalRequest
  write c = decide ws id (decision_of c actor) (action_of c) (event_of c)

  abbrev pub refusal : Choice → ApprovalRequest → Option Failure
  refusal (approve _) = reviewer_refusal actor
  refusal (reject _) = reviewer_refusal actor
  refusal (cancel _) = creator_refusal id actor

  -- A transaction that reads in one world, and writes and commits in another.
  unfoldable pub late : Choice → World → World → Result ApprovalRequest × Db
  unfolding read
  late c before now = after_read (answer (read c before)) (write c) now

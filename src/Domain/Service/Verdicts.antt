-- ===== src/Domain/Service/Verdicts.antt =====
-- Approve, reject and cancel of app/domain/service.py in one request's transaction: the answer and the
-- database afterwards, on every branch.
use content_approval.Common.{
  ◌&&◌, any, List, [], ◌∷◌, refl, Bool, true, ◌==◌, String, ◌≡◌, Option, none, some, if◌then◌else◌,
  Bool-cases, inl, inr, not,
}
use content_approval.Domain.Enums.{AuditAction, OutboxEventType}
use content_approval.Domain.Entities.{ApprovalRequest}
use content_approval.Domain.Exceptions.{Failure, domain, not_authorized_for_decision}
use content_approval.Db.Session.{World, effect}
use content_approval.Db.Session.Transaction.{get_db}
use content_approval.Db.Repository.Lookup.{HasUniqueIds, find_request}
use content_approval.Domain.Service.{
  nonempty, not_listed, require_reviewer, require_creator, approval, rejection, cancellation,
  approve_request, reject_request, cancel_request,
}
use content_approval.Domain.Service.Decide.{HasFreshTrailIds}
use content_approval.Domain.Service.Branches.{checked, verdict, decision_lem}

-- Who may approve and reject: a listed reviewer, or anyone where none is listed.
abbrev pub may_review : String → List String → Bool
may_review actor_user_id [] = true
may_review actor_user_id (first ∷ rest) = any (λ v. v == actor_user_id) (first ∷ rest)

abbrev pub reviewer_refusal : String → ApprovalRequest → Option Failure
reviewer_refusal actor_user_id request =
    if may_review actor_user_id request.reviewer_user_ids
    then none
    else some (
        domain (
          not_authorized_for_decision request.id actor_user_id
            "user is not a listed reviewer for this request"))

not_listed-may_review :
    (actor_user_id : String) (request : ApprovalRequest)
    → not_listed request actor_user_id ≡ not (may_review actor_user_id request.reviewer_user_ids)
not_listed-may_review actor_user_id request = of_reviewers request.reviewer_user_ids
  where
    of_reviewers :
        (vs : List String)
        → (nonempty vs && not (any (λ v. v == actor_user_id) vs))
          ≡ not (may_review actor_user_id vs)
    of_reviewers [] = refl
    of_reviewers (v ∷ vs) = refl

-- Who may cancel: the creator.
abbrev pub creator_refusal : String → String → ApprovalRequest → Option Failure
creator_refusal request_id actor_user_id request =
    if not (actor_user_id == request.created_by_user_id)
    then some (
        domain (
          not_authorized_for_decision request_id actor_user_id
            "only the request's creator can cancel it"))
    else none

pub require_reviewer_lem :
    (actor_user_id : String) (request : ApprovalRequest) (w : World)
    → require_reviewer request actor_user_id w ≡ checked (reviewer_refusal actor_user_id request) w
unfolding require_reviewer
require_reviewer_lem actor_user_id request w =
    elim (Bool-cases (may_review actor_user_id request.reviewer_user_ids)) [
      | inl p ↦ rw (not_listed-may_review actor_user_id request, p)
      | inr p ↦ rw (not_listed-may_review actor_user_id request, p)
    ]

pub require_creator_lem :
    (request_id actor_user_id : String) (request : ApprovalRequest) (w : World)
    → require_creator request request_id actor_user_id w
      ≡ checked (creator_refusal request_id actor_user_id request) w
unfolding require_creator
require_creator_lem request_id actor_user_id request w =
    elim (Bool-cases (actor_user_id == request.created_by_user_id)) [ inl p ↦ rw p | inr p ↦ rw p ]

module _ (workspace_id request_id actor_user_id : String) (w : World) where
  -- Where the keys of the rows are unique and the next tokens give identifiers that the two trails do
  -- not hold, approving in one transaction has exactly the outcome of its branch: a missing row is not
  -- found, an actor who may not review is refused, a decided request is a conflict, and a pending one
  -- is approved with its entry in each trail; nothing is changed unless it is approved.
  pub approve-verdict :
      (comment : Option String)
      → HasUniqueIds w.db
      → HasFreshTrailIds w
      → effect (get_db (approve_request workspace_id request_id actor_user_id comment) w)
        ≡ verdict workspace_id request_id
            (approval actor_user_id comment)
            AuditAction.approved
            OutboxEventType.approval_request_approved
            (reviewer_refusal actor_user_id)
            w
            (find_request workspace_id request_id w.db)
  unfolding approve_request
  approve-verdict comment =
      decision_lem workspace_id request_id (approval actor_user_id comment) AuditAction.approved
        OutboxEventType.approval_request_approved
        (λ request. require_reviewer request actor_user_id) (reviewer_refusal actor_user_id)
        (require_reviewer_lem actor_user_id) w

  -- Where the keys of the rows are unique and the next tokens give identifiers that the two trails do
  -- not hold, rejecting with a reason has exactly the outcome of its branch: not found, refused for an
  -- actor who may not review, a conflict for a decided request, and for a pending one the rejection
  -- with its entry in each trail; nothing is changed otherwise.
  pub reject-verdict :
      (reason : String)
      → HasUniqueIds w.db
      → HasFreshTrailIds w
      → effect (get_db (reject_request workspace_id request_id actor_user_id reason) w)
        ≡ verdict workspace_id request_id
            (rejection actor_user_id reason)
            AuditAction.rejected
            OutboxEventType.approval_request_rejected
            (reviewer_refusal actor_user_id)
            w
            (find_request workspace_id request_id w.db)
  unfolding reject_request
  reject-verdict reason =
      decision_lem workspace_id request_id (rejection actor_user_id reason) AuditAction.rejected
        OutboxEventType.approval_request_rejected
        (λ request. require_reviewer request actor_user_id) (reviewer_refusal actor_user_id)
        (require_reviewer_lem actor_user_id) w

  -- Where the keys of the rows are unique and the next tokens give identifiers that the two trails do
  -- not hold, cancelling with a reason has exactly the outcome of its branch: not found, refused for
  -- an actor who is not the creator, a conflict for a decided request, and for a pending one the
  -- cancellation with its entry in each trail; nothing is changed otherwise.
  pub cancel-verdict :
      (reason : String)
      → HasUniqueIds w.db
      → HasFreshTrailIds w
      → effect (get_db (cancel_request workspace_id request_id actor_user_id reason) w)
        ≡ verdict workspace_id request_id
            (cancellation actor_user_id reason)
            AuditAction.cancelled
            OutboxEventType.approval_request_cancelled
            (creator_refusal request_id actor_user_id)
            w
            (find_request workspace_id request_id w.db)
  unfolding cancel_request
  cancel-verdict reason =
      decision_lem workspace_id request_id (cancellation actor_user_id reason) AuditAction.cancelled
        OutboxEventType.approval_request_cancelled
        (λ request. require_creator request request_id actor_user_id)
        (creator_refusal request_id actor_user_id) (require_creator_lem request_id actor_user_id) w

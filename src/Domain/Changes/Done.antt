-- ===== src/Domain/Changes/Done.antt =====
-- The writing methods of app/domain/service.py as changes.
use content_approval.Common.{String, ◌≡◌, refl, ◌⊎◌, inl, inr, Option}
use content_approval.Domain.Enums.{AuditAction, OutboxEventType}
use content_approval.Domain.Entities.{ApprovalRequest}
use content_approval.Domain.Exceptions.{Failure, integrity_error}
use content_approval.Db.Models.{Db}
use content_approval.Db.Session.{World, Exec, ok, err, effect}
use content_approval.Db.Session.Transaction.{get_db}
use content_approval.Db.Integrity.{IsSound}
use content_approval.Domain.Service.{
  Draft, create_request, approve_request, reject_request, cancel_request, require_reviewer,
  require_creator,
}
use content_approval.Domain.Service.Create.{create-cases, after_creation}
use content_approval.Domain.Service.Branches.{IsDecided, decision-cases}
use content_approval.Domain.Service.Verdicts.{
  reviewer_refusal, creator_refusal, require_reviewer_lem, require_creator_lem,
}
use content_approval.Domain.Changes.{
  Change, creation, decision, Choice, approve, reject, cancel, decision_of, action_of, event_of,
}
use content_approval.Domain.Changes.Within.{workspace_of}

-- What an operation of the service can do: one change, in its workspace, that no idempotency key sees, or
-- nothing.
pub data Done (ws : String) {A : Type 0} (m : Exec A) (w : World) : Type 0 where
  changed :
      (a : A) (db : Db)
      → effect (get_db m w) ≡ (ok a, db)
      → db.idempotency_keys ≡ w.db.idempotency_keys
      → (c : Change w.db db) → workspace_of c ≡ ws
      → Done ws m w
  failed : (e : Failure) → effect (get_db m w) ≡ (err e, w.db) → Done ws m w

pub create-Done : (d : Draft) (w : World) → Done d.workspace_id (create_request d) w
create-Done d w = elim (create-cases d w) [
  | inl (e, fresh) ↦
      changed _ (after_creation d w) e refl (creation d _ _ _ _ _ _ _ fresh refl) refl
  | inr e ↦ failed integrity_error e
]

module _ (ws id actor : String) (w : World) (sound : IsSound w.db) where
  decided-Done :
      (c : Choice) (m : Exec ApprovalRequest)
      → IsDecided ws id (decision_of c actor) (action_of c) (event_of c) w (get_db m w)
        ⊎ ((e : Failure) × (effect (get_db m w) ≡ (err e, w.db)))
      → Done ws m w
  decided-Done c m (inl d) =
      changed _ _ d.done refl (decision ws id actor c _ _ _ _ _ d.row d.found d.undecided refl) refl
  decided-Done c m (inr (e, h)) = failed e h

  pub approve-Done : (comment : Option String) → Done ws (approve_request ws id actor comment) w
  unfolding approve_request
  approve-Done comment = decided-Done (approve comment) _ (
      decision-cases ws id (decision_of (approve comment) actor) AuditAction.approved
        OutboxEventType.approval_request_approved (λ request. require_reviewer request actor)
        (reviewer_refusal actor) (require_reviewer_lem actor) w sound.request_ids)

  pub reject-Done : (reason : String) → Done ws (reject_request ws id actor reason) w
  unfolding reject_request
  reject-Done reason = decided-Done (reject reason) _ (
      decision-cases ws id (decision_of (reject reason) actor) AuditAction.rejected
        OutboxEventType.approval_request_rejected (λ request. require_reviewer request actor)
        (reviewer_refusal actor) (require_reviewer_lem actor) w sound.request_ids)

  pub cancel-Done : (reason : String) → Done ws (cancel_request ws id actor reason) w
  unfolding cancel_request
  cancel-Done reason = decided-Done (cancel reason) _ (
      decision-cases ws id (decision_of (cancel reason) actor) AuditAction.cancelled
        OutboxEventType.approval_request_cancelled (λ request. require_creator request id actor)
        (creator_refusal id actor) (require_creator_lem id actor) w sound.request_ids)

-- ===== src/Domain/Service.antt =====
-- app/domain/service.py: `ApprovalService`. The repository is that of Db/Repository, which the
-- service reaches through the port of app/domain/repository.py.
pub mod Decide
pub mod Branches
pub mod Verdicts
pub mod Sound
pub mod Create
pub mod Fetch
pub mod Committed
pub mod Secrecy
use Prim.Native.String
use content_approval.Common.{
  ℕ, String, Bool, true, false, not, ◌&&◌, Option, none, some, List, [], ◌∷◌, any, ◌==◌,
  if◌then◌else◌,
}
use content_approval.Domain.Enums.{
  SourceType, ApprovalStatus, AuditAction, OutboxEventType, source_type_value, status_value,
  audit_action_value, event_type_value,
}
use content_approval.Domain.Entities.{ApprovalRequest}
use content_approval.Domain.Exceptions.{
  domain, approval_request_not_found, not_authorized_for_decision,
}
use content_approval.Db.Models.{JsonObject, str, strs}
use content_approval.Db.Session.{Exec, ◌>>=◌, ◌>>◌, pure, raise, logger_info}
use content_approval.Db.Repository.{NewRequest, Decision, generate_id, record_audit_entry}
use content_approval.Db.Repository.{record_outbox_event}
use content_approval.Db.Repository as Repository

-- The keyword arguments of `create_request`.
pub record Draft : Type 0 where
  pub workspace_id : String
  pub created_by_user_id : String
  pub source_type : SourceType
  pub source_id : String
  pub title : String
  pub description : Option String
  pub reviewer_user_ids : List String

abbrev pub new_request : String → Draft → NewRequest
new_request request_id d = record {
  request_id = request_id;
  workspace_id = d.workspace_id;
  created_by_user_id = d.created_by_user_id;
  source_type = d.source_type;
  source_id = d.source_id;
  title = d.title;
  description = d.description;
  reviewer_user_ids = d.reviewer_user_ids;
}

abbrev pub created_details : Draft → JsonObject
created_details d =
    ("title", str d.title)
    ∷ ("source_type", str (source_type_value d.source_type))
    ∷ ("source_id", str d.source_id)
    ∷ []

abbrev pub created_payload : String → Draft → ApprovalStatus → JsonObject
created_payload request_id d status =
    ("id", str request_id)
    ∷ ("workspace_id", str d.workspace_id)
    ∷ ("source_type", str (source_type_value d.source_type))
    ∷ ("source_id", str d.source_id)
    ∷ ("status", str (status_value status))
    ∷ ("reviewer_user_ids", strs d.reviewer_user_ids)
    ∷ []

-- What `create_request` records once the row is written.
unfoldable pub record_creation : String → Draft → ApprovalRequest → Exec ApprovalRequest
unfolding record_audit_entry record_outbox_event
record_creation request_id d request = do
  record_audit_entry d.workspace_id request_id d.created_by_user_id AuditAction.created
      (some (created_details d))
  record_outbox_event d.workspace_id request_id
      (event_type_value OutboxEventType.approval_request_created)
      (created_payload request_id d request.status)
  logger_info "approval request created" (
      ("workspace_id", d.workspace_id)
      ∷ ("request_id", request_id)
      ∷ ("actor_user_id", d.created_by_user_id)
      ∷ [])
  pure request

unfoldable pub create_request : Draft → Exec ApprovalRequest
unfolding generate_id
create_request d = do
  request_id ← generate_id "ar"
  request ← Repository.create (new_request request_id d)
  record_creation request_id d request

abbrev pub or_not_found : String → Option ApprovalRequest → Exec ApprovalRequest
or_not_found request_id none = raise (domain (approval_request_not_found request_id))
or_not_found request_id (some request) = pure request

-- `_get_or_raise`, and the body of `get_request` too.
unfoldable pub get_or_raise : String → String → Exec ApprovalRequest
get_or_raise workspace_id request_id = do
  found ← Repository.get workspace_id request_id
  or_not_found request_id found

unfoldable pub get_request : String → String → Exec ApprovalRequest
unfolding get_or_raise
get_request = get_or_raise

unfoldable pub list_requests :
    String → Option ApprovalStatus → ℕ → ℕ → Exec (List ApprovalRequest × ℕ)
list_requests = Repository.list

-- The truth value of a list: whether it has an item.
abbrev pub nonempty {ℓ} : {A : Type ℓ} → List A → Bool
nonempty [] = false
nonempty (_ ∷ _) = true

abbrev pub not_listed : ApprovalRequest → String → Bool
not_listed request actor_user_id =
    nonempty request.reviewer_user_ids
    && not (any (λ v. v == actor_user_id) request.reviewer_user_ids)

unfoldable pub require_reviewer : ApprovalRequest → String → Exec (Unit {0})
require_reviewer request actor_user_id =
    if not_listed request actor_user_id
    then raise (
        domain (
          not_authorized_for_decision request.id actor_user_id
            "user is not a listed reviewer for this request"))
    else pure tt

unfoldable pub require_creator : ApprovalRequest → String → String → Exec (Unit {0})
require_creator request request_id actor_user_id =
    if not (actor_user_id == request.created_by_user_id)
    then raise (
        domain (
          not_authorized_for_decision request_id actor_user_id
            "only the request's creator can cancel it"))
    else pure tt

-- `details or None`: the comment and the reason, where there is one.
abbrev pub decision_details : Option String → Option String → Option JsonObject
decision_details none none = none
decision_details (some comment) none = some (("comment", str comment) ∷ [])
decision_details none (some reason) = some (("reason", str reason) ∷ [])
decision_details (some comment) (some reason) =
    some (("comment", str comment) ∷ ("reason", str reason) ∷ [])

abbrev pub decided_payload : String → String → String → ApprovalStatus → JsonObject
decided_payload workspace_id request_id actor_user_id status =
    ("id", str request_id)
    ∷ ("workspace_id", str workspace_id)
    ∷ ("status", str (status_value status))
    ∷ ("decided_by_user_id", str actor_user_id)
    ∷ []

-- What `_decide` records once the transition has succeeded.
unfoldable pub record_decision :
    String
    → String
    → Decision
    → AuditAction
    → OutboxEventType
    → ApprovalRequest
    → Exec ApprovalRequest
unfolding record_audit_entry record_outbox_event
record_decision workspace_id request_id d audit_action event_type updated = do
  record_audit_entry workspace_id request_id d.decided_by_user_id audit_action
      (decision_details d.decision_comment d.decision_reason)
  record_outbox_event workspace_id request_id (event_type_value event_type)
      (decided_payload workspace_id request_id d.decided_by_user_id updated.status)
  logger_info (String.◌++◌ "approval request " (audit_action_value audit_action)) (
      ("workspace_id", workspace_id)
      ∷ ("request_id", request_id)
      ∷ ("actor_user_id", d.decided_by_user_id)
      ∷ ("new_status", status_value updated.status)
      ∷ [])
  pure updated

unfoldable pub decide :
    String → String → Decision → AuditAction → OutboxEventType → Exec ApprovalRequest
decide workspace_id request_id d audit_action event_type = do
  updated ← Repository.transition workspace_id request_id d
  record_decision workspace_id request_id d audit_action event_type updated

abbrev pub approval : String → Option String → Decision
approval actor_user_id comment = record {
  new_status = ApprovalStatus.approved;
  decided_by_user_id = actor_user_id;
  decision_comment = comment;
  decision_reason = none;
}

abbrev pub rejection : String → String → Decision
rejection actor_user_id reason = record {
  new_status = ApprovalStatus.rejected;
  decided_by_user_id = actor_user_id;
  decision_comment = none;
  decision_reason = some reason;
}

abbrev pub cancellation : String → String → Decision
cancellation actor_user_id reason = record {
  new_status = ApprovalStatus.cancelled;
  decided_by_user_id = actor_user_id;
  decision_comment = none;
  decision_reason = some reason;
}

unfoldable pub approve_request : String → String → String → Option String → Exec ApprovalRequest
approve_request workspace_id request_id actor_user_id comment = do
  request ← get_or_raise workspace_id request_id
  require_reviewer request actor_user_id
  decide workspace_id request_id (approval actor_user_id comment) AuditAction.approved
      OutboxEventType.approval_request_approved

unfoldable pub reject_request : String → String → String → String → Exec ApprovalRequest
reject_request workspace_id request_id actor_user_id reason = do
  request ← get_or_raise workspace_id request_id
  require_reviewer request actor_user_id
  decide workspace_id request_id (rejection actor_user_id reason) AuditAction.rejected
      OutboxEventType.approval_request_rejected

unfoldable pub cancel_request : String → String → String → String → Exec ApprovalRequest
cancel_request workspace_id request_id actor_user_id reason = do
  request ← get_or_raise workspace_id request_id
  require_creator request request_id actor_user_id
  decide workspace_id request_id (cancellation actor_user_id reason) AuditAction.cancelled
      OutboxEventType.approval_request_cancelled

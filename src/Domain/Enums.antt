-- ===== src/Domain/Enums.antt =====
-- app/domain/enums.py: the enumerations and their string values.
use content_approval.Common.{String, Bool, true, false}

pub data SourceType : Type 0 where
  publication scenario edit external : SourceType

pub data ApprovalStatus : Type 0 where
  pending approved rejected cancelled : ApprovalStatus

pub data AuditAction : Type 0 where
  created approved rejected cancelled : AuditAction

pub data OutboxEventType : Type 0 where
  approval_request_created approval_request_approved : OutboxEventType
  approval_request_rejected approval_request_cancelled : OutboxEventType

abbrev pub is_final : ApprovalStatus → Bool
is_final ApprovalStatus.pending = false
is_final _ = true

abbrev pub source_type_value : SourceType → String
source_type_value SourceType.publication = "publication"
source_type_value SourceType.scenario = "scenario"
source_type_value SourceType.edit = "edit"
source_type_value SourceType.external = "external"

abbrev pub status_value : ApprovalStatus → String
status_value ApprovalStatus.pending = "pending"
status_value ApprovalStatus.approved = "approved"
status_value ApprovalStatus.rejected = "rejected"
status_value ApprovalStatus.cancelled = "cancelled"

abbrev pub audit_action_value : AuditAction → String
audit_action_value AuditAction.created = "created"
audit_action_value AuditAction.approved = "approved"
audit_action_value AuditAction.rejected = "rejected"
audit_action_value AuditAction.cancelled = "cancelled"

abbrev pub event_type_value : OutboxEventType → String
event_type_value OutboxEventType.approval_request_created = "approval_request.created"
event_type_value OutboxEventType.approval_request_approved = "approval_request.approved"
event_type_value OutboxEventType.approval_request_rejected = "approval_request.rejected"
event_type_value OutboxEventType.approval_request_cancelled = "approval_request.cancelled"

-- The comparison that the queries make on the status column.
abbrev pub status_eq : ApprovalStatus → ApprovalStatus → Bool
status_eq ApprovalStatus.pending ApprovalStatus.pending = true
status_eq ApprovalStatus.approved ApprovalStatus.approved = true
status_eq ApprovalStatus.rejected ApprovalStatus.rejected = true
status_eq ApprovalStatus.cancelled ApprovalStatus.cancelled = true
status_eq _ _ = false

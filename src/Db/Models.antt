-- ===== src/Db/Models.antt =====
-- app/db/models.py: the five tables. A table is the list of its rows in the order of insertion, and
-- a JSON column holds a `JsonObject`.
use content_approval.Common.{ℕ, String, Option, List, []}
use content_approval.Domain.Enums.{SourceType, ApprovalStatus, AuditAction}
use content_approval.Domain.DateTime.{DateTime}

-- The JSON values that the service writes: `null`, texts and lists of texts.
pub data Json : Type 0 where
  null : Json
  str : String → Json
  strs : List String → Json

abbrev pub JsonObject : Type 0
JsonObject = List (String × Json)

pub record ApprovalRequestRow : Type 0 where
  pub id : String
  pub workspace_id : String
  pub source_type : SourceType
  pub source_id : String
  pub title : String
  pub description : Option String
  pub status : ApprovalStatus
  pub created_by_user_id : String
  pub created_at : DateTime
  pub updated_at : DateTime
  pub decided_by_user_id : Option String
  pub decided_at : Option DateTime
  pub decision_comment : Option String
  pub decision_reason : Option String

pub record ApprovalRequestReviewer : Type 0 where
  pub workspace_id : String
  pub approval_request_id : String
  pub reviewer_user_id : String

pub record AuditLogEntry : Type 0 where
  pub id : String
  pub workspace_id : String
  pub approval_request_id : String
  pub actor_user_id : String
  pub action : AuditAction
  pub details : Option JsonObject
  pub created_at : DateTime

pub record OutboxEvent : Type 0 where
  pub id : String
  pub workspace_id : String
  pub approval_request_id : String
  pub event_type : String
  pub payload : JsonObject
  pub created_at : DateTime
  pub published_at : Option DateTime

pub record IdempotencyKey : Type 0 where
  pub workspace_id : String
  pub route : String
  pub idempotency_key : String
  pub request_fingerprint : String
  pub response_status : ℕ
  pub response_body : JsonObject
  pub created_at : DateTime

pub record Db : Type 0 where
  pub approval_requests : List ApprovalRequestRow
  pub approval_request_reviewers : List ApprovalRequestReviewer
  pub audit_log_entries : List AuditLogEntry
  pub outbox_events : List OutboxEvent
  pub idempotency_keys : List IdempotencyKey

abbrev pub empty_db : Db
empty_db = record {
  approval_requests = [];
  approval_request_reviewers = [];
  audit_log_entries = [];
  outbox_events = [];
  idempotency_keys = [];
}

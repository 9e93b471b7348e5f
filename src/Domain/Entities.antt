-- ===== src/Domain/Entities.antt =====
-- app/domain/entities.py: the entity that the service and the API see.
use content_approval.Common.{String, Option, List}
use content_approval.Domain.Enums.{SourceType, ApprovalStatus}
use content_approval.Domain.DateTime.{DateTime}

pub record ApprovalRequest : Type 0 where
  pub id : String
  pub workspace_id : String
  pub source_type : SourceType
  pub source_id : String
  pub title : String
  pub description : Option String
  pub reviewer_user_ids : List String
  pub status : ApprovalStatus
  pub created_by_user_id : String
  pub created_at : DateTime
  pub updated_at : DateTime
  pub decided_by_user_id : Option String
  pub decided_at : Option DateTime
  pub decision_comment : Option String
  pub decision_reason : Option String

-- ===== src/Api/Schemas.antt =====
-- app/schemas: the response model, and what pydantic, `json` and `hashlib` do with the models, as a
-- parameter.
pub mod Validation
pub mod Laws
pub mod Accepted
use content_approval.Common.{ℕ, String, ◌≡◌, Option, some, List}
use content_approval.Domain.Enums.{SourceType, ApprovalStatus}
use content_approval.Domain.DateTime.{DateTime}
use content_approval.Domain.Exceptions.{ErrorItem}
use content_approval.Domain.Entities.{ApprovalRequest}
use content_approval.Db.Models.{JsonObject}

pub record ApprovalRequestOut : Type 0 where
  pub id : String
  pub workspace_id : String
  pub source_type : SourceType
  pub source_id : String
  pub title : String
  pub description : Option String
  pub reviewer_user_ids : List String
  pub status : ApprovalStatus
  pub created_by_user_id : String
  pub created_at : DateTime
  pub updated_at : DateTime
  pub decided_by_user_id : Option String
  pub decided_at : Option DateTime
  pub decision_comment : Option String
  pub decision_reason : Option String

-- `ApprovalRequestOut.model_validate(request)`, which copies the attributes.
abbrev pub out_of : ApprovalRequest → ApprovalRequestOut
out_of r = record {
  id = r.id;
  workspace_id = r.workspace_id;
  source_type = r.source_type;
  source_id = r.source_id;
  title = r.title;
  description = r.description;
  reviewer_user_ids = r.reviewer_user_ids;
  status = r.status;
  created_by_user_id = r.created_by_user_id;
  created_at = r.created_at;
  updated_at = r.updated_at;
  decided_by_user_id = r.decided_by_user_id;
  decided_at = r.decided_at;
  decision_comment = r.decision_comment;
  decision_reason = r.decision_reason;
}

pub record ApprovalRequestListOut : Type 0 where
  pub items : List ApprovalRequestOut
  pub total : ℕ
  pub limit : ℕ
  pub offset : ℕ

-- `json.dumps` with sorted keys, the hex digest of the SHA-256 of its UTF-8, and the JSON form of a
-- response with its reader. A model that is dumped in JSON mode is validated back to itself.
pub record Libraries : Type 0 where
  pub dumps : JsonObject → String
  pub sha256_hexdigest : String → String
  pub model_dump : ApprovalRequestOut → JsonObject
  pub model_validate : JsonObject → Option ApprovalRequestOut
  -- what FastAPI reports for a request that fails its validation
  pub report : JsonObject → List ErrorItem
  pub validate-dump : (r : ApprovalRequestOut) → model_validate (model_dump r) ≡ some r

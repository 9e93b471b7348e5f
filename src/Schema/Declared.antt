-- ===== src/Schema/Declared.antt =====
-- The tables that app/db/models.py declares on the metadata of app/db/base.py.
use Prim.Native.String.{◌++◌}
use content_approval.Common.{String, true, false, List, [], ◌∷◌, map}
use content_approval.Domain.Enums.{
  SourceType, ApprovalStatus, AuditAction, source_type_value, status_value, audit_action_value,
}
use content_approval.Schema.{
  ColumnType, string, text, integer, json, timestamp, enumeration, Column, ForeignKey, Table,
}

abbrev pub required : String → ColumnType → Column
required name t = record { name = name; type_of = t; nullable = false }

abbrev pub optional : String → ColumnType → Column
optional name t = record { name = name; type_of = t; nullable = true }

-- The naming convention of a primary key, "pk_%(table_name)s".
abbrev pub pk_name : String → String
pk_name table = "pk_" ++ table

-- `list(SourceType)` and the like: the members in the order of their declaration.
abbrev pub all_source_types : List SourceType
all_source_types =
    SourceType.publication ∷ SourceType.scenario ∷ SourceType.edit ∷ SourceType.external ∷ []

abbrev pub all_statuses : List ApprovalStatus
all_statuses =
    ApprovalStatus.pending ∷ ApprovalStatus.approved ∷ ApprovalStatus.rejected
    ∷ ApprovalStatus.cancelled ∷ []

abbrev pub all_actions : List AuditAction
all_actions =
    AuditAction.created ∷ AuditAction.approved ∷ AuditAction.rejected ∷ AuditAction.cancelled ∷ []

-- `SqlEnum(…, values_callable=_enum_values)`
abbrev pub enum_of {ℓ} : {A : Type ℓ} → String → (A → String) → List A → ColumnType
enum_of name value members = enumeration name (map value members)

-- The foreign key of a table of children on the composite key of `approval_requests`.
abbrev pub to_request : String → ForeignKey
to_request name = record {
  name = name;
  columns = "workspace_id" ∷ "approval_request_id" ∷ [];
  target = "approval_requests";
  target_columns = "workspace_id" ∷ "id" ∷ [];
  cascades = true;
}

abbrev pub requests_table : Table
requests_table = record {
  name = "approval_requests";
  columns =
      required "id" string
      ∷ required "workspace_id" string
      ∷ required "source_type" (enum_of "source_type" source_type_value all_source_types)
      ∷ required "source_id" string
      ∷ required "title" string
      ∷ optional "description" text
      ∷ required "status" (enum_of "approval_status" status_value all_statuses)
      ∷ required "created_by_user_id" string
      ∷ required "created_at" timestamp
      ∷ required "updated_at" timestamp
      ∷ optional "decided_by_user_id" string
      ∷ optional "decided_at" timestamp
      ∷ optional "decision_comment" text
      ∷ optional "decision_reason" text
      ∷ [];
  primary_key = record { name = pk_name "approval_requests"; columns = "id" ∷ [] };
  unique =
      record { name = "uq_approval_requests_workspace_id_id"; columns = "workspace_id" ∷ "id" ∷ [] }
      ∷ [];
  foreign_keys = [];
  indexes =
      record {
        name = "ix_approval_requests_workspace_created";
        columns = "workspace_id" ∷ "created_at" ∷ [];
      }
      ∷ record {
        name = "ix_approval_requests_workspace_status";
        columns = "workspace_id" ∷ "status" ∷ [];
      }
      ∷ [];
}

abbrev pub reviewers_table : Table
reviewers_table = record {
  name = "approval_request_reviewers";
  columns =
      required "workspace_id" string
      ∷ required "approval_request_id" string
      ∷ required "reviewer_user_id" string
      ∷ [];
  primary_key = record {
    name = pk_name "approval_request_reviewers";
    columns = "workspace_id" ∷ "approval_request_id" ∷ "reviewer_user_id" ∷ [];
  };
  unique = [];
  foreign_keys = to_request "fk_approval_request_reviewers_approval_request" ∷ [];
  indexes = [];
}

abbrev pub audit_table : Table
audit_table = record {
  name = "audit_log_entries";
  columns =
      required "id" string
      ∷ required "workspace_id" string
      ∷ required "approval_request_id" string
      ∷ required "actor_user_id" string
      ∷ required "action" (enum_of "audit_action" audit_action_value all_actions)
      ∷ optional "details" json
      ∷ required "created_at" timestamp
      ∷ [];
  primary_key = record { name = pk_name "audit_log_entries"; columns = "id" ∷ [] };
  unique = [];
  foreign_keys = to_request "fk_audit_log_entries_approval_request" ∷ [];
  indexes =
      record {
        name = "ix_audit_log_entries_workspace_request";
        columns = "workspace_id" ∷ "approval_request_id" ∷ "created_at" ∷ [];
      }
      ∷ [];
}

abbrev pub outbox_table : Table
outbox_table = record {
  name = "outbox_events";
  columns =
      required "id" string
      ∷ required "workspace_id" string
      ∷ required "approval_request_id" string
      ∷ required "event_type" string
      ∷ required "payload" json
      ∷ required "created_at" timestamp
      ∷ optional "published_at" timestamp
      ∷ [];
  primary_key = record { name = pk_name "outbox_events"; columns = "id" ∷ [] };
  unique = [];
  foreign_keys = to_request "fk_outbox_events_approval_request" ∷ [];
  indexes =
      record { name = "ix_outbox_events_unpublished"; columns = "published_at" ∷ "created_at" ∷ [] }
      ∷ [];
}

abbrev pub keys_table : Table
keys_table = record {
  name = "idempotency_keys";
  columns =
      required "workspace_id" string
      ∷ required "route" string
      ∷ required "idempotency_key" string
      ∷ required "request_fingerprint" string
      ∷ required "response_status" integer
      ∷ required "response_body" json
      ∷ required "created_at" timestamp
      ∷ [];
  primary_key = record {
    name = pk_name "idempotency_keys";
    columns = "workspace_id" ∷ "route" ∷ "idempotency_key" ∷ [];
  };
  unique = [];
  foreign_keys = [];
  indexes = [];
}

-- `Base.metadata`
abbrev pub metadata : List Table
metadata = requests_table ∷ reviewers_table ∷ audit_table ∷ outbox_table ∷ keys_table ∷ []

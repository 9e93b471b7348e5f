-- ===== src/Schema/Initial.antt =====
-- migrations/versions/1fe27f129dda_initial_schema.py: `upgrade` and `downgrade` as lists of operations.
use content_approval.Common.{String, true, false, List, [], ◌∷◌}
use content_approval.Schema.{
  ColumnType, string, text, integer, json, timestamp, enumeration, Column, ForeignKey, Table,
  Operation, create_table, create_index, drop_index, drop_table,
}

abbrev required : String → ColumnType → Column
required name t = record { name = name; type_of = t; nullable = false }

abbrev optional : String → ColumnType → Column
optional name t = record { name = name; type_of = t; nullable = true }

abbrev to_request : String → ForeignKey
to_request name = record {
  name = name;
  columns = "workspace_id" ∷ "approval_request_id" ∷ [];
  target = "approval_requests";
  target_columns = "workspace_id" ∷ "id" ∷ [];
  cascades = true;
}

abbrev pub created_requests : Table
created_requests = record {
  name = "approval_requests";
  columns =
      required "id" string
      ∷ required "workspace_id" string
      ∷ required "source_type"
          (enumeration "source_type" ("publication" ∷ "scenario" ∷ "edit" ∷ "external" ∷ []))
      ∷ required "source_id" string
      ∷ required "title" string
      ∷ optional "description" text
      ∷ required "status"
          (enumeration "approval_status" ("pending" ∷ "approved" ∷ "rejected" ∷ "cancelled" ∷ []))
      ∷ required "created_by_user_id" string
      ∷ required "created_at" timestamp
      ∷ required "updated_at" timestamp
      ∷ optional "decided_by_user_id" string
      ∷ optional "decided_at" timestamp
      ∷ optional "decision_comment" text
      ∷ optional "decision_reason" text
      ∷ [];
  primary_key = record { name = "pk_approval_requests"; columns = "id" ∷ [] };
  unique =
      record { name = "uq_approval_requests_workspace_id_id"; columns = "workspace_id" ∷ "id" ∷ [] }
      ∷ [];
  foreign_keys = [];
  indexes = [];
}

abbrev pub created_keys : Table
created_keys = record {
  name = "idempotency_keys";
  columns =
      required "workspace_id" string
      ∷ required "route" string
      ∷ required "idempotency_key" string
      ∷ required "request_fingerprint" string
      ∷ required "response_status" integer
      ∷ required "response_body" json
      ∷ required "created_at" timestamp
      ∷ [];
  primary_key = record {
    name = "pk_idempotency_keys";
    columns = "workspace_id" ∷ "route" ∷ "idempotency_key" ∷ [];
  };
  unique = [];
  foreign_keys = [];
  indexes = [];
}

abbrev pub created_reviewers : Table
created_reviewers = record {
  name = "approval_request_reviewers";
  columns =
      required "workspace_id" string
      ∷ required "approval_request_id" string
      ∷ required "reviewer_user_id" string
      ∷ [];
  primary_key = record {
    name = "pk_approval_request_reviewers";
    columns = "workspace_id" ∷ "approval_request_id" ∷ "reviewer_user_id" ∷ [];
  };
  unique = [];
  foreign_keys = to_request "fk_approval_request_reviewers_approval_request" ∷ [];
  indexes = [];
}

abbrev pub created_audit : Table
created_audit = record {
  name = "audit_log_entries";
  columns =
      required "id" string
      ∷ required "workspace_id" string
      ∷ required "approval_request_id" string
      ∷ required "actor_user_id" string
      ∷ required "action"
          (enumeration "audit_action" ("created" ∷ "approved" ∷ "rejected" ∷ "cancelled" ∷ []))
      ∷ optional "details" json
      ∷ required "created_at" timestamp
      ∷ [];
  primary_key = record { name = "pk_audit_log_entries"; columns = "id" ∷ [] };
  unique = [];
  foreign_keys = to_request "fk_audit_log_entries_approval_request" ∷ [];
  indexes = [];
}

abbrev pub created_outbox : Table
created_outbox = record {
  name = "outbox_events";
  columns =
      required "id" string
      ∷ required "workspace_id" string
      ∷ required "approval_request_id" string
      ∷ required "event_type" string
      ∷ required "payload" json
      ∷ required "created_at" timestamp
      ∷ optional "published_at" timestamp
      ∷ [];
  primary_key = record { name = "pk_outbox_events"; columns = "id" ∷ [] };
  unique = [];
  foreign_keys = to_request "fk_outbox_events_approval_request" ∷ [];
  indexes = [];
}

abbrev pub upgrade : List Operation
upgrade =
    create_table created_requests
    ∷ create_index "ix_approval_requests_workspace_created" "approval_requests"
        ("workspace_id" ∷ "created_at" ∷ [])
    ∷ create_index "ix_approval_requests_workspace_status" "approval_requests"
        ("workspace_id" ∷ "status" ∷ [])
    ∷ create_table created_keys
    ∷ create_table created_reviewers
    ∷ create_table created_audit
    ∷ create_index "ix_audit_log_entries_workspace_request" "audit_log_entries"
        ("workspace_id" ∷ "approval_request_id" ∷ "created_at" ∷ [])
    ∷ create_table created_outbox
    ∷ create_index "ix_outbox_events_unpublished" "outbox_events"
        ("published_at" ∷ "created_at" ∷ [])
    ∷ []

abbrev pub downgrade : List Operation
downgrade =
    drop_index "ix_outbox_events_unpublished" "outbox_events"
    ∷ drop_table "outbox_events"
    ∷ drop_index "ix_audit_log_entries_workspace_request" "audit_log_entries"
    ∷ drop_table "audit_log_entries"
    ∷ drop_table "approval_request_reviewers"
    ∷ drop_table "idempotency_keys"
    ∷ drop_index "ix_approval_requests_workspace_status" "approval_requests"
    ∷ drop_index "ix_approval_requests_workspace_created" "approval_requests"
    ∷ drop_table "approval_requests"
    ∷ []

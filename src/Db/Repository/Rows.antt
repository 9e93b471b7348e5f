-- ===== src/Db/Repository/Rows.antt =====
-- From rows to entities: `_as_utc`, `_as_utc_or_none` and `_to_entity` of app/db/repository.py, and
-- what a driver hands back for a stored time.
use content_approval.Common.{String, Option, none, some, List, map, filter, ◌==◌, ◌&&◌, Bool}
use content_approval.Domain.DateTime.{DateTime, naive, aware, utc, instant}
use content_approval.Domain.Entities.{ApprovalRequest}
use content_approval.Db.Models.{ApprovalRequestRow, ApprovalRequestReviewer, Db}
use content_approval.Db.Session.{Dialect, sqlite, postgres}

abbrev pub as_utc : DateTime → DateTime
as_utc (naive wall) = aware wall utc
as_utc (aware t _) = aware t utc

abbrev pub as_utc_or_none : Option DateTime → Option DateTime
as_utc_or_none none = none
as_utc_or_none (some t) = some (as_utc t)

abbrev pub to_entity : ApprovalRequestRow → List String → ApprovalRequest
to_entity row reviewer_user_ids = record {
  id = row.id;
  workspace_id = row.workspace_id;
  source_type = row.source_type;
  source_id = row.source_id;
  title = row.title;
  description = row.description;
  reviewer_user_ids = reviewer_user_ids;
  status = row.status;
  created_by_user_id = row.created_by_user_id;
  created_at = as_utc row.created_at;
  updated_at = as_utc row.updated_at;
  decided_by_user_id = row.decided_by_user_id;
  decided_at = as_utc_or_none row.decided_at;
  decision_comment = row.decision_comment;
  decision_reason = row.decision_reason;
}

-- As the comment of `_as_utc` says: SQLite drops the zone of a UTC time, Postgres keeps the instant.
abbrev pub load : Dialect → DateTime → DateTime
load sqlite t = naive (instant t)
load (postgres offset) t = aware (instant t) offset

abbrev load_or_none : Dialect → Option DateTime → Option DateTime
load_or_none dialect none = none
load_or_none dialect (some t) = some (load dialect t)

abbrev pub load_row : Dialect → ApprovalRequestRow → ApprovalRequestRow
load_row dialect row = record row {
  created_at = load dialect row.created_at;
  updated_at = load dialect row.updated_at;
  decided_at = load_or_none dialect row.decided_at;
}

-- `[r.reviewer_user_id for r in row.reviewers]`, by the rows in the order of their insertion; the query
-- of the relationship has no ORDER BY, and a world's `reviewers_order` says how they are answered.
abbrev pub of_request : ApprovalRequestRow → ApprovalRequestReviewer → Bool
of_request row v = v.workspace_id == row.workspace_id && v.approval_request_id == row.id

abbrev pub reviewers_of : ApprovalRequestRow → Db → List String
reviewers_of row db =
    map (λ v. v.reviewer_user_id) (filter (of_request row) db.approval_request_reviewers)

-- ===== src/Db/Integrity.antt =====
-- The constraints of app/db/models.py as a predicate on the database.
pub mod Inserts
pub mod Updates
use content_approval.Common.{
  ◌≤◌, String, ◌≡◌, refl, subst, ◌||◌, Bool, true, false, ◌==◌, not, none, some, List, [], ◌∷◌,
  ◌++◌, arith, count, any, All, All-append, All-imp, count-append, count-update_where, any-append,
  any-update_where, any-of-none, Bool-cases, inl, inr, eq_iff, if◌then◌else◌, count_congr,
}
use content_approval.Domain.DateTime.{DateTime}
use content_approval.Db.Models.{
  ApprovalRequestRow, ApprovalRequestReviewer, AuditLogEntry, OutboxEvent, IdempotencyKey, Db,
  empty_db,
}
use content_approval.Db.Session.{NewRow, new_audit, new_event, new_key}
use content_approval.Db.Session.Flush.{
  is_request, is_reviewer, is_entry, has_parent, insert_request, insert_reviewer, insert_audit,
  insert_event, insert_key, insert_row,
}
use content_approval.Db.Session.Keeps.{Accepts}
use content_approval.Db.Repository.{Decision, decided, update_requests}
use content_approval.Db.Repository.Lookup.{HasUniqueIds}

-- A row that references a request references one of its own workspace.
abbrev pub IsOwned : Db → String → String → Type 0
IsOwned db workspace_id request_id = has_parent workspace_id request_id db ≡ true

-- The keys are unique, and every child row has its parent.
pub record IsSound (db : Db) : Type 0 where
  pub request_ids : HasUniqueIds db
  pub reviewer_keys :
      (ws id user : String) → count (is_reviewer ws id user) db.approval_request_reviewers ≤ 1
  pub audit_ids : (id : String) → count (λ e. e.id == id) db.audit_log_entries ≤ 1
  pub event_ids : (id : String) → count (λ e. e.id == id) db.outbox_events ≤ 1
  pub idempotency_keys :
      (ws route key : String) → count (is_entry ws route key) db.idempotency_keys ≤ 1
  pub reviewers_owned :
      All (λ v. IsOwned db v.workspace_id v.approval_request_id) db.approval_request_reviewers
  pub audit_owned : All (λ e. IsOwned db e.workspace_id e.approval_request_id) db.audit_log_entries
  pub events_owned : All (λ e. IsOwned db e.workspace_id e.approval_request_id) db.outbox_events

pub empty-IsSound : IsSound empty_db
empty-IsSound = record {
  request_ids = λ id. omega arith;
  reviewer_keys = λ ws id user. omega arith;
  audit_ids = λ id. omega arith;
  event_ids = λ id. omega arith;
  idempotency_keys = λ ws route key. omega arith;
  reviewers_owned = tt;
  audit_owned = tt;
  events_owned = tt;
}

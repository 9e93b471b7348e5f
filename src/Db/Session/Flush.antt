-- ===== src/Db/Session/Flush.antt =====
-- `session.flush`: the rows that wait are inserted in order, each under the keys of its table in
-- app/db/models.py; a key that is taken or a parent that is missing is an `IntegrityError`.
use content_approval.Common.{
  String, Bool, not, ◌||◌, ◌&&◌, Option, none, some, List, [], ◌∷◌, ◌++◌, any, ◌==◌, if◌then◌else◌,
}
use content_approval.Domain.DateTime.{DateTime}
use content_approval.Domain.Exceptions.{integrity_error}
use content_approval.Db.Models.{
  ApprovalRequestRow, ApprovalRequestReviewer, AuditLogEntry, OutboxEvent, IdempotencyKey, Db,
}
use content_approval.Db.Session.{
  NewRow, new_audit, new_event, new_key, Exec, ◌>>=◌, ◌>>◌, pure, raise, utcnow, modify_db,
}

-- The composite key `(workspace_id, id)`, by which the queries and the foreign keys select.
abbrev pub is_request : String → String → ApprovalRequestRow → Bool
is_request workspace_id request_id r = r.workspace_id == workspace_id && r.id == request_id

abbrev pub is_entry : String → String → String → IdempotencyKey → Bool
is_entry workspace_id route key k =
    k.workspace_id == workspace_id && k.route == route && k.idempotency_key == key

abbrev pub is_reviewer : String → String → String → ApprovalRequestReviewer → Bool
is_reviewer workspace_id request_id user_id v =
    v.workspace_id == workspace_id
    && v.approval_request_id == request_id
    && v.reviewer_user_id == user_id

-- The foreign key of the child tables.
abbrev pub has_parent : String → String → Db → Bool
has_parent workspace_id request_id db =
    any (is_request workspace_id request_id) db.approval_requests

unfoldable pub insert_request : ApprovalRequestRow → Db → Option Db
insert_request row db =
    if any (λ r. r.id == row.id) db.approval_requests
    then none
    else some (record db { approval_requests = db.approval_requests ++ row ∷ [] })

unfoldable pub insert_reviewer : ApprovalRequestReviewer → Db → Option Db
insert_reviewer v db =
    if not (has_parent v.workspace_id v.approval_request_id db)
      || any (is_reviewer v.workspace_id v.approval_request_id v.reviewer_user_id)
          db.approval_request_reviewers
    then none
    else some (record db { approval_request_reviewers = db.approval_request_reviewers ++ v ∷ [] })

unfoldable pub insert_audit : AuditLogEntry → Db → Option Db
insert_audit entry db =
    if not (has_parent entry.workspace_id entry.approval_request_id db)
      || any (λ e. e.id == entry.id) db.audit_log_entries
    then none
    else some (record db { audit_log_entries = db.audit_log_entries ++ entry ∷ [] })

unfoldable pub insert_event : OutboxEvent → Db → Option Db
insert_event event db =
    if not (has_parent event.workspace_id event.approval_request_id db)
      || any (λ e. e.id == event.id) db.outbox_events
    then none
    else some (record db { outbox_events = db.outbox_events ++ event ∷ [] })

unfoldable pub insert_key : IdempotencyKey → Db → Option Db
insert_key key db =
    if any (is_entry key.workspace_id key.route key.idempotency_key) db.idempotency_keys
    then none
    else some (record db { idempotency_keys = db.idempotency_keys ++ key ∷ [] })

unfoldable pub insert_row : NewRow → DateTime → Db → Option Db
unfolding insert_audit insert_event insert_key
insert_row (new_audit build) now db = insert_audit (build now) db
insert_row (new_event build) now db = insert_event (build now) db
insert_row (new_key build) now db = insert_key (build now) db

-- A statement that the database refuses raises.
abbrev pub replace_db : Option Db → Exec (Unit {0})
replace_db none = raise integrity_error
replace_db (some db) = modify_db (λ _. db)

abbrev pub execute : (Db → Option Db) → Exec (Unit {0})
execute statement w = replace_db (statement w.db) w

unfoldable pub insert_reviewers : List ApprovalRequestReviewer → Exec (Unit {0})
insert_reviewers [] = pure tt
insert_reviewers (v ∷ vs) = do execute (insert_reviewer v); insert_reviewers vs

unfoldable pub flush_rows : List NewRow → Exec (Unit {0})
flush_rows [] = pure tt
flush_rows (row ∷ rows) = do now ← utcnow; execute (insert_row row now); flush_rows rows

unfoldable pub flush : Exec (Unit {0})
unfolding flush_rows
flush w = flush_rows w.new (record w { new = [] })

-- ===== src/Schema/Rows.antt =====
-- Rows as a database with the declared tables sees them: what a primary key, a unique key and a foreign key
-- of a declaration in app/db/models.py let an insertion do.
use content_approval.Common.{
  String, Bool, true, false, not, ◌&&◌, ◌||◌, ◌==◌, Option, none, some, List, [], ◌∷◌, ◌++◌, any,
  map, if◌then◌else◌,
}
use content_approval.Db.Models.{
  ApprovalRequestRow, ApprovalRequestReviewer, AuditLogEntry, OutboxEvent, IdempotencyKey, Db,
}
use content_approval.Schema.{Table, ForeignKey, Key}
use content_approval.Schema.Declared.{
  requests_table, reviewers_table, audit_table, outbox_table, keys_table,
}

-- The texts of a row by their columns, those of the columns that are in some key.
abbrev pub Cells : Type 0
Cells = List (String × String)

abbrev pub cell : String → Cells → Option String
cell column [] = none
cell column ((name, text) ∷ rest) =
    let later = cell column rest in if name == column then some text else later

-- NULL is the same as nothing.
abbrev pub same_cell : Option String → Option String → Bool
same_cell (some s) (some t) = s == t
same_cell _ _ = false

abbrev pub agree : List String → Cells → List String → Cells → Bool
agree [] r [] s = true
agree (c ∷ cs) r (d ∷ ds) s = same_cell (cell c r) (cell d s) && agree cs r ds s
agree _ r _ s = false

-- One of the keys is taken.
abbrev pub is_taken : List Key → List Cells → Cells → Bool
is_taken [] rows r = false
is_taken (k ∷ ks) rows r = any (λ s. agree k.columns s k.columns r) rows || is_taken ks rows r

-- Each of the foreign keys has its row.
abbrev pub has_targets : List ForeignKey → (String → List Cells) → Cells → Bool
has_targets [] rows_of r = true
has_targets (f ∷ fs) rows_of r =
    any (λ s. agree f.target_columns s f.columns r) (rows_of f.target) && has_targets fs rows_of r

abbrev pub permits : Table → (String → List Cells) → Cells → Bool
permits t rows_of r =
    not (is_taken (t.primary_key ∷ t.unique) (rows_of t.name) r)
    && has_targets t.foreign_keys rows_of r

-- A row of one of the tables.
pub data Row : Type 0 where
  request : ApprovalRequestRow → Row
  reviewer : ApprovalRequestReviewer → Row
  audit : AuditLogEntry → Row
  event : OutboxEvent → Row
  key : IdempotencyKey → Row

abbrev pub table_of : Row → Table
table_of (request _) = requests_table
table_of (reviewer _) = reviewers_table
table_of (audit _) = audit_table
table_of (event _) = outbox_table
table_of (key _) = keys_table

abbrev pub cells_of : Row → Cells
cells_of (request r) = ("id", r.id) ∷ ("workspace_id", r.workspace_id) ∷ []
cells_of (reviewer v) =
    ("workspace_id", v.workspace_id)
    ∷ ("approval_request_id", v.approval_request_id)
    ∷ ("reviewer_user_id", v.reviewer_user_id)
    ∷ []
cells_of (audit e) =
    ("id", e.id)
    ∷ ("workspace_id", e.workspace_id)
    ∷ ("approval_request_id", e.approval_request_id)
    ∷ []
cells_of (event e) =
    ("id", e.id)
    ∷ ("workspace_id", e.workspace_id)
    ∷ ("approval_request_id", e.approval_request_id)
    ∷ []
cells_of (key k) =
    ("workspace_id", k.workspace_id)
    ∷ ("route", k.route)
    ∷ ("idempotency_key", k.idempotency_key)
    ∷ []

-- The rows of the table of that name.
abbrev pub rows_of : Db → String → List Cells
rows_of db name =
    if name == "approval_requests"
    then map (λ r. cells_of (request r)) db.approval_requests
    else if name == "approval_request_reviewers"
    then map (λ v. cells_of (reviewer v)) db.approval_request_reviewers
    else if name == "audit_log_entries"
    then map (λ e. cells_of (audit e)) db.audit_log_entries
    else if name == "outbox_events"
    then map (λ e. cells_of (event e)) db.outbox_events
    else if name == "idempotency_keys"
    then map (λ k. cells_of (key k)) db.idempotency_keys
    else []

abbrev pub appended : Row → Db → Db
appended (request r) db = record db { approval_requests = db.approval_requests ++ r ∷ [] }
appended (reviewer v) db = record db {
  approval_request_reviewers = db.approval_request_reviewers ++ v ∷ [];
}
appended (audit e) db = record db { audit_log_entries = db.audit_log_entries ++ e ∷ [] }
appended (event e) db = record db { outbox_events = db.outbox_events ++ e ∷ [] }
appended (key k) db = record db { idempotency_keys = db.idempotency_keys ++ k ∷ [] }

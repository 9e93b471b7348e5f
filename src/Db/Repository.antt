-- ===== src/Db/Repository.antt =====
-- app/db/repository.py: `SqlApprovalRequestRepository` over the session's tables. A query is a filter
-- of the table, in the order of insertion where the code asks for no other.
pub mod Rows
pub mod Page
pub mod Listing
pub mod Tiles
pub mod Arranged
pub mod Lookup
pub mod Transition
use content_approval.Common.{
  ℕ, String, Bool, ◌&&◌, Option, none, some, List, [], ◌∷◌, ◌++◌, map, filter, count, update_where,
  nat_eq, ◌==◌, if◌then◌else◌,
}
use Prim.Native.String
use content_approval.Domain.Enums.{ApprovalStatus, AuditAction, SourceType, status_eq}
use content_approval.Domain.DateTime.{DateTime}
use content_approval.Domain.Entities.{ApprovalRequest}
use content_approval.Domain.Exceptions.{
  domain, approval_request_not_found, invalid_transition, runtime_error, multiple_results_found,
}
use content_approval.Db.Models.{ApprovalRequestRow, ApprovalRequestReviewer, JsonObject, Db}
use content_approval.Db.Session.{
  World, Exec, ◌>>=◌, ◌>>◌, pure, raise, gets, token_hex, utcnow, modify_db, add, new_audit,
  new_event,
}
use content_approval.Db.Session.Flush.{is_request, execute, insert_request, insert_reviewers, flush}
use content_approval.Db.Repository.Rows.{to_entity, load_row, reviewers_of}
use content_approval.Db.Repository.Page.{newest_first, page}

-- `generate_id` of app/domain/ids.py
unfoldable pub generate_id : String → Exec String
generate_id prefix = do token ← token_hex; pure (String.◌++◌ prefix (String.◌++◌ "_" token))

-- The keyword arguments of `create`.
pub record NewRequest : Type 0 where
  pub request_id : String
  pub workspace_id : String
  pub created_by_user_id : String
  pub source_type : SourceType
  pub source_id : String
  pub title : String
  pub description : Option String
  pub reviewer_user_ids : List String

abbrev pub new_row : NewRequest → DateTime → DateTime → ApprovalRequestRow
new_row n created updated = record {
  id = n.request_id;
  workspace_id = n.workspace_id;
  source_type = n.source_type;
  source_id = n.source_id;
  title = n.title;
  description = n.description;
  status = ApprovalStatus.pending;
  created_by_user_id = n.created_by_user_id;
  created_at = created;
  updated_at = updated;
  decided_by_user_id = none;
  decided_at = none;
  decision_comment = none;
  decision_reason = none;
}

abbrev pub new_reviewers : NewRequest → List ApprovalRequestReviewer
new_reviewers n =
    map
      (λ reviewer_id. record {
        workspace_id = n.workspace_id;
        approval_request_id = n.request_id;
        reviewer_user_id = reviewer_id;
      })
      n.reviewer_user_ids

-- The flush writes what waited, then the row with its two defaults, then its reviewers.
unfoldable pub create : NewRequest → Exec ApprovalRequest
create n = do
  flush
  created ← utcnow
  updated ← utcnow
  let row = new_row n created updated
  execute (insert_request row)
  insert_reviewers (new_reviewers n)
  pure (to_entity row n.reviewer_user_ids)

-- `scalar_one_or_none`
unfoldable pub scalar_one_or_none {ℓ} : {A : Type ℓ} → List A → Exec (Option A)
scalar_one_or_none [] = pure none
scalar_one_or_none (row ∷ []) = pure (some row)
scalar_one_or_none (_ ∷ _ ∷ _) = raise multiple_results_found

abbrev pub entity_of : World → ApprovalRequestRow → ApprovalRequest
entity_of w row =
    to_entity (load_row w.dialect row) (w.reviewers_order.arrange (reviewers_of row w.db))

abbrev pub entity_or_none : World → Option ApprovalRequestRow → Option ApprovalRequest
entity_or_none w none = none
entity_or_none w (some row) = some (entity_of w row)

unfoldable pub get : String → String → Exec (Option ApprovalRequest)
unfolding scalar_one_or_none
get workspace_id request_id = do
  rows ← gets (λ w. filter (is_request workspace_id request_id) w.db.approval_requests)
  found ← scalar_one_or_none rows
  gets (λ w. entity_or_none w found)

-- The keyword arguments of `transition`, but for the key.
pub record Decision : Type 0 where
  pub new_status : ApprovalStatus
  pub decided_by_user_id : String
  pub decision_comment : Option String
  pub decision_reason : Option String

-- The WHERE and the VALUES of the conditional UPDATE.
abbrev pub is_open : String → String → ApprovalRequestRow → Bool
is_open workspace_id request_id r =
    is_request workspace_id request_id r && status_eq r.status ApprovalStatus.pending

abbrev pub decided : Decision → DateTime → ApprovalRequestRow → ApprovalRequestRow
decided d now r = record r {
  status = d.new_status;
  decided_by_user_id = some d.decided_by_user_id;
  decided_at = some now;
  decision_comment = d.decision_comment;
  decision_reason = d.decision_reason;
  updated_at = now;
}

abbrev pub update_requests :
    (ApprovalRequestRow → Bool) → (ApprovalRequestRow → ApprovalRequestRow) → Db → Db
update_requests p f db = record db { approval_requests = update_where p f db.approval_requests }

abbrev pub or_vanished : String → Option ApprovalRequest → Exec ApprovalRequest
or_vanished request_id none = raise (
    runtime_error
      (String.◌++◌ "request " (String.◌++◌ request_id " vanished right after transition")))
or_vanished request_id (some entity) = pure entity

abbrev pub refuse : String → Option ApprovalRequest → Exec ApprovalRequest
refuse request_id none = raise (domain (approval_request_not_found request_id))
refuse request_id (some current) = raise (domain (invalid_transition request_id current.status))

-- What follows the UPDATE, by its row count.
unfoldable pub after_update : String → String → ℕ → Exec ApprovalRequest
after_update workspace_id request_id rowcount =
    if nat_eq rowcount 1
    then (do updated ← get workspace_id request_id; or_vanished request_id updated)
    else (do current ← get workspace_id request_id; refuse request_id current)

unfoldable pub transition : String → String → Decision → Exec ApprovalRequest
transition workspace_id request_id d = do
  now ← utcnow
  rowcount ← gets (λ w. count (is_open workspace_id request_id) w.db.approval_requests)
  modify_db (update_requests (is_open workspace_id request_id) (decided d now))
  after_update workspace_id request_id rowcount

-- The conditions of `list`.
abbrev pub is_listed : String → Option ApprovalStatus → ApprovalRequestRow → Bool
is_listed workspace_id none r = r.workspace_id == workspace_id
is_listed workspace_id (some status) r = r.workspace_id == workspace_id && status_eq r.status status

unfoldable pub list : String → Option ApprovalStatus → ℕ → ℕ → Exec (List ApprovalRequest × ℕ)
unfolding newest_first page
list workspace_id status limit offset = do
  total ← gets (λ w. count (is_listed workspace_id status) w.db.approval_requests)
  rows ← gets (λ w.
      page limit offset
        (newest_first (filter (is_listed workspace_id status) w.db.approval_requests)))
  gets (λ w. (map (entity_of w) rows, total))

-- The keyword arguments that the two trails share, and the rows without their timestamps.
unfoldable pub record_audit_entry :
    String → String → String → AuditAction → Option JsonObject → Exec (Unit {0})
unfolding generate_id
record_audit_entry workspace_id approval_request_id actor_user_id action details = do
  id ← generate_id "aud"
  add (
      new_audit λ created. record {
        id = id;
        workspace_id = workspace_id;
        approval_request_id = approval_request_id;
        actor_user_id = actor_user_id;
        action = action;
        details = details;
        created_at = created;
      })

unfoldable pub record_outbox_event : String → String → String → JsonObject → Exec (Unit {0})
unfolding generate_id
record_outbox_event workspace_id approval_request_id event_type payload = do
  id ← generate_id "evt"
  add (
      new_event λ created. record {
        id = id;
        workspace_id = workspace_id;
        approval_request_id = approval_request_id;
        event_type = event_type;
        payload = payload;
        created_at = created;
        published_at = none;
      })

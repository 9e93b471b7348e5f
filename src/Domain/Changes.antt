-- ===== src/Domain/Changes.antt =====
-- What one committed operation of app/domain/service.py does to the database, as a relation, and the
-- histories that such operations make.
pub mod Final
pub mod Trails
pub mod Within
pub mod Parties
pub mod Done
use content_approval.Common.{
  String, ◌≡◌, false, true, Option, none, some, List, [], ◌∷◌, ◌++◌, any, ◌==◌,
}
use content_approval.Domain.Enums.{ApprovalStatus, AuditAction, OutboxEventType}
use content_approval.Domain.DateTime.{DateTime}
use content_approval.Db.Models.{ApprovalRequestRow, IdempotencyKey, Db, empty_db}
use content_approval.Db.Repository.{Decision, new_row}
use content_approval.Db.Repository.Lookup.{find_request}
use content_approval.Db.Repository.Transition.{is_pending}
use content_approval.Domain.Service.{Draft, new_request, approval, rejection, cancellation}
use content_approval.Domain.Service.Create.{creation_entry, creation_event, created_db}
use content_approval.Domain.Service.Decide.{decision_entry, decision_event, decided_db}

-- The three decisions.
pub data Choice : Type 0 where
  approve : Option String → Choice
  reject cancel : String → Choice

abbrev pub decision_of : Choice → String → Decision
decision_of (approve comment) actor = approval actor comment
decision_of (reject reason) actor = rejection actor reason
decision_of (cancel reason) actor = cancellation actor reason

abbrev pub action_of : Choice → AuditAction
action_of (approve _) = AuditAction.approved
action_of (reject _) = AuditAction.rejected
action_of (cancel _) = AuditAction.cancelled

abbrev pub event_of : Choice → OutboxEventType
event_of (approve _) = OutboxEventType.approval_request_approved
event_of (reject _) = OutboxEventType.approval_request_rejected
event_of (cancel _) = OutboxEventType.approval_request_cancelled

-- One committed operation, with the identifiers and the times that it drew.
pub data Change (db db' : Db) : Type 0 where
  creation :
      (d : Draft) (id audit_id event_id : String) (t u v x : DateTime)
      → any (λ r. r.id == id) db.approval_requests ≡ false
      → db'
        ≡ created_db d
            (new_row (new_request id d) t u)
            (creation_entry d id audit_id v)
            (creation_event d id event_id x)
            db
      → Change db db'
  decision :
      (ws id actor : String) (c : Choice) (audit_id event_id : String) (now u v : DateTime)
      (row : ApprovalRequestRow)
      → find_request ws id db ≡ some row
      → is_pending row ≡ true
      → db'
        ≡ decided_db ws id
            (decision_of c actor)
            (action_of c)
            (event_of c)
            now
            (decision_entry ws id (decision_of c actor) (action_of c) (event_of c) audit_id u)
            (decision_event ws id (decision_of c actor) (action_of c) (event_of c) event_id v)
            db
      → Change db db'
  idempotency_record :
      (k : IdempotencyKey)
      → db' ≡ record db { idempotency_keys = db.idempotency_keys ++ k ∷ [] }
      → Change db db'

-- The databases that operations can reach from one.
pub data Reaches (db : Db) : Db → Type 0 where
  start : Reaches db db
  step : {mid db' : Db} → Reaches db mid → Change mid db' → Reaches db db'

pub Reaches-trans : {a b c : Db} → Reaches a b → Reaches b c → Reaches a c
Reaches-trans ab start = ab
Reaches-trans ab (step bc change) = step (Reaches-trans ab bc) change

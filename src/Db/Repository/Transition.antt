-- ===== src/Db/Repository/Transition.antt =====
-- `transition` of app/db/repository.py in closed form.
use content_approval.Common.{
  suc, String, ◌≡◌, refl, ◌==◌, Option, none, some, count_unique, counted, find-update_where,
  updated, count-update_where, if◌then◌else◌, Bool, arith, Bool-cases, inl, inr,
}
use content_approval.Domain.Enums.{ApprovalStatus, status_eq}
use content_approval.Domain.DateTime.{DateTime, aware, utc}
use content_approval.Domain.Entities.{ApprovalRequest}
use content_approval.Domain.Exceptions.{domain, approval_request_not_found, invalid_transition}
use content_approval.Db.Models.{ApprovalRequestRow, Db}
use content_approval.Db.Session.{World, Outcome, returned, raised}
use content_approval.Db.Session.Flush.{is_request}
use content_approval.Db.Repository.{
  transition, after_update, Decision, decided, is_open, update_requests, entity_of,
}
use content_approval.Db.Repository.Lookup.{HasUniqueIds, find_request, count-request_le, get_lem}

abbrev pub is_pending : ApprovalRequestRow → Bool
is_pending r = status_eq r.status ApprovalStatus.pending

-- The clock's next reading, and the world after the UPDATE.
abbrev pub next_now : World → DateTime
next_now w = aware (w.clock 0) utc

abbrev pub updated_db : String → String → Decision → DateTime → Db → Db
updated_db workspace_id request_id d now =
    update_requests (is_open workspace_id request_id) (decided d now)

abbrev pub after_transition : String → String → Decision → World → World
after_transition workspace_id request_id d w = record w {
  clock = λ n. w.clock (suc n);
  db = updated_db workspace_id request_id d (next_now w) w.db;
}

abbrev pub transition_outcome :
    String → String → Decision → World → Option ApprovalRequestRow → Outcome ApprovalRequest
transition_outcome workspace_id request_id d w none =
    raised (domain (approval_request_not_found request_id))
      (after_transition workspace_id request_id d w)
transition_outcome workspace_id request_id d w (some r) =
    let w' = after_transition workspace_id request_id d w in
    if is_pending r
    then returned (entity_of w' (decided d (next_now w) r)) w'
    else raised (domain (invalid_transition request_id r.status)) w'

pub update-HasUniqueIds :
    (workspace_id request_id : String) (d : Decision) (now : DateTime) (db : Db)
    → HasUniqueIds db
    → HasUniqueIds (updated_db workspace_id request_id d now db)
update-HasUniqueIds workspace_id request_id d now db unique id =
    let same =
      count-update_where (λ r. r.id == id) (is_open workspace_id request_id) (decided d now)
        db.approval_requests (λ r. refl) in
    omega (arith, unique id, same)

pub find_request-update :
    (workspace_id request_id : String) (d : Decision) (now : DateTime) (db : Db)
    → find_request workspace_id request_id (updated_db workspace_id request_id d now db)
      ≡ updated is_pending (decided d now) (find_request workspace_id request_id db)
unfolding find_request
find_request-update workspace_id request_id d now db =
    find-update_where (is_request workspace_id request_id) is_pending (decided d now)
      db.approval_requests (λ r. refl)

-- What follows the UPDATE, once the row count and the row to read are known.
after_update_lem :
    (workspace_id request_id : String) (d : Decision) (w : World) (o : Option ApprovalRequestRow)
    → HasUniqueIds (after_transition workspace_id request_id d w).db
    → find_request workspace_id request_id (after_transition workspace_id request_id d w).db
      ≡ updated is_pending (decided d (next_now w)) o
    → after_update workspace_id request_id
        (counted is_pending o)
        (after_transition workspace_id request_id d w)
      ≡ transition_outcome workspace_id request_id d w o
unfolding after_update
after_update_lem workspace_id request_id d w none unique found =
    rw
      (get_lem workspace_id request_id (after_transition workspace_id request_id d w) unique, found)
after_update_lem workspace_id request_id d w (some r) unique found =
    let read =
      get_lem workspace_id request_id (after_transition workspace_id request_id d w) unique in
    elim (Bool-cases (is_pending r)) [
      | inl undecided ↦ rw (undecided, read, found, undecided)
      | inr final ↦ rw (final, read, found, final)
    ]

-- Where the keys of the rows are unique, the conditional UPDATE with what follows it has one outcome:
-- a missing row is not found, a row that is no longer pending is a conflict that names its status, and
-- a pending one is decided, returned as it is then, and no other row is touched.
pub transition_lem :
    (workspace_id request_id : String) (d : Decision) (w : World)
    → HasUniqueIds w.db
    → transition workspace_id request_id d w
      ≡ transition_outcome workspace_id request_id d w (find_request workspace_id request_id w.db)
unfolding transition find_request
transition_lem workspace_id request_id d w unique =
    rw
      (count_unique (is_request workspace_id request_id) is_pending w.db.approval_requests
        (count-request_le workspace_id request_id w.db unique))
      (after_update_lem workspace_id request_id d w (find_request workspace_id request_id w.db)
        (update-HasUniqueIds workspace_id request_id d (next_now w) w.db unique)
        (find_request-update workspace_id request_id d (next_now w) w.db))

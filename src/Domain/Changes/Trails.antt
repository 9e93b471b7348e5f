-- ===== src/Domain/Changes/Trails.antt =====
-- The audit trail and the outbox of app/domain/service.py beside the requests.
use content_approval.Common.{
  ℕ, ◌+◌, String, ◌≡◌, refl, subst₂, Bool, true, false, ◌==◌, ◌&&◌, Option, none, some, arith, any,
  count, count-append, eq_iff, eq_refl, Bool-cases, inl, inr, if◌then◌else◌,
}
use content_approval.Domain.DateTime.{DateTime}
use content_approval.Domain.Enums.{
  ApprovalStatus, AuditAction, OutboxEventType, event_type_value, status_eq,
}
use content_approval.Db.Models.{ApprovalRequestRow, AuditLogEntry, OutboxEvent, Db, empty_db}
use content_approval.Db.Repository.{decided, new_row}
use content_approval.Db.Repository.Lookup.{find_request, find_request-absent, find_request-new}
use content_approval.Db.Repository.Transition.{is_pending, updated_db, find_request-update}
use content_approval.Domain.Service.{new_request}
use content_approval.Domain.Changes.{
  Change, Choice, approve, reject, cancel, creation, decision, idempotency_record, decision_of,
  action_of, event_of, Reaches, start, step,
}
use content_approval.Domain.Changes.Final.{find_request-update_other}

-- The comparison of two actions.
abbrev pub action_eq : AuditAction → AuditAction → Bool
action_eq AuditAction.created AuditAction.created = true
action_eq AuditAction.approved AuditAction.approved = true
action_eq AuditAction.rejected AuditAction.rejected = true
action_eq AuditAction.cancelled AuditAction.cancelled = true
action_eq _ _ = false

-- The event that goes with an action.
abbrev pub event_for : AuditAction → OutboxEventType
event_for AuditAction.created = OutboxEventType.approval_request_created
event_for AuditAction.approved = OutboxEventType.approval_request_approved
event_for AuditAction.rejected = OutboxEventType.approval_request_rejected
event_for AuditAction.cancelled = OutboxEventType.approval_request_cancelled

abbrev pub tells : String → String → AuditAction → AuditLogEntry → Bool
tells ws id action e =
    e.workspace_id == ws && e.approval_request_id == id && action_eq e.action action

abbrev pub announces : String → String → AuditAction → OutboxEvent → Bool
announces ws id action e =
    e.workspace_id == ws
    && e.approval_request_id == id
    && e.event_type == event_type_value (event_for action)

-- How often an action stands in a trail, by the row that there is.
abbrev pub bit : Bool → ℕ
bit b = if b then 1 else 0

abbrev pub expected : AuditAction → Option ApprovalRequestRow → ℕ
expected action none = 0
expected AuditAction.created (some r) = 1
expected AuditAction.approved (some r) = bit (status_eq r.status ApprovalStatus.approved)
expected AuditAction.rejected (some r) = bit (status_eq r.status ApprovalStatus.rejected)
expected AuditAction.cancelled (some r) = bit (status_eq r.status ApprovalStatus.cancelled)

pub record TrailsAgree (db : Db) : Type 0 where
  pub audit :
      (ws id : String) (action : AuditAction)
      → count (tells ws id action) db.audit_log_entries ≡ expected action (find_request ws id db)
  pub outbox :
      (ws id : String) (action : AuditAction)
      → count (announces ws id action) db.outbox_events ≡ expected action (find_request ws id db)

creation-absent :
    (ws id new_id new_ws : String) (db : Db)
    → any (λ r. r.id == new_id) db.approval_requests ≡ false
    → ((new_ws == ws) && (new_id == id)) ≡ true
    → find_request ws id db ≡ none
creation-absent ws id new_id new_ws db absent own =
    find_request-absent ws id new_id db absent (ground (arith, eq_iff new_id id, eq_iff id new_id))

-- One more creation, by whether it is of the key (`a` and `b`).
creation-expected :
    (a b : Bool) (action : AuditAction) (o : Option ApprovalRequestRow) (row : ApprovalRequestRow)
    → row.status ≡ ApprovalStatus.pending
    → (a && b ≡ true → o ≡ none)
    → (expected action o + (bit (a && b && action_eq AuditAction.created action) + 0)
        ≡ expected action (if a && b then some row else o))
      × (expected action o
            + (bit (
                  a
                  && b
                  && event_type_value OutboxEventType.approval_request_created
                    == event_type_value (event_for action))
                + 0)
          ≡ expected action (if a && b then some row else o))
creation-expected true true AuditAction.created o row undecided absent = ground (arith, absent refl)
creation-expected true true AuditAction.approved o row undecided absent =
    ground (arith, absent refl)
creation-expected true true AuditAction.rejected o row undecided absent =
    ground (arith, absent refl)
creation-expected true true AuditAction.cancelled o row undecided absent =
    ground (arith, absent refl)
creation-expected true false action o row undecided absent = (omega arith, omega arith)
creation-expected false b action o row undecided absent = (omega arith, omega arith)

-- One more decision of a pending row.
decision-expected :
    (c : Choice) (action : AuditAction) (actor : String) (now : DateTime) (row : ApprovalRequestRow)
    → is_pending row ≡ true
    → (expected action (some row) + (bit (action_eq (action_of c) action) + 0)
        ≡ expected action (some (decided (decision_of c actor) now row)))
      × (expected action (some row)
            + (bit (event_type_value (event_of c) == event_type_value (event_for action)) + 0)
          ≡ expected action (some (decided (decision_of c actor) now row)))
decision-expected (approve comment) AuditAction.created actor now row undecided = ground arith
decision-expected (approve comment) AuditAction.approved actor now row undecided = ground arith
decision-expected (approve comment) AuditAction.rejected actor now row undecided = ground arith
decision-expected (approve comment) AuditAction.cancelled actor now row undecided = ground arith
decision-expected (reject reason) AuditAction.created actor now row undecided = ground arith
decision-expected (reject reason) AuditAction.approved actor now row undecided = ground arith
decision-expected (reject reason) AuditAction.rejected actor now row undecided = ground arith
decision-expected (reject reason) AuditAction.cancelled actor now row undecided = ground arith
decision-expected (cancel reason) AuditAction.created actor now row undecided = ground arith
decision-expected (cancel reason) AuditAction.approved actor now row undecided = ground arith
decision-expected (cancel reason) AuditAction.rejected actor now row undecided = ground arith
decision-expected (cancel reason) AuditAction.cancelled actor now row undecided = ground arith

-- An entry of another key is not counted.
apart_count : (a b k : Bool) (n : ℕ) → (a && b) ≡ false → n + (bit (a && b && k) + 0) ≡ n
apart_count a b k n apart = ground arith

-- After a decision, by whether it is of the key that is looked up.
module _ (ws id ws' id' actor : String) (c : Choice) (now : DateTime) (db : Db)
    (row : ApprovalRequestRow) (there : find_request ws' id' db ≡ some row)
    (undecided : is_pending row ≡ true) (action : AuditAction) where
  decision-found :
      (expected action (find_request ws id db)
          + (bit ((ws' == ws) && (id' == id) && action_eq (action_of c) action) + 0)
        ≡ expected action (find_request ws id (updated_db ws' id' (decision_of c actor) now db)))
      × (expected action (find_request ws id db)
            + (bit (
                  (ws' == ws)
                  && (id' == id)
                  && event_type_value (event_of c) == event_type_value (event_for action))
                + 0)
          ≡ expected action (find_request ws id (updated_db ws' id' (decision_of c actor) now db)))
  decision-found = elim (Bool-cases ((ws' == ws) && (id' == id))) [
    | inr apart ↦ rw (find_request-update_other ws id ws' id' (decision_of c actor) now db apart) (
      apart_count (ws' == ws) (id' == id) _ _ apart,
      apart_count (ws' == ws) (id' == id) _ _ apart,
    )
    | inl hit ↦
        let same_ws : ws' ≡ ws = ground (arith, eq_iff ws' ws, eq_iff id' id) in
        let same_id : id' ≡ id = ground (arith, eq_iff ws' ws, eq_iff id' id) in
        let found : find_request ws id db ≡ some row =
          subst₂ (λ x y. find_request x y db ≡ some row) same_ws same_id there in
        rw
          (
            same_ws,
            same_id,
            eq_refl ws,
            eq_refl id,
            find_request-update ws id (decision_of c actor) now db,
            found,
            undecided,
          )
          (decision-expected c action actor now row undecided)
  ]

module _ {db db' : Db} (agree : TrailsAgree db) where
  Change-audit :
      Change db db'
      → (ws id : String) (action : AuditAction)
      → count (tells ws id action) db'.audit_log_entries ≡ expected action (find_request ws id db')
  unfolding find_request
  Change-audit (creation d new_id a e t u v x absent same) ws id action = rw same (
      rw
        (
          count-append (tells ws id action) db.audit_log_entries,
          find_request-new ws id db (new_row (new_request new_id d) t u) absent,
          agree.audit ws id action,
        )
        (creation-expected (d.workspace_id == ws) (new_id == id) action (find_request ws id db)
          (new_row (new_request new_id d) t u) refl
          (creation-absent ws id new_id d.workspace_id db absent)).0)
  Change-audit (decision ws' id' actor c a e now u v row there undecided same) ws id action =
      rw same (
        rw (count-append (tells ws id action) db.audit_log_entries, agree.audit ws id action)
          (decision-found ws id ws' id' actor c now db row there undecided action).0)
  Change-audit (idempotency_record k same) ws id action = rw same (agree.audit ws id action)

  Change-outbox :
      Change db db'
      → (ws id : String) (action : AuditAction)
      → count (announces ws id action) db'.outbox_events ≡ expected action (find_request ws id db')
  unfolding find_request
  Change-outbox (creation d new_id a e t u v x absent same) ws id action = rw same (
      rw
        (
          count-append (announces ws id action) db.outbox_events,
          find_request-new ws id db (new_row (new_request new_id d) t u) absent,
          agree.outbox ws id action,
        )
        (creation-expected (d.workspace_id == ws) (new_id == id) action (find_request ws id db)
          (new_row (new_request new_id d) t u) refl
          (creation-absent ws id new_id d.workspace_id db absent)).1)
  Change-outbox (decision ws' id' actor c a e now u v row there undecided same) ws id action =
      rw same (
        rw (count-append (announces ws id action) db.outbox_events, agree.outbox ws id action)
          (decision-found ws id ws' id' actor c now db row there undecided action).1)
  Change-outbox (idempotency_record k same) ws id action = rw same (agree.outbox ws id action)

  pub Change-TrailsAgree : Change db db' → TrailsAgree db'
  Change-TrailsAgree change = record { audit = Change-audit change; outbox = Change-outbox change }

-- In every database that operations reach from one where the trails agree with the requests, they do:
-- for each key and action the audit trail and the outbox hold as many entries as the request's status
-- says, none for a key without a request.
pub Reaches-TrailsAgree : {db db' : Db} → TrailsAgree db → Reaches db db' → TrailsAgree db'
Reaches-TrailsAgree agree start = agree
Reaches-TrailsAgree agree (step reached change) =
    Change-TrailsAgree (Reaches-TrailsAgree agree reached) change

pub empty-TrailsAgree : TrailsAgree empty_db
unfolding find_request
empty-TrailsAgree = record { audit = λ ws id action. refl; outbox = λ ws id action. refl }

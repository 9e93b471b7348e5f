-- ===== src/Domain/Service/Branches.antt =====
-- A decision of app/domain/service.py in one request's transaction: what it answers and does on every
-- branch, for any check of the request that it has read.
use content_approval.Common.{
  String, ◌≡◌, refl, Option, none, some, [], true, false, if◌then◌else◌, Bool-cases, Option-cases,
  inl, inr, ◌⊎◌, arith,
}
use content_approval.Domain.Enums.{AuditAction, OutboxEventType}
use content_approval.Domain.Entities.{ApprovalRequest}
use content_approval.Domain.Exceptions.{
  Failure, domain, approval_request_not_found, invalid_transition, integrity_error,
}
use content_approval.Db.Models.{ApprovalRequestRow, Db}
use content_approval.Db.Session.{
  World, Outcome, returned, raised, Exec, ◌>>=◌, ◌>>◌, pure, raise, Result, ok, err, effect, answer,
}
use content_approval.Db.Session.Transaction.{get_db, finish}
use content_approval.Db.Repository.{Decision, decided, entity_of}
use content_approval.Db.Repository.Lookup.{HasUniqueIds, find_request, get_lem}
use content_approval.Db.Repository.Transition.{is_pending, next_now}
use content_approval.Domain.Service.{get_or_raise, decide}
use content_approval.Domain.Service.Decide.{
  HasFreshTrailIds, audit_taken, event_taken, decided_world, decide-commits, decide-refuses,
  decide-taken,
}

-- A body that ended in an exception leaves the database alone.
finish-err :
    (before : Db) (o : Outcome ApprovalRequest) (e : Failure)
    → answer o ≡ err e
    → effect (finish before o) ≡ (err e, before)
finish-err before (returned a w) e h = cc
finish-err before (raised e' w) e h = ground arith

-- A check of the request that has been read: it passes, or raises.
abbrev pub checked : Option Failure → Exec (Unit {0})
checked none = pure tt
checked (some e) = raise e

-- What a decision can do to the database, with no hypothesis on identifiers.
module _ (workspace_id request_id : String) (d : Decision) (action : AuditAction)
    (event : OutboxEventType) where
  -- The row was there and pending, and the database is the decided one.
  pub record IsDecided (w : World) (o : Outcome ApprovalRequest) : Type 0 where
    pub row : ApprovalRequestRow
    pub found : find_request workspace_id request_id w.db ≡ some row
    pub undecided : is_pending row ≡ true
    pub done : effect o ≡ (
      ok (entity_of w (decided d (next_now w) row)),
      (decided_world workspace_id request_id d action event w).db,
    )

module _ (workspace_id request_id : String) (d : Decision) (action : AuditAction)
    (event : OutboxEventType) where
  abbrev pub on_row : World → ApprovalRequestRow → Option Failure → Result ApprovalRequest × Db
  on_row w r (some e) = (err e, w.db)
  on_row w r none =
      if is_pending r
      then (
        ok (entity_of w (decided d (next_now w) r)),
        (decided_world workspace_id request_id d action event w).db,
      )
      else (err (domain (invalid_transition request_id r.status)), w.db)

  -- What a decision answers and does, by the row of the key and by whom it refuses.
  abbrev pub verdict :
      (ApprovalRequest → Option Failure)
      → World
      → Option ApprovalRequestRow
      → Result ApprovalRequest × Db
  verdict refusal w none = (err (domain (approval_request_not_found request_id)), w.db)
  verdict refusal w (some r) = on_row w r (refusal (entity_of w r))

  module _ (check : ApprovalRequest → Exec (Unit {0})) (refusal : ApprovalRequest → Option Failure)
      (same : (request : ApprovalRequest) (w : World)
        → check request w ≡ checked (refusal request) w) where
    abbrev pub decision : Exec ApprovalRequest
    decision = do
      request ← get_or_raise workspace_id request_id
      check request
      decide workspace_id request_id d action event

    decision-refused :
        (w : World) (r : ApprovalRequestRow) (e : Failure)
        → HasUniqueIds w.db
        → find_request workspace_id request_id w.db ≡ some r
        → refusal (entity_of w r) ≡ some e
        → effect (get_db decision w) ≡ (err e, w.db)
    unfolding get_db get_or_raise
    decision-refused w r e unique found refused =
        let w0 : World = record w { new = [] } in
        rw (get_lem workspace_id request_id w0 unique, found, same (entity_of w r) w0, refused)

    decision-final :
        (w : World) (r : ApprovalRequestRow)
        → HasUniqueIds w.db
        → find_request workspace_id request_id w.db ≡ some r
        → refusal (entity_of w r) ≡ none
        → is_pending r ≡ false
        → effect (get_db decision w) ≡ (err (domain (invalid_transition request_id r.status)), w.db)
    unfolding get_db get_or_raise
    decision-final w r unique found refused final =
        let w0 : World = record w { new = [] } in
        rw (
          get_lem workspace_id request_id w0 unique,
          found,
          same (entity_of w r) w0,
          refused,
          decide-refuses workspace_id request_id d action event w0 r unique found final,
        )

    decision-done :
        (w : World) (r : ApprovalRequestRow)
        → HasUniqueIds w.db
        → HasFreshTrailIds w
        → find_request workspace_id request_id w.db ≡ some r
        → refusal (entity_of w r) ≡ none
        → is_pending r ≡ true
        → effect (get_db decision w) ≡ (
          ok (entity_of w (decided d (next_now w) r)),
          (decided_world workspace_id request_id d action event w).db,
        )
    unfolding get_db get_or_raise
    decision-done w r unique fresh found refused undecided =
        let w0 : World = record w { new = [] } in
        rw (
          get_lem workspace_id request_id w0 unique,
          found,
          same (entity_of w r) w0,
          refused,
          decide-commits workspace_id request_id d action event w0 r unique
              (record { audit = fresh.audit; event = fresh.event }) found undecided refl,
        )

    decision-on_row :
        (w : World) (r : ApprovalRequestRow) (o : Option Failure)
        → HasUniqueIds w.db
        → HasFreshTrailIds w
        → find_request workspace_id request_id w.db ≡ some r
        → refusal (entity_of w r) ≡ o
        → effect (get_db decision w) ≡ on_row w r o
    decision-on_row w r (some e) unique fresh found refused =
        decision-refused w r e unique found refused
    decision-on_row w r none unique fresh found refused = elim (Bool-cases (is_pending r)) [
      | inl undecided ↦ rw undecided (decision-done w r unique fresh found refused undecided)
      | inr final ↦ rw final (decision-final w r unique found refused final)
    ]

    decision-taken :
        (w : World) (r : ApprovalRequestRow)
        → HasUniqueIds w.db
        → find_request workspace_id request_id w.db ≡ some r
        → refusal (entity_of w r) ≡ none
        → is_pending r ≡ true
        → (audit_taken w ≡ true) ⊎ (audit_taken w ≡ false) × (event_taken w ≡ true)
        → effect (get_db decision w) ≡ (err integrity_error, w.db)
    unfolding get_db get_or_raise
    decision-taken w r unique found refused undecided taken =
        let w0 : World = record w { new = [] } in
        let read = get_lem workspace_id request_id w0 unique in
        let pass = same (entity_of w r) w0 in
        let end =
          decide-taken workspace_id request_id d action event w0 r unique found undecided refl
            taken in
        rw (read, found, pass, refused) (finish-err w.db _ integrity_error end)

    decision-missing :
        (w : World)
        → HasUniqueIds w.db
        → find_request workspace_id request_id w.db ≡ none
        → effect (get_db decision w) ≡ verdict refusal w none
    unfolding get_db get_or_raise
    decision-missing w unique missing =
        rw (get_lem workspace_id request_id (record w { new = [] }) unique, missing)

    pub decision_lem :
        (w : World)
        → HasUniqueIds w.db
        → HasFreshTrailIds w
        → effect (get_db decision w) ≡ verdict refusal w (find_request workspace_id request_id w.db)
    decision_lem w unique fresh = elim (Option-cases (find_request workspace_id request_id w.db)) [
      | inl missing ↦ rw missing (decision-missing w unique missing)
      | inr (r, found) ↦
          rw found (decision-on_row w r (refusal (entity_of w r)) unique fresh found refl)
    ]

    decision-cases_pending :
        (w : World) (r : ApprovalRequestRow)
        → HasUniqueIds w.db
        → find_request workspace_id request_id w.db ≡ some r
        → refusal (entity_of w r) ≡ none
        → is_pending r ≡ true
        → IsDecided workspace_id request_id d action event w (get_db decision w)
          ⊎ ((e : Failure) × (effect (get_db decision w) ≡ (err e, w.db)))
    decision-cases_pending w r unique found refused undecided = elim (Bool-cases (audit_taken w)) [
      | inl taken ↦
          inr (integrity_error, decision-taken w r unique found refused undecided (inl taken))
      | inr audit ↦ elim (Bool-cases (event_taken w)) [
        | inl taken ↦ inr (
          integrity_error,
          decision-taken w r unique found refused undecided (inr (audit, taken)),
        )
        | inr evt ↦ inl (record {
          row = r;
          found = found;
          undecided = undecided;
          done =
              decision-done w r unique (record { audit = audit; event = evt }) found refused
                undecided;
        })
      ]
    ]

    -- A decision is committed on a pending row, or it raises and leaves the database alone.
    pub decision-cases :
        (w : World)
        → HasUniqueIds w.db
        → IsDecided workspace_id request_id d action event w (get_db decision w)
          ⊎ ((e : Failure) × (effect (get_db decision w) ≡ (err e, w.db)))
    decision-cases w unique = elim (Option-cases (find_request workspace_id request_id w.db)) [
      | inl missing ↦
          inr (domain (approval_request_not_found request_id), decision-missing w unique missing)
      | inr (r, found) ↦ elim (Option-cases (refusal (entity_of w r))) [
        | inr (e, refused) ↦ inr (e, decision-refused w r e unique found refused)
        | inl allowed ↦ elim (Bool-cases (is_pending r)) [
          | inl undecided ↦ decision-cases_pending w r unique found allowed undecided
          | inr final ↦ inr (
            domain (invalid_transition request_id r.status),
            decision-final w r unique found allowed final,
          )
        ]
      ]
    ]

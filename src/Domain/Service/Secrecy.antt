-- ===== src/Domain/Service/Secrecy.antt =====
-- What a decision of app/domain/service.py tells outside the database of requests: the events of the
-- outbox and the log lines have nothing of its comment or its reason.
use content_approval.Common.{
  String, ◌≡◌, refl, ap, ◌∙◌, ◌⊎◌, Bool, true, false, Option, none, some, List, [], ◌∷◌, ◌++◌, ◌||◌,
  if◌then◌else◌, Bool-cases, Option-cases, inl, inr,
}
use content_approval.Domain.Enums.{AuditAction, OutboxEventType}
use content_approval.Domain.Entities.{ApprovalRequest}
use content_approval.Domain.Exceptions.{Failure, integrity_error}
use content_approval.Db.Models.{ApprovalRequestRow, OutboxEvent, Db}
use content_approval.Db.Session.{
  World, LogRecord, Outcome, returned, raised, Exec, ◌>>=◌, ◌>>◌, pure, err, answer, world_of,
}
use content_approval.Db.Session.Flush.{flush, flush_rows, insert_row}
use content_approval.Db.Session.Transaction.{get_db, finish}
use content_approval.Db.Repository.{Decision, entity_of}
use content_approval.Db.Repository.Lookup.{HasUniqueIds, find_request, get_lem}
use content_approval.Db.Repository.Transition.{is_pending, next_now, transition_lem}
use content_approval.Domain.Service.{get_or_raise, decide, record_decision}
use content_approval.Domain.Service.Decide.{
  HasFreshTrailIds, id_of, audit_taken, event_taken, decision_event, decision_log, decide-commits,
  decide-refuses, decide-taken, parent_of_updated,
}
use content_approval.Domain.Service.Branches.{checked, decision}
use content_approval.Domain.DateTime.{aware, utc}

-- What leaves the tables of a workspace: the events that wait to be published, and the log lines.
abbrev pub told : World → List OutboxEvent × List LogRecord
told w = (w.db.outbox_events, w.log)

module _ (workspace_id request_id : String) (d : Decision) (action : AuditAction)
    (event : OutboxEventType) where
  decide-taken_log :
      (w : World) (r : ApprovalRequestRow)
      → HasUniqueIds w.db
      → find_request workspace_id request_id w.db ≡ some r
      → is_pending r ≡ true
      → w.new ≡ []
      → (audit_taken w ≡ true) ⊎ (audit_taken w ≡ false) × (event_taken w ≡ true)
      → (world_of
          ((do updated ← decide workspace_id request_id d action event; flush; pure updated) w)).log
        ≡ w.log ++ decision_log workspace_id request_id d action event ∷ []
  unfolding decide record_decision flush flush_rows insert_row
  decide-taken_log w r unique found undecided idle (inl taken) =
      let parent =
        parent_of_updated workspace_id request_id d action event w.db (next_now w) r found in
      rw (transition_lem workspace_id request_id d w unique, found, undecided, idle, parent, taken)
        refl
  decide-taken_log w r unique found undecided idle (inr (free, taken)) =
      let parent =
        parent_of_updated workspace_id request_id d action event w.db (next_now w) r found in
      rw
        (
          transition_lem workspace_id request_id d w unique,
          found,
          undecided,
          idle,
          parent,
          free,
          parent,
          taken,
        )
        refl

-- A commit that failed: its lines stay, its rows do not.
told-finish :
    (before : Db) (o : Outcome ApprovalRequest) (e : Failure)
    → answer o ≡ err e
    → told (world_of (finish before o)) ≡ (before.outbox_events, (world_of o).log)
told-finish before (returned a w) e h = cc
told-finish before (raised f w) e h = refl

module _ (workspace_id request_id : String) (d : Decision) (action : AuditAction)
    (event : OutboxEventType) where
  abbrev logged : World → List LogRecord
  logged w = w.log ++ decision_log workspace_id request_id d action event ∷ []

  abbrev told_pending : World → Bool → List OutboxEvent × List LogRecord
  told_pending w true = (w.db.outbox_events, logged w)
  told_pending w false = (
    w.db.outbox_events
        ++ decision_event workspace_id request_id d action event (id_of "evt" (w.tokens 1))
            (aware (w.clock 2) utc)
          ∷ [],
    logged w,
  )

  abbrev told_row : World → ApprovalRequestRow → Option Failure → List OutboxEvent × List LogRecord
  told_row w r (some e) = told w
  told_row w r none =
      if is_pending r then told_pending w (audit_taken w || event_taken w) else told w

  -- What a decision tells, by the row of its key and by whom it refuses.
  abbrev pub told_by :
      (ApprovalRequest → Option Failure)
      → World
      → Option ApprovalRequestRow
      → List OutboxEvent × List LogRecord
  told_by refusal w none = told w
  told_by refusal w (some r) = told_row w r (refusal (entity_of w r))

  module _ (check : ApprovalRequest → Exec (Unit {0})) (refusal : ApprovalRequest → Option Failure)
      (same : (request : ApprovalRequest) (w : World)
        → check request w ≡ checked (refusal request) w) where
    abbrev run : World → Outcome ApprovalRequest
    run = get_db (decision workspace_id request_id d action event check refusal same)

    told-missing :
        (w : World)
        → HasUniqueIds w.db
        → find_request workspace_id request_id w.db ≡ none
        → told (world_of (run w)) ≡ told w
    unfolding get_db get_or_raise
    told-missing w unique missing =
        rw (get_lem workspace_id request_id (record w { new = [] }) unique, missing)

    told-refused :
        (w : World) (r : ApprovalRequestRow) (e : Failure)
        → HasUniqueIds w.db
        → find_request workspace_id request_id w.db ≡ some r
        → refusal (entity_of w r) ≡ some e
        → told (world_of (run w)) ≡ told w
    unfolding get_db get_or_raise
    told-refused w r e unique found refused =
        let w0 : World = record w { new = [] } in
        rw (get_lem workspace_id request_id w0 unique, found, same (entity_of w r) w0, refused)

    told-final :
        (w : World) (r : ApprovalRequestRow)
        → HasUniqueIds w.db
        → find_request workspace_id request_id w.db ≡ some r
        → refusal (entity_of w r) ≡ none
        → is_pending r ≡ false
        → told (world_of (run w)) ≡ told w
    unfolding get_db get_or_raise
    told-final w r unique found allowed final =
        let w0 : World = record w { new = [] } in
        rw (
          get_lem workspace_id request_id w0 unique,
          found,
          same (entity_of w r) w0,
          allowed,
          decide-refuses workspace_id request_id d action event w0 r unique found final,
        )

    told-taken :
        (w : World) (r : ApprovalRequestRow)
        → HasUniqueIds w.db
        → find_request workspace_id request_id w.db ≡ some r
        → refusal (entity_of w r) ≡ none
        → is_pending r ≡ true
        → (audit_taken w ≡ true) ⊎ (audit_taken w ≡ false) × (event_taken w ≡ true)
        → told (world_of (run w)) ≡ told_pending w true
    unfolding get_db get_or_raise
    told-taken w r unique found allowed undecided taken =
        let w0 : World = record w { new = [] } in
        let end =
          decide-taken workspace_id request_id d action event w0 r unique found undecided refl
            taken in
        let line =
          decide-taken_log workspace_id request_id d action event w0 r unique found undecided refl
            taken in
        rw (get_lem workspace_id request_id w0 unique, found, same (entity_of w r) w0, allowed)
          (told-finish w.db _ integrity_error end ∙ ap (λ log. (w.db.outbox_events, log)) line)

    told-done :
        (w : World) (r : ApprovalRequestRow)
        → HasUniqueIds w.db
        → HasFreshTrailIds w
        → find_request workspace_id request_id w.db ≡ some r
        → refusal (entity_of w r) ≡ none
        → is_pending r ≡ true
        → told (world_of (run w)) ≡ told_pending w false
    unfolding get_db get_or_raise
    told-done w r unique fresh found allowed undecided =
        let w0 : World = record w { new = [] } in
        rw (
          get_lem workspace_id request_id w0 unique,
          found,
          same (entity_of w r) w0,
          allowed,
          decide-commits workspace_id request_id d action event w0 r unique
              (record { audit = fresh.audit; event = fresh.event }) found undecided refl,
        )

    told-pending :
        (w : World) (r : ApprovalRequestRow)
        → HasUniqueIds w.db
        → find_request workspace_id request_id w.db ≡ some r
        → refusal (entity_of w r) ≡ none
        → is_pending r ≡ true
        → told (world_of (run w)) ≡ told_pending w (audit_taken w || event_taken w)
    told-pending w r unique found allowed undecided = elim (Bool-cases (audit_taken w)) [
      | inl audit ↦ rw audit (told-taken w r unique found allowed undecided (inl audit))
      | inr audit ↦ elim (Bool-cases (event_taken w)) [
        | inl evt ↦
            rw (audit, evt) (told-taken w r unique found allowed undecided (inr (audit, evt)))
        | inr evt ↦
            rw (audit, evt)
              (told-done w r unique (record { audit = audit; event = evt }) found allowed undecided)
      ]
    ]

    pub decision-told :
        (w : World)
        → HasUniqueIds w.db
        → told (world_of (run w)) ≡ told_by refusal w (find_request workspace_id request_id w.db)
    decision-told w unique = elim (Option-cases (find_request workspace_id request_id w.db)) [
      | inl missing ↦ rw missing (told-missing w unique missing)
      | inr (r, found) ↦ elim (Option-cases (refusal (entity_of w r))) [
        | inr (e, refused) ↦ rw (found, refused) (told-refused w r e unique found refused)
        | inl allowed ↦ elim (Bool-cases (is_pending r)) [
          | inl undecided ↦
              rw (found, allowed, undecided) (told-pending w r unique found allowed undecided)
          | inr final ↦ rw (found, allowed, final) (told-final w r unique found allowed final)
        ]
      ]
    ]

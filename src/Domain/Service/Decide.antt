-- ===== src/Domain/Service/Decide.antt =====
-- `_decide` of app/domain/service.py and the commit that follows it, in closed form.
use Prim.Native.String
use content_approval.Common.{
  suc, String, ◌≡◌, refl, ◌==◌, none, some, [], ◌∷◌, ◌++◌, any, update_where, any-of-some,
  any-update_where, ◌⊎◌, inl, inr, Bool, true, false,
}
use content_approval.Domain.Enums.{
  AuditAction, OutboxEventType, audit_action_value, event_type_value, status_value,
}
use content_approval.Domain.DateTime.{DateTime, aware, utc}
use content_approval.Db.Models.{ApprovalRequestRow, AuditLogEntry, OutboxEvent, Db}
use content_approval.Db.Session.{World, LogRecord, returned, raised, ◌>>=◌, ◌>>◌, pure, err, answer}
use content_approval.Db.Session.Flush.{is_request, has_parent, flush, flush_rows, insert_row}
use content_approval.Db.Repository.{Decision, decided, is_open, entity_of}
use content_approval.Db.Repository.Lookup.{HasUniqueIds, find_request}
use content_approval.Domain.Exceptions.{domain, invalid_transition, integrity_error}
use content_approval.Db.Repository.Transition.{
  is_pending, next_now, transition_lem, updated_db, after_transition,
}
use content_approval.Domain.Service.{decide, record_decision, decision_details, decided_payload}

-- The identifier that `generate_id` makes of a token.
abbrev pub id_of : String → String → String
id_of prefix token = String.◌++◌ prefix (String.◌++◌ "_" token)

abbrev pub audit_taken : World → Bool
audit_taken w = any (λ e. e.id == id_of "aud" (w.tokens 0)) w.db.audit_log_entries

abbrev pub event_taken : World → Bool
event_taken w = any (λ e. e.id == id_of "evt" (w.tokens 1)) w.db.outbox_events

-- The world's next tokens give identifiers that the two trails do not hold yet.
pub record HasFreshTrailIds (w : World) : Type 0 where
  pub audit : audit_taken w ≡ false
  pub event : event_taken w ≡ false

module _ (workspace_id request_id : String) (d : Decision) (action : AuditAction)
    (event : OutboxEventType) where
  abbrev pub decision_entry : String → DateTime → AuditLogEntry
  decision_entry id created = record {
    id = id;
    workspace_id = workspace_id;
    approval_request_id = request_id;
    actor_user_id = d.decided_by_user_id;
    action = action;
    details = decision_details d.decision_comment d.decision_reason;
    created_at = created;
  }

  abbrev pub decision_event : String → DateTime → OutboxEvent
  decision_event id created = record {
    id = id;
    workspace_id = workspace_id;
    approval_request_id = request_id;
    event_type = event_type_value event;
    payload = decided_payload workspace_id request_id d.decided_by_user_id d.new_status;
    created_at = created;
    published_at = none;
  }

  abbrev pub decided_db : DateTime → AuditLogEntry → OutboxEvent → Db → Db
  decided_db now entry evt db = record db {
    approval_requests =
        update_where (is_open workspace_id request_id) (decided d now) db.approval_requests;
    audit_log_entries = db.audit_log_entries ++ entry ∷ [];
    outbox_events = db.outbox_events ++ evt ∷ [];
  }

  abbrev pub decision_log : LogRecord
  decision_log = record {
    message = String.◌++◌ "approval request " (audit_action_value action);
    context =
        ("workspace_id", workspace_id)
        ∷ ("request_id", request_id)
        ∷ ("actor_user_id", d.decided_by_user_id)
        ∷ ("new_status", status_value d.new_status)
        ∷ [];
  }

  abbrev pub decided_world : World → World
  decided_world w = record w {
    db =
        decided_db (next_now w) (decision_entry (id_of "aud" (w.tokens 0)) (aware (w.clock 1) utc))
          (decision_event (id_of "evt" (w.tokens 1)) (aware (w.clock 2) utc)) w.db;
    new = [];
    tokens = λ n. w.tokens (suc (suc n));
    clock = λ n. w.clock (suc (suc (suc n)));
    log = w.log ++ decision_log ∷ [];
  }

  pub parent_of_updated :
      (db : Db) (now : DateTime) (r : ApprovalRequestRow)
      → find_request workspace_id request_id db ≡ some r
      → has_parent workspace_id request_id (updated_db workspace_id request_id d now db) ≡ true
  unfolding find_request
  parent_of_updated db now r found =
      rw
        (any-update_where (is_request workspace_id request_id) (is_open workspace_id request_id)
          (decided d now) db.approval_requests (λ x. refl))
        (any-of-some (is_request workspace_id request_id) db.approval_requests r found)

  -- A decision on a pending request, with identifiers that are not taken, is committed.
  pub decide-commits :
      (w : World) (r : ApprovalRequestRow)
      → HasUniqueIds w.db
      → HasFreshTrailIds w
      → find_request workspace_id request_id w.db ≡ some r
      → is_pending r ≡ true
      → w.new ≡ []
      → (do updated ← decide workspace_id request_id d action event; flush; pure updated) w
        ≡ returned (entity_of w (decided d (next_now w) r)) (decided_world w)
  unfolding decide record_decision flush flush_rows insert_row
  decide-commits w r unique fresh found undecided idle =
      let parent = parent_of_updated w.db (next_now w) r found in
      rw (
        transition_lem workspace_id request_id d w unique,
        found,
        undecided,
        idle,
        parent,
        fresh.audit,
        parent,
        fresh.event,
      )

  -- A decision on a request that is not pending raises, and nothing is recorded.
  pub decide-refuses :
      (w : World) (r : ApprovalRequestRow)
      → HasUniqueIds w.db
      → find_request workspace_id request_id w.db ≡ some r
      → is_pending r ≡ false
      → decide workspace_id request_id d action event w
        ≡ raised
            (domain (invalid_transition request_id r.status))
            (after_transition workspace_id request_id d w)
  unfolding decide
  decide-refuses w r unique found final =
      rw (transition_lem workspace_id request_id d w unique, found, final)

  -- A commit whose identifiers are taken raises.
  pub decide-taken :
      (w : World) (r : ApprovalRequestRow)
      → HasUniqueIds w.db
      → find_request workspace_id request_id w.db ≡ some r
      → is_pending r ≡ true
      → w.new ≡ []
      → (audit_taken w ≡ true) ⊎ (audit_taken w ≡ false) × (event_taken w ≡ true)
      → answer ((do updated ← decide workspace_id request_id d action event; flush; pure updated) w)
        ≡ err integrity_error
  unfolding decide record_decision flush flush_rows insert_row
  decide-taken w r unique found undecided idle (inl taken) =
      let parent = parent_of_updated w.db (next_now w) r found in
      rw (transition_lem workspace_id request_id d w unique, found, undecided, idle, parent, taken)
  decide-taken w r unique found undecided idle (inr (free, taken)) =
      let parent = parent_of_updated w.db (next_now w) r found in
      rw (
        transition_lem workspace_id request_id d w unique,
        found,
        undecided,
        idle,
        parent,
        free,
        parent,
        taken,
      )

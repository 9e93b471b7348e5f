-- ===== src/Domain/Service/Create.antt =====
-- `create_request` of app/domain/service.py in one request's transaction, in closed form.
use mathlib.Core.List.{append-nil, append_assoc}
use content_approval.Common.{
  suc, String, ◌≡◌, Bool, true, false, not, ◌||◌, ◌==◌, ◌⊎◌, inl, inr, none, some, List, [], ◌∷◌,
  ◌++◌, any, Bool-cases,
}
use content_approval.Domain.Enums.{ApprovalStatus, AuditAction, OutboxEventType, event_type_value}
use content_approval.Domain.DateTime.{DateTime, aware, utc}
use content_approval.Domain.Exceptions.{integrity_error}
use content_approval.Db.Models.{
  ApprovalRequestRow, ApprovalRequestReviewer, AuditLogEntry, OutboxEvent, Db,
}
use content_approval.Db.Session.{World, returned, raised, ok, err, effect}
use content_approval.Db.Session.Flush.{
  is_reviewer, has_parent, insert_request, insert_reviewer, insert_reviewers, flush, flush_rows,
  insert_row,
}
use content_approval.Db.Session.Transaction.{get_db}
use content_approval.Db.Repository.{create, new_row, new_reviewers}
use content_approval.Db.Repository.Rows.{to_entity}
use content_approval.Domain.Service.{
  Draft, new_request, created_details, created_payload, create_request, record_creation,
}
use content_approval.Domain.Service.Decide.{id_of}

abbrev pub with_reviewers : Db → List ApprovalRequestReviewer → Db
with_reviewers db vs = record db {
  approval_request_reviewers = db.approval_request_reviewers ++ vs;
}

-- The reviewers are all inserted, or the first that is refused raises.
insert_reviewers-cases :
    (vs : List ApprovalRequestReviewer) (w : World)
    → (insert_reviewers vs w ≡ returned tt (record w { db = with_reviewers w.db vs }))
      ⊎ ((w' : World) × (insert_reviewers vs w ≡ raised integrity_error w'))
unfolding insert_reviewers insert_reviewer
insert_reviewers-cases [] w = inl (rw (append-nil w.db.approval_request_reviewers))
insert_reviewers-cases (v ∷ vs) w =
    elim (Bool-cases (
      not (has_parent v.workspace_id v.approval_request_id w.db)
      || any (is_reviewer v.workspace_id v.approval_request_id v.reviewer_user_id)
          w.db.approval_request_reviewers)) [
            | inl refused ↦ inr (w, rw refused)
            | inr free ↦
                elim (insert_reviewers-cases vs (record w { db = with_reviewers w.db (v ∷ []) })) [
                  | inl rest ↦ inl (rw (free, rest, append_assoc))
                  | inr (w', rest) ↦ inr (w', rw (free, rest))
                ]
          ]

module _ (d : Draft) where
  abbrev pub creation_entry : String → String → DateTime → AuditLogEntry
  creation_entry request_id id created = record {
    id = id;
    workspace_id = d.workspace_id;
    approval_request_id = request_id;
    actor_user_id = d.created_by_user_id;
    action = AuditAction.created;
    details = some (created_details d);
    created_at = created;
  }

  abbrev pub creation_event : String → String → DateTime → OutboxEvent
  creation_event request_id id created = record {
    id = id;
    workspace_id = d.workspace_id;
    approval_request_id = request_id;
    event_type = event_type_value OutboxEventType.approval_request_created;
    payload = created_payload request_id d ApprovalStatus.pending;
    created_at = created;
    published_at = none;
  }

  abbrev pub created_db : ApprovalRequestRow → AuditLogEntry → OutboxEvent → Db → Db
  created_db row entry event db = record db {
    approval_requests = db.approval_requests ++ row ∷ [];
    approval_request_reviewers =
        db.approval_request_reviewers ++ new_reviewers (new_request row.id d);
    audit_log_entries = db.audit_log_entries ++ entry ∷ [];
    outbox_events = db.outbox_events ++ event ∷ [];
  }

  abbrev pub created_row : World → ApprovalRequestRow
  created_row w =
      new_row (new_request (id_of "ar" (w.tokens 0)) d) (aware (w.clock 0) utc)
        (aware (w.clock 1) utc)

  -- The database after a creation that is committed.
  abbrev pub after_creation : World → Db
  after_creation w =
      created_db (created_row w)
        (creation_entry (created_row w).id (id_of "aud" (w.tokens 1)) (aware (w.clock 2) utc))
        (creation_event (created_row w).id (id_of "evt" (w.tokens 2)) (aware (w.clock 3) utc)) w.db

  -- The request's identifier is taken by no row.
  abbrev pub IsNewId : World → Type 0
  IsNewId w = any (λ r. r.id == id_of "ar" (w.tokens 0)) w.db.approval_requests ≡ false

  -- The world in which the reviewers are inserted.
  abbrev pub inserted_world : World → World
  inserted_world w = record w {
    db = record w.db { approval_requests = w.db.approval_requests ++ created_row w ∷ [] };
    new = [];
    tokens = λ n. w.tokens (suc n);
    clock = λ n. w.clock (suc (suc n));
  }

  -- What the flush of the commit tests for the two trails.
  abbrev pub audit_refused : World → Bool
  audit_refused w =
      not (has_parent d.workspace_id (created_row w).id (inserted_world w).db)
      || any (λ e. e.id == id_of "aud" (w.tokens 1)) w.db.audit_log_entries

  abbrev pub event_refused : World → Bool
  event_refused w =
      not (has_parent d.workspace_id (created_row w).id (inserted_world w).db)
      || any (λ e. e.id == id_of "evt" (w.tokens 2)) w.db.outbox_events

  pub committed :
      (w : World)
      → IsNewId w
      → insert_reviewers (new_reviewers (new_request (created_row w).id d)) (inserted_world w)
        ≡ returned tt (record (inserted_world w) {
          db =
              with_reviewers
                (inserted_world w).db
                (new_reviewers (new_request (created_row w).id d));
        })
      → audit_refused w ≡ false
      → event_refused w ≡ false
      → effect (get_db (create_request d) w)
        ≡ (ok (to_entity (created_row w) d.reviewer_user_ids), after_creation w)
  unfolding get_db create_request create flush flush_rows insert_request insert_row record_creation
  committed w free listed audited published = rw (free, listed, audited, published)

  trails_refused :
      (w : World)
      → IsNewId w
      → insert_reviewers (new_reviewers (new_request (created_row w).id d)) (inserted_world w)
        ≡ returned tt (record (inserted_world w) {
          db =
              with_reviewers
                (inserted_world w).db
                (new_reviewers (new_request (created_row w).id d));
        })
      → (audit_refused w ≡ true) ⊎ (audit_refused w ≡ false) × (event_refused w ≡ true)
      → effect (get_db (create_request d) w) ≡ (err integrity_error, w.db)
  unfolding get_db create_request create flush flush_rows insert_request insert_row record_creation
  trails_refused w free listed (inl refused) = rw (free, listed, refused)
  trails_refused w free listed (inr (audited, refused)) = rw (free, listed, audited, refused)

  id_taken :
      (w : World)
      → any (λ r. r.id == (created_row w).id) w.db.approval_requests ≡ true
      → effect (get_db (create_request d) w) ≡ (err integrity_error, w.db)
  unfolding get_db create_request create flush flush_rows insert_request
  id_taken w taken = rw taken

  reviewers_refused :
      (w w' : World)
      → IsNewId w
      → insert_reviewers (new_reviewers (new_request (created_row w).id d)) (inserted_world w)
        ≡ raised integrity_error w'
      → effect (get_db (create_request d) w) ≡ (err integrity_error, w.db)
  unfolding get_db create_request create flush flush_rows insert_request
  reviewers_refused w w' free refused = rw (free, refused)

  -- Creating in one transaction commits one pending request under an unused identifier, with its
  -- reviewers and its entry in each trail, and returns it, or it ends in an integrity error and leaves
  -- the database alone.
  pub create-cases :
      (w : World)
      → ((effect (get_db (create_request d) w)
            ≡ (ok (to_entity (created_row w) d.reviewer_user_ids), after_creation w))
          × IsNewId w)
        ⊎ (effect (get_db (create_request d) w) ≡ (err integrity_error, w.db))
  create-cases w =
      elim (Bool-cases (any (λ r. r.id == (created_row w).id) w.db.approval_requests)) [
        | inl taken ↦ inr (id_taken w taken)
        | inr free ↦
            elim (insert_reviewers-cases (new_reviewers (new_request (created_row w).id d))
              (inserted_world w)) [
                | inr (w', refused) ↦ inr (reviewers_refused w w' free refused)
                | inl listed ↦ elim (Bool-cases (audit_refused w)) [
                  | inl refused ↦ inr (trails_refused w free listed (inl refused))
                  | inr audited ↦ elim (Bool-cases (event_refused w)) [
                    | inl refused ↦ inr (trails_refused w free listed (inr (audited, refused)))
                    | inr published ↦ inl (committed w free listed audited published, free)
                  ]
                ]
              ]
      ]

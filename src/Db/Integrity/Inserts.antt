-- ===== src/Db/Integrity/Inserts.antt =====
-- The insertions of app/db/models.py and the constraints of the tables.
use content_approval.Common.{
  ◌≤◌, String, ◌≡◌, subst, ◌||◌, Bool, true, false, ◌==◌, not, none, some, List, [], ◌∷◌, ◌++◌,
  arith, count, any, All-append, All-imp, count-append, any-append, any-of-none, Bool-cases, inl,
  inr, eq_iff, if◌then◌else◌, count_congr,
}
use content_approval.Domain.DateTime.{DateTime}
use content_approval.Db.Models.{
  ApprovalRequestRow, ApprovalRequestReviewer, AuditLogEntry, OutboxEvent, IdempotencyKey, Db,
}
use content_approval.Db.Session.{NewRow, new_audit, new_event, new_key}
use content_approval.Db.Session.Flush.{
  is_request, is_reviewer, is_entry, insert_request, insert_reviewer, insert_audit, insert_event,
  insert_key, insert_row,
}
use content_approval.Db.Session.Keeps.{Accepts}
use content_approval.Db.Integrity.{IsOwned, IsSound}

-- A row whose key no row has can be appended to a table with unique keys.
module _ {ℓ} {A : Type ℓ} where
  append_unique :
      (p q : A → Bool) (xs : List A) (x : A)
      → count p xs ≤ 1
      → any q xs ≡ false
      → (p x ≡ true → (y : A) → p y ≡ q y)
      → count p (xs ++ x ∷ []) ≤ 1
  append_unique p q xs x unique absent same = elim (Bool-cases (p x)) [
    | inl hit ↦
        let none_before = any-of-none q xs absent in
        let as_q = count_congr p q xs (same hit) in
        rw (count-append p xs (x ∷ []), hit) (omega (arith, none_before, as_q))
    | inr miss ↦ rw (count-append p xs (x ∷ []), miss) (omega arith)
  ]

same_text : (s t u : String) → (s == t) ≡ true → (u == t) ≡ (u == s)
same_text s t u hit = rw ((eq_iff s t).0 hit)

-- What a guarded insertion that was accepted shows.
same_reviewer :
    (ws id user : String) (v x : ApprovalRequestReviewer)
    → is_reviewer ws id user v ≡ true
    → is_reviewer ws id user x
      ≡ is_reviewer v.workspace_id v.approval_request_id v.reviewer_user_id x
same_reviewer ws id user v x hit = ground (
  arith,
  eq_iff v.workspace_id ws,
  eq_iff v.approval_request_id id,
  eq_iff v.reviewer_user_id user,
)

same_entry :
    (ws route k : String) (key x : IdempotencyKey)
    → is_entry ws route k key ≡ true
    → is_entry ws route k x ≡ is_entry key.workspace_id key.route key.idempotency_key x
same_entry ws route k key x hit =
    ground (arith, eq_iff key.workspace_id ws, eq_iff key.route route, eq_iff key.idempotency_key k)

accepted :
    (b : Bool) (db db' : Db) → (if b then none else some db) ≡ some db' → (b ≡ false) × (db ≡ db')
accepted b db db' e = ground arith

both_false : (a b : Bool) → (not a || b) ≡ false → (a ≡ true) × (b ≡ false)
both_false a b e = ground arith

module _ (db : Db) (h : IsSound db) where
  IsOwned-after_request :
      (row : ApprovalRequestRow) (ws id : String)
      → IsOwned db ws id
      → IsOwned (record db { approval_requests = db.approval_requests ++ row ∷ [] }) ws id
  IsOwned-after_request row ws id own =
      rw (any-append (is_request ws id) db.approval_requests (row ∷ []), own)

  insert_request-IsSound :
      (row : ApprovalRequestRow) (db' : Db) → insert_request row db ≡ some db' → IsSound db'
  unfolding insert_request
  insert_request-IsSound row db' e =
      let (absent, same) = accepted _ _ db' e in
      subst IsSound same (record {
        request_ids = λ id.
            append_unique (λ r. r.id == id) (λ r. r.id == row.id) db.approval_requests row
              (h.request_ids id) absent (λ hit r. same_text row.id id r.id hit);
        reviewer_keys = h.reviewer_keys;
        audit_ids = h.audit_ids;
        event_ids = h.event_ids;
        idempotency_keys = h.idempotency_keys;
        reviewers_owned =
            All-imp _ _ db.approval_request_reviewers
              (λ v. IsOwned-after_request row v.workspace_id v.approval_request_id)
              h.reviewers_owned;
        audit_owned =
            All-imp _ _ db.audit_log_entries
              (λ v. IsOwned-after_request row v.workspace_id v.approval_request_id) h.audit_owned;
        events_owned =
            All-imp _ _ db.outbox_events
              (λ v. IsOwned-after_request row v.workspace_id v.approval_request_id) h.events_owned;
      })

  insert_reviewer-IsSound :
      (v : ApprovalRequestReviewer) (db' : Db) → insert_reviewer v db ≡ some db' → IsSound db'
  unfolding insert_reviewer
  insert_reviewer-IsSound v db' e =
      let (free, same) = accepted _ _ db' e in
      let (owned, absent) = both_false _ _ free in
      subst IsSound same (record {
        request_ids = h.request_ids;
        reviewer_keys = λ ws id user.
            append_unique (is_reviewer ws id user)
              (is_reviewer v.workspace_id v.approval_request_id v.reviewer_user_id)
              db.approval_request_reviewers v (h.reviewer_keys ws id user) absent
              (λ hit x. same_reviewer ws id user v x hit);
        audit_ids = h.audit_ids;
        event_ids = h.event_ids;
        idempotency_keys = h.idempotency_keys;
        reviewers_owned =
            All-append _ db.approval_request_reviewers (v ∷ []) h.reviewers_owned (owned, tt);
        audit_owned = h.audit_owned;
        events_owned = h.events_owned;
      })

  insert_audit-IsSound :
      (entry : AuditLogEntry) (db' : Db) → insert_audit entry db ≡ some db' → IsSound db'
  unfolding insert_audit
  insert_audit-IsSound entry db' e =
      let (free, same) = accepted _ _ db' e in
      let (owned, absent) = both_false _ _ free in
      subst IsSound same (record {
        request_ids = h.request_ids;
        reviewer_keys = h.reviewer_keys;
        audit_ids = λ id.
            append_unique (λ x. x.id == id) (λ x. x.id == entry.id) db.audit_log_entries entry
              (h.audit_ids id) absent (λ hit x. same_text entry.id id x.id hit);
        event_ids = h.event_ids;
        idempotency_keys = h.idempotency_keys;
        reviewers_owned = h.reviewers_owned;
        audit_owned = All-append _ db.audit_log_entries (entry ∷ []) h.audit_owned (owned, tt);
        events_owned = h.events_owned;
      })

  insert_event-IsSound :
      (event : OutboxEvent) (db' : Db) → insert_event event db ≡ some db' → IsSound db'
  unfolding insert_event
  insert_event-IsSound event db' e =
      let (free, same) = accepted _ _ db' e in
      let (owned, absent) = both_false _ _ free in
      subst IsSound same (record {
        request_ids = h.request_ids;
        reviewer_keys = h.reviewer_keys;
        audit_ids = h.audit_ids;
        event_ids = λ id.
            append_unique (λ x. x.id == id) (λ x. x.id == event.id) db.outbox_events event
              (h.event_ids id) absent (λ hit x. same_text event.id id x.id hit);
        idempotency_keys = h.idempotency_keys;
        reviewers_owned = h.reviewers_owned;
        audit_owned = h.audit_owned;
        events_owned = All-append _ db.outbox_events (event ∷ []) h.events_owned (owned, tt);
      })

  insert_key-IsSound :
      (key : IdempotencyKey) (db' : Db) → insert_key key db ≡ some db' → IsSound db'
  unfolding insert_key
  insert_key-IsSound key db' e =
      let (absent, same) = accepted _ _ db' e in
      subst IsSound same (record {
        request_ids = h.request_ids;
        reviewer_keys = h.reviewer_keys;
        audit_ids = h.audit_ids;
        event_ids = h.event_ids;
        idempotency_keys = λ ws route k.
            append_unique (is_entry ws route k)
              (is_entry key.workspace_id key.route key.idempotency_key) db.idempotency_keys key
              (h.idempotency_keys ws route k) absent (λ hit x. same_entry ws route k key x hit);
        reviewers_owned = h.reviewers_owned;
        audit_owned = h.audit_owned;
        events_owned = h.events_owned;
      })

pub insert_request-Accepts : (row : ApprovalRequestRow) → Accepts IsSound (insert_request row)
insert_request-Accepts row = record { run = λ db h db' e. insert_request-IsSound db h row db' e }

pub insert_reviewer-Accepts : (v : ApprovalRequestReviewer) → Accepts IsSound (insert_reviewer v)
insert_reviewer-Accepts v = record { run = λ db h db' e. insert_reviewer-IsSound db h v db' e }

pub insert_row-Accepts : (row : NewRow) (now : DateTime) → Accepts IsSound (insert_row row now)
unfolding insert_row
insert_row-Accepts (new_audit build) now = record {
  run = λ db h db' e. insert_audit-IsSound db h (build now) db' e;
}
insert_row-Accepts (new_event build) now = record {
  run = λ db h db' e. insert_event-IsSound db h (build now) db' e;
}
insert_row-Accepts (new_key build) now = record {
  run = λ db h db' e. insert_key-IsSound db h (build now) db' e;
}

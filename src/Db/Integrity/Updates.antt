-- ===== src/Db/Integrity/Updates.antt =====
-- The UPDATE of app/db/repository.py and the constraints of the tables.
use content_approval.Common.{
  String, refl, Bool, ◌==◌, arith, All-imp, count-update_where, any-update_where,
}
use content_approval.Domain.DateTime.{DateTime}
use content_approval.Db.Models.{ApprovalRequestRow, Db}
use content_approval.Db.Session.Flush.{is_request}
use content_approval.Db.Repository.{Decision, decided, update_requests}
use content_approval.Db.Integrity.{IsOwned, IsSound}

module _ (db : Db) (h : IsSound db) where
  -- An update of rows that leaves both parts of the key alone.
  pub update-IsSound :
      (p : ApprovalRequestRow → Bool) (d : Decision) (now : DateTime)
      → IsSound (update_requests p (decided d now) db)
  update-IsSound p d now =
      let owned : (ws id : String)
          → IsOwned db ws id
          → IsOwned (update_requests p (decided d now) db) ws id =
        λ ws id own. rw (
          any-update_where (is_request ws id) p (decided d now) db.approval_requests (λ r. refl),
          own,
        ) in
      record {
        request_ids = λ id.
            let same =
              count-update_where (λ r. r.id == id) p (decided d now) db.approval_requests
                (λ r. refl) in
            omega (arith, h.request_ids id, same);
        reviewer_keys = h.reviewer_keys;
        audit_ids = h.audit_ids;
        event_ids = h.event_ids;
        idempotency_keys = h.idempotency_keys;
        reviewers_owned =
            All-imp _ _ db.approval_request_reviewers
              (λ v. owned v.workspace_id v.approval_request_id) h.reviewers_owned;
        audit_owned =
            All-imp _ _ db.audit_log_entries (λ v. owned v.workspace_id v.approval_request_id)
              h.audit_owned;
        events_owned =
            All-imp _ _ db.outbox_events (λ v. owned v.workspace_id v.approval_request_id)
              h.events_owned;
      }

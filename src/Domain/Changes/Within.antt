-- ===== src/Domain/Changes/Within.antt =====
-- The operations of app/domain/service.py in one workspace and the rows of the others.
use content_approval.Common.{
  String, ◌≡◌, refl, ◌∙◌, Bool, false, ◌==◌, eq_iff, List, [], ◌∷◌, ◌++◌, filter, filter-append,
  map, update_where, Bool-cases, inl, inr, arith,
}
use mathlib.Core.List.{append-nil}
use content_approval.Db.Models.{ApprovalRequestRow, ApprovalRequestReviewer, Db}
use content_approval.Domain.DateTime.{DateTime}
use content_approval.Db.Repository.{Decision, decided, is_open, new_reviewers}
use content_approval.Domain.Service.{new_request}
use content_approval.Db.Repository.{new_row}
use content_approval.Domain.Service.Create.{creation_entry, creation_event}
use content_approval.Domain.Service.Decide.{decision_entry, decision_event}
use content_approval.Domain.Changes.{
  decision_of, action_of, event_of, Change, creation, decision, idempotency_record, Reaches, start,
  step,
}

-- The workspace that an operation is made in.
abbrev pub workspace_of : {db db' : Db} → Change db db' → String
workspace_of (creation d _ _ _ _ _ _ _ _ _) = d.workspace_id
workspace_of (decision ws _ _ _ _ _ _ _ _ _ _ _ _) = ws
workspace_of (idempotency_record k _) = k.workspace_id

-- A history of operations in one workspace.
pub data ReachesIn (ws : String) (db : Db) : Db → Type 0 where
  nothing : ReachesIn ws db db
  and :
      {mid db' : Db}
      → ReachesIn ws db mid
      → (c : Change mid db') → workspace_of c ≡ ws
      → ReachesIn ws db db'

pub forget : {ws : String} {db db' : Db} → ReachesIn ws db db' → Reaches db db'
forget nothing = start
forget (and before c own) = step (forget before) c

-- The rows of a workspace are the same, in the same order, in each of the five tables.
pub record Untouched (ws : String) (db db' : Db) : Type 0 where
  pub requests :
      filter (λ r. r.workspace_id == ws) db'.approval_requests
      ≡ filter (λ r. r.workspace_id == ws) db.approval_requests
  pub reviewers :
      filter (λ v. v.workspace_id == ws) db'.approval_request_reviewers
      ≡ filter (λ v. v.workspace_id == ws) db.approval_request_reviewers
  pub audit :
      filter (λ e. e.workspace_id == ws) db'.audit_log_entries
      ≡ filter (λ e. e.workspace_id == ws) db.audit_log_entries
  pub outbox :
      filter (λ e. e.workspace_id == ws) db'.outbox_events
      ≡ filter (λ e. e.workspace_id == ws) db.outbox_events
  pub keys :
      filter (λ k. k.workspace_id == ws) db'.idempotency_keys
      ≡ filter (λ k. k.workspace_id == ws) db.idempotency_keys

append-miss {ℓ} :
    {A : Type ℓ} (p : A → Bool) (xs ys : List A)
    → filter p ys ≡ []
    → filter p (xs ++ ys) ≡ filter p xs
append-miss p xs ys miss = rw (filter-append p xs ys, miss) (append-nil (filter p xs))

append-one {ℓ} :
    {A : Type ℓ} (p : A → Bool) (xs : List A) (x : A)
    → p x ≡ false
    → filter p (xs ++ x ∷ []) ≡ filter p xs
append-one p xs x miss = append-miss p xs (x ∷ []) (rw miss refl)

module _ (ws own : String) (apart : (own == ws) ≡ false) where
  no_reviewer :
      (id : String) (users : List String)
      → filter
          (λ (v : ApprovalRequestReviewer). v.workspace_id == ws)
          (map
            (λ u. record { workspace_id = own; approval_request_id = id; reviewer_user_id = u })
            users)
        ≡ []
  no_reviewer id [] = refl
  no_reviewer id (u ∷ users) = rw apart (no_reviewer id users)

  update_elsewhere :
      (id : String) (d : Decision) (now : DateTime) (rows : List ApprovalRequestRow)
      → filter (λ r. r.workspace_id == ws) (update_where (is_open own id) (decided d now) rows)
        ≡ filter (λ r. r.workspace_id == ws) rows
  update_elsewhere id d now [] = refl
  update_elsewhere id d now (r ∷ rows) = elim (Bool-cases (is_open own id r)) [
    | inl hit ↦
        let miss : (r.workspace_id == ws) ≡ false =
          ground (arith, eq_iff r.workspace_id own, eq_iff r.workspace_id ws, eq_iff own ws) in
        rw (hit, miss) (update_elsewhere id d now rows)
    | inr other ↦ rw (other, update_elsewhere id d now rows)
  ]

module _ (ws own : String) (apart : (own == ws) ≡ false) where
  Change-Untouched : {db db' : Db} (c : Change db db') → workspace_of c ≡ own → Untouched ws db db'
  Change-Untouched {db} (creation d id audit_id event_id t u v x absent same) here =
      let elsewhere : (d.workspace_id == ws) ≡ false = rw here apart in
      rw same (record {
        requests =
            append-one (λ r. r.workspace_id == ws) db.approval_requests
              (new_row (new_request id d) t u) elsewhere;
        reviewers =
            append-miss (λ r. r.workspace_id == ws) db.approval_request_reviewers
              (new_reviewers (new_request id d))
              (no_reviewer ws d.workspace_id elsewhere id d.reviewer_user_ids);
        audit =
            append-one (λ r. r.workspace_id == ws) db.audit_log_entries
              (creation_entry d id audit_id v) elsewhere;
        outbox =
            append-one (λ r. r.workspace_id == ws) db.outbox_events (creation_event d id event_id x)
              elsewhere;
        keys = refl;
      })
  Change-Untouched {db} (decision ws' id actor c audit_id event_id now u v row there undecided same)
        here =
      let elsewhere : (ws' == ws) ≡ false = rw here apart in
      rw same (record {
        requests =
            update_elsewhere ws ws' elsewhere id (decision_of c actor) now db.approval_requests;
        reviewers = refl;
        audit =
            append-one (λ r. r.workspace_id == ws) db.audit_log_entries
              (decision_entry ws' id (decision_of c actor) (action_of c) (event_of c) audit_id u)
              elsewhere;
        outbox =
            append-one (λ r. r.workspace_id == ws) db.outbox_events
              (decision_event ws' id (decision_of c actor) (action_of c) (event_of c) event_id v)
              elsewhere;
        keys = refl;
      })
  Change-Untouched {db} (idempotency_record k same) here = rw same (record {
    requests = refl;
    reviewers = refl;
    audit = refl;
    outbox = refl;
    keys = append-one (λ r. r.workspace_id == ws) db.idempotency_keys k (rw here apart);
  })

  pub ReachesIn-Untouched : {db db' : Db} → ReachesIn own db db' → Untouched ws db db'
  ReachesIn-Untouched nothing = record {
    requests = refl;
    reviewers = refl;
    audit = refl;
    outbox = refl;
    keys = refl;
  }
  ReachesIn-Untouched (and before c here) =
      let a = ReachesIn-Untouched before in
      let b = Change-Untouched c here in
      record {
        requests = b.requests ∙ a.requests;
        reviewers = b.reviewers ∙ a.reviewers;
        audit = b.audit ∙ a.audit;
        outbox = b.outbox ∙ a.outbox;
        keys = b.keys ∙ a.keys;
      }

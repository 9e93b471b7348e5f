-- ===== src/Domain/Service/Committed.antt =====
-- When `create_request` of app/domain/service.py succeeds.
use content_approval.Common.{
  String, ◌≡◌, refl, Bool, true, false, ◌==◌, ◌||◌, eq_iff, eq_refl, List, [], ◌∷◌, map, any,
  any-append, All, arith,
}
use mathlib.Core.List.{append_assoc, append-nil}
use content_approval.Api.Schemas.Validation.{has_duplicate}
use content_approval.Db.Models.{ApprovalRequestReviewer, Db}
use content_approval.Db.Session.{World, returned, effect, ok}
use content_approval.Db.Session.Flush.{
  has_parent, is_request, is_reviewer, insert_reviewer, insert_reviewers,
}
use content_approval.Db.Session.Transaction.{get_db}
use content_approval.Db.Integrity.{IsSound, IsOwned}
use content_approval.Db.Repository.Rows.{to_entity}
use content_approval.Domain.Service.{Draft, create_request}
use content_approval.Domain.Service.Create.{
  with_reviewers, created_row, after_creation, IsNewId, inserted_world, committed,
}
use content_approval.Domain.Service.Decide.{id_of}
use content_approval.Domain.Service.Fetch.{other_parent}

or_true : (b : Bool) → (b || true) ≡ true
or_true true = refl
or_true false = refl

module _ (ws id : String) where
  abbrev reviewer : String → ApprovalRequestReviewer
  reviewer user = record { workspace_id = ws; approval_request_id = id; reviewer_user_id = user }

  -- No reviewer of the request is in the table.
  abbrev Unlisted : Db → String → Type 0
  Unlisted db user = any (is_reviewer ws id user) db.approval_request_reviewers ≡ false

  All-Unlisted_after :
      (db : Db) (u : String) (users : List String)
      → any (λ y. y == u) users ≡ false
      → All (Unlisted db) users
      → All (Unlisted (with_reviewers db (reviewer u ∷ []))) users
  All-Unlisted_after db u [] apart h = tt
  All-Unlisted_after db u (v ∷ users) apart (p, h) = (
    rw
        (
          any-append (is_reviewer ws id v) db.approval_request_reviewers (reviewer u ∷ []),
          p,
          eq_refl ws,
          eq_refl id,
        )
        (ground (arith, eq_iff u v, eq_iff v u)),
    All-Unlisted_after db u users (ground arith) h,
  )

  insert_reviewers_returns :
      (users : List String) (w : World)
      → has_parent ws id w.db ≡ true
      → has_duplicate users ≡ false
      → All (Unlisted w.db) users
      → insert_reviewers (map reviewer users) w
        ≡ returned tt (record w { db = with_reviewers w.db (map reviewer users) })
  unfolding insert_reviewers insert_reviewer
  insert_reviewers_returns [] w parent distinct h = rw (append-nil w.db.approval_request_reviewers)
  insert_reviewers_returns (u ∷ users) w parent distinct (p, h) =
      let rest =
        insert_reviewers_returns users (record w { db = with_reviewers w.db (reviewer u ∷ []) })
          parent (ground arith) (All-Unlisted_after w.db u users (ground arith) h) in
      rw (parent, p, rest, append_assoc)

module _ (d : Draft) (w : World) where
  unlisted :
      (user : String) (vs : List ApprovalRequestReviewer)
      → IsNewId d w
      → All (λ v. IsOwned w.db v.workspace_id v.approval_request_id) vs
      → any (is_reviewer d.workspace_id (created_row d w).id user) vs ≡ false
  unlisted user [] fresh owned = refl
  unlisted user (v ∷ vs) fresh (own, owned) =
      let apart =
        other_parent w.db (created_row d w) v.workspace_id v.approval_request_id
          w.db.approval_requests fresh own in
      let rest = unlisted user vs fresh owned in ground arith

  All-Unlisted :
      (users : List String)
      → IsNewId d w
      → IsSound w.db
      → All (Unlisted d.workspace_id (created_row d w).id w.db) users
  All-Unlisted [] fresh sound = tt
  All-Unlisted (u ∷ users) fresh sound = (
    unlisted u w.db.approval_request_reviewers fresh sound.reviewers_owned,
    All-Unlisted users fresh sound,
  )

  parent : has_parent d.workspace_id (created_row d w).id (inserted_world d w).db ≡ true
  parent =
      rw
        (
          any-append (is_request d.workspace_id (created_row d w).id) w.db.approval_requests
              (created_row d w ∷ []),
          eq_refl d.workspace_id,
          eq_refl (created_row d w).id,
        )
        (or_true (any (is_request d.workspace_id (created_row d w).id) w.db.approval_requests))

  -- In a database that meets its constraints, creating in one transaction succeeds when the next three
  -- tokens give identifiers that the requests, the audit trail and the outbox do not hold, and no
  -- reviewer stands twice in the draft: it returns the pending request, and commits it with its
  -- reviewers and its two trail entries.
  pub create-commits :
      IsSound w.db
      → IsNewId d w
      → any (λ e. e.id == id_of "aud" (w.tokens 1)) w.db.audit_log_entries ≡ false
      → any (λ e. e.id == id_of "evt" (w.tokens 2)) w.db.outbox_events ≡ false
      → has_duplicate d.reviewer_user_ids ≡ false
      → effect (get_db (create_request d) w)
        ≡ (ok (to_entity (created_row d w) d.reviewer_user_ids), after_creation d w)
  create-commits sound fresh audited published distinct =
      committed d w fresh
        (insert_reviewers_returns d.workspace_id (created_row d w).id d.reviewer_user_ids
          (inserted_world d w) parent distinct (All-Unlisted d.reviewer_user_ids fresh sound))
        (rw (parent, audited) refl) (rw (parent, published) refl)

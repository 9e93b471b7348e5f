-- ===== src/Domain/Service/Fetch.antt =====
-- What `get_request` of app/domain/service.py gives for a request that `create_request` made.
use content_approval.Common.{
  ℕ, String, ◌≡◌, refl, sym, ap, ◌∙◌, subst, true, false, ◌==◌, ◌&&◌, eq_iff, eq_refl, List, [],
  ◌∷◌, map, filter, filter-append, any, All, some, Bool-cases, inl, inr, arith,
}
use mathlib.Core.List.{Permᴰ}
use content_approval.Domain.Entities.{ApprovalRequest}
use content_approval.Db.Models.{ApprovalRequestReviewer, ApprovalRequestRow, Db}
use content_approval.Db.Session.{World, Result, ok, effect, Dialect, sqlite, postgres}
use content_approval.Db.Session.Flush.{is_request}
use content_approval.Db.Session.Transaction.{get_db}
use content_approval.Db.Session.Keeps.{Keeps-get_db}
use content_approval.Db.Integrity.{IsSound, IsOwned}
use content_approval.Domain.DateTime.{aware, utc}
use content_approval.Db.Repository.{new_reviewers, entity_of}
use content_approval.Db.Repository.Rows.{as_utc, load, of_request, reviewers_of, to_entity}
use content_approval.Db.Repository.Lookup.{find_request, get_lem, find_request-new}
use content_approval.Domain.Service.{Draft, new_request, create_request, get_request, get_or_raise}
use content_approval.Domain.Service.Create.{create-cases, created_row, after_creation, IsNewId}
use content_approval.Domain.Service.Sound.{flush-IsSound, create_request-IsSound}

-- A reviewer of a stored request is none of a request whose identifier is new.
module _ (db : Db) (row : ApprovalRequestRow) where
  pub other_parent :
      (ws id : String) (rows : List ApprovalRequestRow)
      → any (λ r. r.id == row.id) rows ≡ false
      → any (is_request ws id) rows ≡ true
      → ((ws == row.workspace_id) && (id == row.id)) ≡ false
  other_parent ws id [] absent owned = cc
  other_parent ws id (r ∷ rows) absent owned = elim (Bool-cases (is_request ws id r)) [
    | inl hit ↦ ground (arith, eq_iff r.id id, eq_iff id row.id, eq_iff r.id row.id)
    | inr miss ↦ other_parent ws id rows (ground arith) (ground arith)
  ]

  no_reviewers :
      (vs : List ApprovalRequestReviewer)
      → any (λ r. r.id == row.id) db.approval_requests ≡ false
      → All (λ v. IsOwned db v.workspace_id v.approval_request_id) vs
      → filter (of_request row) vs ≡ []
  no_reviewers [] absent owned = refl
  no_reviewers (v ∷ vs) absent (own, owned) =
      rw (other_parent v.workspace_id v.approval_request_id db.approval_requests absent own)
        (no_reviewers vs absent owned)

module _ (d : Draft) (id : String) (row : ApprovalRequestRow) where
  own_reviewers :
      (users : List String)
      → row.workspace_id ≡ d.workspace_id
      → row.id ≡ id
      → map
          (λ v. v.reviewer_user_id)
          (filter
            (of_request row)
            (new_reviewers (new_request id (record d { reviewer_user_ids = users }))))
        ≡ users
  own_reviewers [] ws same = refl
  own_reviewers (u ∷ users) ws same =
      rw (ws, same, eq_refl d.workspace_id, eq_refl id)
        (ap (λ us. u ∷ us) (own_reviewers users ws same))

ok_same : {a b : ApprovalRequest} → Result.ok a ≡ ok b → a ≡ b
ok_same {a} {b} h = ground arith

same_time : (dialect : Dialect) (t : ℕ) → as_utc (load dialect (aware t utc)) ≡ aware t utc
same_time sqlite t = refl
same_time (postgres offset) t = refl

module _ (d : Draft) (w w' : World) where
  -- The reviewers that the new request has in the database.
  listed :
      IsSound w.db
      → IsNewId d w
      → w'.db ≡ after_creation d w
      → reviewers_of (created_row d w) w'.db ≡ d.reviewer_user_ids
  listed sound fresh left =
      rw
        (
          left,
          filter-append (of_request (created_row d w)) w.db.approval_request_reviewers
              (new_reviewers (new_request (created_row d w).id d)),
          no_reviewers w.db (created_row d w) w.db.approval_request_reviewers fresh
              sound.reviewers_owned,
        )
        (own_reviewers d (created_row d w).id (created_row d w) d.reviewer_user_ids refl refl)

  same_entity :
      IsSound w.db
      → IsNewId d w
      → w'.db ≡ after_creation d w
      → entity_of w' (created_row d w)
        ≡ to_entity (created_row d w) (w'.reviewers_order.arrange d.reviewer_user_ids)
  same_entity sound fresh left =
      rw (
        listed sound fresh left,
        same_time w'.dialect (w.clock 0),
        same_time w'.dialect (w.clock 1),
      )

  found :
      IsNewId d w
      → w'.db ≡ after_creation d w
      → find_request d.workspace_id (created_row d w).id w'.db ≡ some (created_row d w)
  unfolding find_request
  found fresh left = rw left (
      rw (
        find_request-new d.workspace_id (created_row d w).id w.db (created_row d w) fresh,
        eq_refl d.workspace_id,
        eq_refl (created_row d w).id,
      ))

  fetched :
      IsSound w.db
      → IsNewId d w
      → w'.db ≡ after_creation d w
      → IsSound w'.db
      → effect (get_db (get_request d.workspace_id (created_row d w).id) w')
        ≡ (ok (to_entity (created_row d w) (w'.reviewers_order.arrange d.reviewer_user_ids)), w'.db)
  unfolding get_db get_request get_or_raise
  fetched sound fresh left sound' = rw (
    get_lem d.workspace_id (created_row d w).id (record w' { new = [] }) sound'.request_ids,
    found fresh left,
    same_entity sound fresh left,
  )

  -- In a database that meets its constraints, a request whose creation was committed is what a later
  -- read of its identifier in its workspace returns: the reviewers in the order in which the database
  -- answers them, and every other field the same, whatever the database's dialect makes of the stored
  -- times; the read changes nothing.
  pub get-create :
      (a : ApprovalRequest)
      → IsSound w.db
      → effect (get_db (create_request d) w) ≡ (ok a, w'.db)
      → (reviewers : List String) × Permᴰ a.reviewer_user_ids reviewers
        × (effect (get_db (get_request d.workspace_id a.id) w')
            ≡ (ok (record a { reviewer_user_ids = reviewers }), w'.db))
  get-create a sound created = elim (create-cases d w) [
    | inr refused ↦ cc
    | inl (e, fresh) ↦
        let both = sym e ∙ created in
        let left : w'.db ≡ after_creation d w = sym (ap (λ x. x.1) both) in
        let same : to_entity (created_row d w) d.reviewer_user_ids ≡ a =
          ok_same (ap (λ x. x.0) both) in
        let kept = (Keeps-get_db _ flush-IsSound (create_request-IsSound d)).run w sound in
        let sound' : IsSound w'.db = subst IsSound (ap (λ x. x.1) created) kept in
        subst
          (λ (x : ApprovalRequest).
            (reviewers : List String) × Permᴰ x.reviewer_user_ids reviewers
            × (effect (get_db (get_request d.workspace_id x.id) w')
                ≡ (ok (record x { reviewer_user_ids = reviewers }), w'.db)))
          same
          (
            w'.reviewers_order.arrange d.reviewer_user_ids,
            w'.reviewers_order.permutes d.reviewer_user_ids,
            fetched sound fresh left sound',
          )
  ]

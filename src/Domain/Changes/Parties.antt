-- ===== src/Domain/Changes/Parties.antt =====
-- The reviewers and the creator of a request of app/domain/service.py, through later operations.
use content_approval.Common.{
  String, ◌≡◌, refl, sym, ◌∙◌, Bool, true, false, ◌==◌, ◌&&◌, eq_iff, some, List, [], ◌∷◌, map,
  filter, filter-append, any, any-of-find, Bool-cases, inl, inr, arith,
}
use mathlib.Core.List.{append-nil}
use content_approval.Db.Models.{ApprovalRequestRow, Db}
use content_approval.Db.Session.Flush.{is_request}
use content_approval.Db.Repository.{new_reviewers}
use content_approval.Db.Repository.Rows.{of_request, reviewers_of}
use content_approval.Db.Repository.Lookup.{find_request}
use content_approval.Domain.Service.{new_request}
use content_approval.Domain.Changes.{
  Change, creation, decision, idempotency_record, Reaches, start, step,
}
use content_approval.Domain.Changes.Final.{Reaches-StillThere, Later}

and_false : (b : Bool) → (b && false) ≡ false
and_false true = refl
and_false false = refl

-- A new identifier is not that of a request that is there.
other_id :
    (ws id new_id : String) (db : Db) (r : ApprovalRequestRow)
    → find_request ws id db ≡ some r
    → any (λ x. x.id == new_id) db.approval_requests ≡ false
    → (new_id == r.id) ≡ false
unfolding find_request
other_id ws id new_id db r found absent = elim (Bool-cases (new_id == r.id)) [
  | inr apart ↦ apart
  | inl hit ↦
      let there : any (λ x. x.id == new_id) db.approval_requests ≡ true =
        any-of-find (is_request ws id) (λ x. x.id == new_id) db.approval_requests r found
          (ground (arith, eq_iff new_id r.id, eq_iff r.id new_id)) in
      cc
]

none_of_other :
    (r : ApprovalRequestRow) (own id : String) (users : List String)
    → (id == r.id) ≡ false
    → filter (of_request r) (
        map
          (λ u. record { workspace_id = own; approval_request_id = id; reviewer_user_id = u })
          users)
      ≡ []
none_of_other r own id [] apart = refl
none_of_other r own id (u ∷ users) apart =
    rw (apart, and_false (own == r.workspace_id)) (none_of_other r own id users apart)

Change-reviewers :
    (ws id : String) {db db' : Db} (r : ApprovalRequestRow)
    → find_request ws id db ≡ some r
    → Change db db'
    → reviewers_of r db' ≡ reviewers_of r db
Change-reviewers ws id {db} r found (creation d new_id a e t u v x absent same) =
    let apart = other_id ws id new_id db r found absent in
    rw
      (
        same,
        filter-append (of_request r) db.approval_request_reviewers
            (new_reviewers (new_request new_id d)),
        none_of_other r d.workspace_id new_id d.reviewer_user_ids apart,
        append-nil (filter (of_request r) db.approval_request_reviewers),
      )
      refl
Change-reviewers ws id {db} r found
      (decision ws' id' actor c a e now u v row there undecided same) =
    rw same refl
Change-reviewers ws id {db} r found (idempotency_record k same) = rw same refl

-- An operation gives the row's reviewers by its key, which later rows of the request share.
pub same_key :
    {r r' : ApprovalRequestRow} (db : Db) → Later r r' → reviewers_of r' db ≡ reviewers_of r db
same_key db later = rw (later.id, later.workspace_id) refl

-- A request that a database holds has, in every database that operations reach from it, a later row
-- and the same reviewers.
pub Reaches-reviewers :
    (ws id : String) {db db' : Db} (r : ApprovalRequestRow)
    → find_request ws id db ≡ some r
    → Reaches db db'
    → reviewers_of r db' ≡ reviewers_of r db
Reaches-reviewers ws id r found start = refl
Reaches-reviewers ws id r found (step {mid} {db'} reached change) =
    let (s, there, later) = Reaches-StillThere ws id r found reached in
    sym (same_key db' later)
    ∙ Change-reviewers ws id s there change
    ∙ same_key mid later
    ∙ Reaches-reviewers ws id r found reached

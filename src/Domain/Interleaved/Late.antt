-- ===== src/Domain/Interleaved/Late.antt =====
-- A decision of app/domain/service.py whose read is old, beside the same decision made at once.
use content_approval.Common.{
  String, ◌≡◌, refl, sym, ap, ◌∙◌, ◌==◌, Option, none, some, any-Perm, List, [],
}
use mathlib.Core.List.{Permᴰ}
use mathlib.Core.List.Permᴰ.{nil, cons, swap, trans}
use content_approval.Domain.Entities.{ApprovalRequest}
use content_approval.Domain.Exceptions.{Failure, domain, approval_request_not_found}
use content_approval.Db.Models.{ApprovalRequestRow}
use content_approval.Db.Session.{World, Arrangement, ◌>>=◌, ◌>>◌, err, effect}
use content_approval.Db.Session.Transaction.{get_db}
use content_approval.Db.Integrity.{IsSound}
use content_approval.Db.Repository.{entity_of}
use content_approval.Db.Repository.Lookup.{find_request, get_lem}
use content_approval.Domain.Service.{get_or_raise, approve_request, reject_request, cancel_request}
use content_approval.Domain.Service.Branches.{checked}
use content_approval.Domain.Service.Verdicts.{may_review, require_reviewer_lem, require_creator_lem}
use content_approval.Domain.Changes.{Choice, approve, reject, cancel, Reaches}
use content_approval.Domain.Changes.Final.{Reaches-StillThere}
use content_approval.Domain.Changes.Parties.{Reaches-reviewers, same_key}
use content_approval.Domain.Interleaved.{perform, require, write, refusal, late}

-- Who may review does not depend on the order in which the reviewers are answered.
may_review-Perm :
    (actor : String) {xs ys : List String} → Permᴰ xs ys → may_review actor xs ≡ may_review actor ys
may_review-Perm actor nil = refl
may_review-Perm actor (cons e d) = any-Perm (λ v. v == actor) (cons e d)
may_review-Perm actor (swap e f) = any-Perm (λ v. v == actor) (swap e f)
may_review-Perm actor (trans d e) = may_review-Perm actor d ∙ may_review-Perm actor e

arranged-may_review :
    (actor : String) (one other : Arrangement) {xs ys : List String}
    → xs ≡ ys
    → may_review actor (one.arrange xs) ≡ may_review actor (other.arrange ys)
arranged-may_review actor one other {xs} {ys} same =
    sym (may_review-Perm actor (one.permutes xs))
    ∙ ap (may_review actor) same
    ∙ may_review-Perm actor (other.permutes ys)

module _ (ws id actor : String) where
  pub require_lem :
      (c : Choice) (request : ApprovalRequest) (w : World)
      → require ws id actor c request w ≡ checked (refusal ws id actor c request) w
  unfolding require
  require_lem (approve comment) request w = require_reviewer_lem actor request w
  require_lem (reject reason) request w = require_reviewer_lem actor request w
  require_lem (cancel reason) request w = require_creator_lem id actor request w

  pub perform-parts :
      (c : Choice)
      → perform ws id actor c
        ≡ (do request ← get_or_raise ws id; require ws id actor c request; write ws id actor c)
  unfolding perform require approve_request reject_request cancel_request
  perform-parts (approve comment) = refl
  perform-parts (reject reason) = refl
  perform-parts (cancel reason) = refl

  -- What a choice refuses depends on what later operations leave alone.
  refusal-Later :
      (c : Choice) (a b : ApprovalRequest)
      → b.id ≡ a.id
      → may_review actor b.reviewer_user_ids ≡ may_review actor a.reviewer_user_ids
      → b.created_by_user_id ≡ a.created_by_user_id
      → refusal ws id actor c b ≡ refusal ws id actor c a
  refusal-Later (approve comment) a b same listed made = rw (same, listed)
  refusal-Later (reject reason) a b same listed made = rw (same, listed)
  refusal-Later (cancel reason) a b same listed made = rw made

  module _ (c : Choice) (before now : World) where
    pub late-missing :
        IsSound before.db
        → find_request ws id before.db ≡ none
        → late ws id actor c before now ≡ (err (domain (approval_request_not_found id)), now.db)
    unfolding late get_or_raise
    late-missing sound missing = rw (get_lem ws id before sound.request_ids, missing)

    late-found :
        (row : ApprovalRequestRow) (o : Option Failure)
        → IsSound before.db
        → find_request ws id before.db ≡ some row
        → refusal ws id actor c (entity_of before row) ≡ o
        → late ws id actor c before now
          ≡ elim o [ some e ↦ (err e, now.db) | none ↦ effect (get_db (write ws id actor c) now) ]
    unfolding late get_or_raise
    late-found row none sound found allowed = rw (
      get_lem ws id before sound.request_ids,
      found,
      require_lem c (entity_of before row) before,
      allowed,
    )
    late-found row (some e) sound found refused = rw (
      get_lem ws id before sound.request_ids,
      found,
      require_lem c (entity_of before row) before,
      refused,
    )

  perform-found :
      (c : Choice) (w : World) (row : ApprovalRequestRow) (o : Option Failure)
      → IsSound w.db
      → find_request ws id w.db ≡ some row
      → refusal ws id actor c (entity_of w row) ≡ o
      → effect (get_db (perform ws id actor c) w)
        ≡ elim o [ some e ↦ (err e, w.db) | none ↦ effect (get_db (write ws id actor c) w) ]
  unfolding get_db get_or_raise
  perform-found c w row none sound found allowed =
      let w0 : World = record w { new = [] } in
      rw (
        perform-parts c,
        get_lem ws id w0 sound.request_ids,
        found,
        require_lem c (entity_of w row) w0,
        allowed,
      )
  perform-found c w row (some e) sound found refused =
      let w0 : World = record w { new = [] } in
      rw (
        perform-parts c,
        get_lem ws id w0 sound.request_ids,
        found,
        require_lem c (entity_of w row) w0,
        refused,
      )

  -- Where a transaction read a request and other operations were committed before it writes, its
  -- decision has the answer and the effect of the whole method run at once at the time of the writing:
  -- what it checked when it read still holds, and the conditional UPDATE sees what was committed
  -- meanwhile. Both databases meet their constraints and the second is the end of a history of
  -- operations that starts from the first.
  pub late-perform :
      (c : Choice) (before now : World) (row : ApprovalRequestRow)
      → IsSound before.db
      → IsSound now.db
      → Reaches before.db now.db
      → find_request ws id before.db ≡ some row
      → late ws id actor c before now ≡ effect (get_db (perform ws id actor c) now)
  late-perform c before now row sound sound' reached found =
      let (row', there, later) = Reaches-StillThere ws id row found reached in
      let listed = same_key now.db later ∙ Reaches-reviewers ws id row found reached in
      let same =
        refusal-Later c (entity_of before row) (entity_of now row') later.id
          (arranged-may_review actor now.reviewers_order before.reviewers_order listed)
          later.created_by in
      late-found c before now row (refusal ws id actor c (entity_of before row)) sound found refl
      ∙ sym (
          perform-found c now row' (refusal ws id actor c (entity_of before row)) sound' there same)

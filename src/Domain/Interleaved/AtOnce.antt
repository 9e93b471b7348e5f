-- ===== src/Domain/Interleaved/AtOnce.antt =====
-- Approve, reject and cancel of app/domain/service.py, each in one transaction of its own.
use content_approval.Common.{String, ◌≡◌, refl, sym, ap, ◌∙◌, Option, none, some}
use content_approval.Db.Session.{World, world_of, effect}
use content_approval.Db.Session.Transaction.{get_db}
use content_approval.Db.Models.{ApprovalRequestRow}
use content_approval.Db.Repository.Lookup.{HasUniqueIds, find_request}
use content_approval.Domain.Service.Branches.{verdict}
use content_approval.Domain.Service.Decide.{HasFreshTrailIds}
use content_approval.Domain.Service.Verdicts.{approve-verdict, reject-verdict, cancel-verdict}
use content_approval.Domain.Service.Secrecy.{told, told_by, decision-told}
use content_approval.Domain.Changes.{
  Choice, approve, reject, cancel, decision_of, action_of, event_of,
}
use content_approval.Domain.Interleaved.{perform, require, refusal}
use content_approval.Domain.Interleaved.Late.{require_lem, perform-parts}

-- The same choice, with some other text.
pub data Reworded : Choice → Choice → Type 0 where
  approved : (comment other : Option String) → Reworded (approve comment) (approve other)
  rejected : (reason other : String) → Reworded (reject reason) (reject other)
  cancelled : (reason other : String) → Reworded (cancel reason) (cancel other)

module _ (ws id actor : String) (w : World) where
  -- Where the keys of the rows are unique and the next tokens give identifiers that the two trails do
  -- not hold, approving, rejecting or cancelling in one transaction has exactly the outcome of its
  -- branch: a missing row is not found, an actor who may not decide so is refused (to approve and
  -- reject, one who is not listed where someone is; to cancel, one who is not the creator), a decided
  -- request is a conflict, and a pending one has the decision with its entry in each trail; nothing is
  -- changed otherwise.
  pub perform-verdict :
      (c : Choice)
      → HasUniqueIds w.db
      → HasFreshTrailIds w
      → effect (get_db (perform ws id actor c) w)
        ≡ verdict ws id
            (decision_of c actor)
            (action_of c)
            (event_of c)
            (refusal ws id actor c)
            w
            (find_request ws id w.db)
  unfolding perform
  perform-verdict (approve comment) unique fresh =
      approve-verdict ws id actor w comment unique fresh
  perform-verdict (reject reason) unique fresh = reject-verdict ws id actor w reason unique fresh
  perform-verdict (cancel reason) unique fresh = cancel-verdict ws id actor w reason unique fresh

  perform-told_by :
      (c : Choice)
      → HasUniqueIds w.db
      → told (world_of (get_db (perform ws id actor c) w))
        ≡ told_by ws id
            (decision_of c actor)
            (action_of c)
            (event_of c)
            (refusal ws id actor c)
            w
            (find_request ws id w.db)
  perform-told_by c unique =
      ap (λ m. told (world_of (get_db m w))) (perform-parts ws id actor c)
      ∙ decision-told ws id (decision_of c actor) (action_of c) (event_of c) (require ws id actor c)
          (refusal ws id actor c) (require_lem ws id actor c) w unique

  reworded :
      (c c' : Choice) (o : Option ApprovalRequestRow)
      → Reworded c c'
      → told_by ws id (decision_of c actor) (action_of c) (event_of c) (refusal ws id actor c) w o
        ≡ told_by ws id
            (decision_of c' actor)
            (action_of c')
            (event_of c')
            (refusal ws id actor c')
            w
            o
  reworded _ _ none same = refl
  reworded _ _ (some r) (approved comment other) = refl
  reworded _ _ (some r) (rejected reason other) = refl
  reworded _ _ (some r) (cancelled reason other) = refl

  -- Where the keys of the rows are unique: the events of the outbox and the log lines after an
  -- approval, a rejection or a cancellation, committed or not, are those that the same decision with
  -- another comment or reason leaves, so that neither tells anything of the text.
  pub perform-told :
      (c c' : Choice)
      → Reworded c c'
      → HasUniqueIds w.db
      → told (world_of (get_db (perform ws id actor c) w))
        ≡ told (world_of (get_db (perform ws id actor c') w))
  perform-told c c' same unique =
      perform-told_by c unique ∙ reworded c c' _ same ∙ sym (perform-told_by c' unique)

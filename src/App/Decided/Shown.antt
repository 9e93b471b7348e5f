-- ===== src/App/Decided/Shown.antt =====
-- What a decision of app/domain/service.py comes to in a transaction, as the response of its route or an exception
-- that app/api/errors.py has a handler for.
use content_approval.Common.{
  String, ◌≡◌, refl, ap, ◌∙◌, true, ◌==◌, Bool-cases, inl, inr, Option, none, some,
}
use content_approval.Domain.Entities.{ApprovalRequest}
use content_approval.Domain.Exceptions.{Failure}
use content_approval.Domain.Changes.{
  Choice, approve, reject, cancel, decision_of, action_of, event_of,
}
use content_approval.Domain.Service.Branches.{verdict, on_row}
use content_approval.Domain.Service.Verdicts.{may_review, reviewer_refusal}
use content_approval.Domain.Interleaved.{refusal}
use content_approval.Db.Models.{Db, ApprovalRequestRow}
use content_approval.Db.Repository.{entity_of}
use content_approval.Db.Repository.Transition.{is_pending}
use content_approval.Db.Session.{
  World, Outcome, returned, raised, and_then, Exec, ◌>>=◌, pure, Result, ok, err, effect,
}
use content_approval.Db.Session.Transaction.{get_db}
use content_approval.Db.Session.Atomic.{get_db-map, map_result}
use content_approval.Api.Schemas.{out_of}
use content_approval.App.{Response, replied, is_registered}

-- A value, or an exception that has a handler of its own.
abbrev pub IsRegistered {ℓ} : {A : Type ℓ} → Result A → Type 0
IsRegistered (ok a) = Unit
IsRegistered (err e) = is_registered e ≡ true

-- A decided request as the response that shows it.
abbrev pub shown : ApprovalRequest → Response
shown request = replied (out_of request, 200)

pub mapped {ℓ κ} :
    {A : Type ℓ} {B : Type κ} (f : A → B) (o : Outcome A)
    → effect (and_then o (λ a. pure (f a))) ≡ (map_result f (effect o).0, (effect o).1)
mapped f (returned a w) = refl
mapped f (raised e w) = refl

shown_twice :
    (r : Result ApprovalRequest)
    → map_result replied (map_result (λ request. (out_of request, 200)) r) ≡ map_result shown r
shown_twice (ok request) = refl
shown_twice (err e) = refl

pub shown-effect :
    (m : Exec ApprovalRequest) (w : World)
    → effect
        ((get_db (do request ← m; pure (out_of request, 200)) >>= λ reply. pure (replied reply)) w)
      ≡ (map_result shown (effect (get_db m w)).0, (effect (get_db m w)).1)
shown-effect m w =
    mapped replied (get_db (do request ← m; pure (out_of request, 200)) w)
    ∙ ap (λ x. (map_result replied x.0, x.1)) (get_db-map (λ request. (out_of request, 200)) m w)
    ∙ ap (λ x. (x, (effect (get_db m w)).1)) (shown_twice (effect (get_db m w)).0)

-- A refusal is an exception with a handler.
abbrev RefusesIn : Option Failure → Type 0
RefusesIn none = Unit
RefusesIn (some e) = is_registered e ≡ true

reviewer-RefusesIn :
    (actor : String) (request : ApprovalRequest) → RefusesIn (reviewer_refusal actor request)
reviewer-RefusesIn actor request = elim (Bool-cases (may_review actor request.reviewer_user_ids)) [
  | inl may ↦ rw may tt
  | inr other ↦ rw other refl
]

refusal-RefusesIn :
    (ws id actor : String) (c : Choice) (request : ApprovalRequest)
    → RefusesIn (refusal ws id actor c request)
refusal-RefusesIn ws id actor (approve comment) request = reviewer-RefusesIn actor request
refusal-RefusesIn ws id actor (reject reason) request = reviewer-RefusesIn actor request
refusal-RefusesIn ws id actor (cancel reason) request =
    elim (Bool-cases (actor == request.created_by_user_id)) [
      | inl own ↦ rw own tt
      | inr other ↦ rw other refl
    ]

module _ (ws id actor : String) (c : Choice) (w : World) where
  -- What a choice comes to in a transaction of its own.
  abbrev pub verdict_on : Option ApprovalRequestRow → Result ApprovalRequest × Db
  verdict_on =
      verdict ws id (decision_of c actor) (action_of c) (event_of c) (refusal ws id actor c) w

  abbrev on : ApprovalRequestRow → Option Failure → Result ApprovalRequest × Db
  on = on_row ws id (decision_of c actor) (action_of c) (event_of c) w

  on-IsRegistered :
      (r : ApprovalRequestRow) (o : Option Failure)
      → RefusesIn o
      → IsRegistered (map_result shown (on r o).0)
  on-IsRegistered r (some e) h = h
  on-IsRegistered r none h = elim (Bool-cases (is_pending r)) [
    | inl undecided ↦ rw undecided tt
    | inr final ↦ rw final refl
  ]

  pub verdict-IsRegistered :
      (o : Option ApprovalRequestRow) → IsRegistered (map_result shown (verdict_on o).0)
  verdict-IsRegistered none = refl
  verdict-IsRegistered (some r) =
      on-IsRegistered r _ (refusal-RefusesIn ws id actor c (entity_of w r))

-- ===== src/App/Decided.antt =====
-- A decision from the request to the response: the application of app/main.py around the routes of
-- app/api/v1/approval_requests.py and the methods of app/domain/service.py.
pub mod Shown
use content_approval.Common.{
  String, ◌≡◌, refl, sym, ap, ◌∙◌, Bool, true, false, ◌==◌, eq_iff, Bool-cases, inl, inr, Option,
  none, some, List, [], ◌∷◌,
}
use content_approval.Domain.Entities.{ApprovalRequest}
use content_approval.Domain.Exceptions.{Failure}
use content_approval.Domain.Changes.{
  Choice, approve, reject, cancel, decision_of, action_of, event_of,
}
use content_approval.Domain.Service.{approve_request, reject_request, cancel_request}
use content_approval.Domain.Service.Branches.{verdict, on_row}
use content_approval.Domain.Service.Decide.{HasFreshTrailIds}
use content_approval.Domain.Service.Verdicts.{may_review, reviewer_refusal}
use content_approval.Domain.Interleaved.{perform, refusal}
use content_approval.Domain.Interleaved.AtOnce.{perform-verdict}
use content_approval.Db.Models.{Db, ApprovalRequestRow, JsonObject}
use content_approval.Db.Repository.{entity_of}
use content_approval.Db.Repository.Lookup.{HasUniqueIds, find_request}
use content_approval.Db.Repository.Transition.{is_pending}
use content_approval.Db.Session.{
  World, Outcome, returned, raised, and_then, Exec, ◌>>=◌, pure, answer, world_of, Result, ok, err,
  effect,
}
use content_approval.Db.Session.Transaction.{get_db}
use content_approval.Db.Session.Atomic.{get_db-map, map_result}
use content_approval.Auth.{
  Action, Principal, has_action, Credentials, AuthProvider, authorize, get_principal,
  require_action,
}
use content_approval.Api.Schemas.{Libraries, out_of}
use content_approval.Api.Schemas.Validation.{validate_comment, validate_reason}
use content_approval.Api.Idempotency.{Reply, run_idempotent}
use content_approval.Api.Routes.{
  Request, or_unprocessable, approve_approval_request, reject_approval_request,
  cancel_approval_request, approve_handler, reject_handler, cancel_handler, dump_comment,
  dump_reason,
}
use content_approval.App.{
  Response, Process, route, application, replied, with_header, request_id_of, is_registered,
  dispatch, exception_handlers, call,
}
use content_approval.App.Correlation.{outcome}
use content_approval.App.Refusals.{application-world}
use content_approval.App.Authorized.{action_of_request, problem_reply}
use content_approval.App.Authorized.Checks.{Allowed}
use content_approval.App.Decided.Shown.{
  IsRegistered, shown, shown-effect, verdict_on, verdict-IsRegistered,
}

pub authorize-Allowed :
    (provider : AuthProvider) (action : Action) (ws : String) (authorization : Option String)
    (a : Allowed ws action (provider.authenticate authorization)) (w : World)
    → authorize provider action ws authorization w ≡ returned a.who w
unfolding authorize get_principal require_action
authorize-Allowed provider action ws authorization a w =
    rw (a.authenticated, (eq_iff a.who.workspace_id ws).1 a.own, a.held) refl

module _ (lower : String → String) (header : Option String) (uuid : String) where
  abbrev pub respond : Result Response → Response
  respond (ok response) = with_header "X-Request-Id" (request_id_of header uuid) response
  respond (err e) = problem_reply lower header uuid e

  pub application-respond :
      (method path : String) (handler : Exec Response) (p : Process) (r : Result Response)
      → outcome handler p ≡ r
      → IsRegistered r
      → (application lower method path header uuid handler p).0 ≡ respond r
  unfolding application dispatch exception_handlers call
  application-respond method path handler p (ok response) e fine = rw e refl
  application-respond method path handler p (err f) e fine = rw (e, fine) refl

-- The request for a choice, without a key.
abbrev pub request_for : String → String → Option String → Choice → Request
request_for ws id auth (approve comment) = Request.approve ws id auth none comment
request_for ws id auth (reject reason) = Request.reject ws id auth none reason
request_for ws id auth (cancel reason) = Request.cancel ws id auth none reason

-- What the validation of its body makes of a choice.
pub data Validates : Choice → Choice → Type 0 where
  comment_to_approve :
      (sent kept : Option String)
      → validate_comment sent ≡ some kept
      → Validates (approve sent) (approve kept)
  reason_to_reject :
      (sent kept : String)
      → validate_reason sent ≡ some kept
      → Validates (reject sent) (reject kept)
  reason_to_cancel :
      (sent kept : String)
      → validate_reason sent ≡ some kept
      → Validates (cancel sent) (cancel kept)

-- A transaction that starts with the checks of its route, which pass.
pub admitted {ℓ κ} :
    {A : Type ℓ} {B : Type κ} (m : Exec A) (f : A → Exec B) (a : A) (w : World)
    → ((v : World) → m v ≡ returned a v)
    → get_db (m >>= f) w ≡ get_db (f a) w
unfolding get_db
admitted m f a w passes = rw (passes (record w { new = [] })) refl

module _ (provider : AuthProvider) (lib : Libraries) (ws id : String) (auth : Option String) where
  -- The route of a choice does what the method does, for a principal who is allowed.
  pub route-perform :
      (c c' : Choice)
      → Validates c c'
      → (a : Allowed ws (action_of_request (request_for ws id auth c)) (provider.authenticate auth))
      → (w : World)
      → effect (route provider lib (request_for ws id auth c) w) ≡ (
        map_result shown (effect (get_db (perform ws id a.who.user_id c') w)).0,
        (effect (get_db (perform ws id a.who.user_id c') w)).1,
      )
  unfolding route approve_approval_request reject_approval_request cancel_approval_request
      approve_handler reject_handler cancel_handler run_idempotent perform
  route-perform _ _ (comment_to_approve sent kept valid) a w =
      rw (admitted _ _ a.who w (authorize-Allowed provider Action.decide ws auth a), valid)
        (shown-effect (approve_request ws id a.who.user_id kept) w)
  route-perform _ _ (reason_to_reject sent kept valid) a w =
      rw (admitted _ _ a.who w (authorize-Allowed provider Action.decide ws auth a), valid)
        (shown-effect (reject_request ws id a.who.user_id kept) w)
  route-perform _ _ (reason_to_cancel sent kept valid) a w =
      rw (admitted _ _ a.who w (authorize-Allowed provider Action.cancel ws auth a), valid)
        (shown-effect (cancel_request ws id a.who.user_id kept) w)

module _ (provider : AuthProvider) (lib : Libraries) (lower : String → String)
    (method path : String) (header : Option String) (uuid ws id : String) (auth : Option String)
    (c : Choice) (p : Process) where
  -- The request with this choice in the application.
  abbrev pub decided : Response × Process
  decided =
      application lower method path header uuid (route provider lib (request_for ws id auth c)) p

  -- A request to the application to approve, reject or cancel, without a key, of a principal who is
  -- allowed, with a body that its validation lets through: where the keys of the rows are unique and
  -- the next tokens give identifiers that the two trails do not hold, the response has the
  -- X-Request-Id and is, by the row of the key, who asks and what the row says, the decided request
  -- with status 200 or the problem of the exception, and the database is that of the decision or as it
  -- was.
  pub application-verdict :
      (c' : Choice)
      → Validates c c'
      → (a : Allowed ws (action_of_request (request_for ws id auth c)) (provider.authenticate auth))
      → HasUniqueIds p.world.db
      → HasFreshTrailIds p.world
      → (decided.0
          ≡ respond lower header uuid (
              map_result shown
                (verdict_on ws id a.who.user_id c' p.world (find_request ws id p.world.db)).0))
        × (decided.1.world.db
            ≡ (verdict_on ws id a.who.user_id c' p.world (find_request ws id p.world.db)).1)
  application-verdict c' valid a unique fresh =
      let w : World = record p.world { log = [] } in
      let both =
        route-perform provider lib ws id auth c c' valid a w
        ∙ ap (λ x. (map_result shown x.0, x.1))
            (perform-verdict ws id a.who.user_id w c' unique
              (record { audit = fresh.audit; event = fresh.event })) in
      (
        application-respond lower header uuid method path _ p _ (ap (λ x. x.0) both)
            (verdict-IsRegistered ws id a.who.user_id c' w (find_request ws id p.world.db)),
        ap (λ x. x.db) (application-world lower method path header uuid _ p _ refl)
            ∙ ap (λ x. x.1) both,
      )

-- ===== src/App/Authorized.antt =====
-- Who is served: the checks of app/auth at the outside of the application.
pub mod Checks
use Prim.Native.String
use content_approval.Common.{
  String, ◌≡◌, refl, ap, ◌∙◌, ◌⊎◌, true, false, ◌==◌, eq_iff, Bool-cases, inl, inr, Option, [], ◌∷◌,
  ◌++◌,
}
use content_approval.Domain.Exceptions.{Failure, http_exception}
use content_approval.Db.Session.{World, LogRecord, raised, Exec, ◌>>=◌, answer, world_of, err}
use content_approval.Db.Session.Transaction.{get_db}
use content_approval.Auth.{
  Action, Principal, has_action, action_value, Credentials, valid, invalid, AuthProvider, authorize,
  get_principal, require_action, denial_context,
}
use content_approval.Api.Errors.{problem_of}
use content_approval.Api.Schemas.{Libraries}
use content_approval.Api.Routes.{
  Request, create_approval_request, approve_approval_request, reject_approval_request,
  cancel_approval_request, get_approval_request, list_approval_requests,
}
use content_approval.Api.Routes.Histories.{path_workspace}
use content_approval.App.{
  Response, Process, route, application, with_header, problem_response, request_id_of, dispatch,
  exception_handlers, is_registered, call,
}
use content_approval.App.Correlation.{outcome}
use content_approval.App.Refusals.{application-world}
use content_approval.App.Authorized.Checks.{
  Denied, Allowed, Denied-registered, Stops, Checked, authorize-Checked,
}

-- What the route of a request asks for.
abbrev pub action_of_request : Request → Action
action_of_request (Request.create _ _ _ _) = Action.create
action_of_request (Request.approve _ _ _ _ _) = Action.decide
action_of_request (Request.reject _ _ _ _ _) = Action.decide
action_of_request (Request.cancel _ _ _ _ _) = Action.cancel
action_of_request (Request.get _ _ _) = Action.read
action_of_request (Request.list _ _ _ _ _) = Action.read

abbrev pub authorization_of : Request → Option String
authorization_of (Request.create _ auth _ _) = auth
authorization_of (Request.approve _ _ auth _ _) = auth
authorization_of (Request.reject _ _ auth _ _) = auth
authorization_of (Request.cancel _ _ auth _ _) = auth
authorization_of (Request.get _ _ auth) = auth
authorization_of (Request.list _ _ _ _ auth) = auth

-- What follows the checks in the transaction of a route, and after it, does not run.
routed-Stops {ℓ κ μ} :
    {A : Type ℓ} {B : Type κ} {C : Type μ} (e : Failure) (m : Exec A) (f : A → Exec B)
    (g : B → Exec C)
    → Stops e m
    → Stops e (get_db (m >>= f) >>= g)
unfolding get_db
routed-Stops e m f g stops w =
    let (later, runs, _) = stops (record w { new = [] }) in
    (record later { db = w.db; new = [] }, rw runs refl, refl)

-- The problem of the exception, under the identifier of the request.
abbrev pub problem_reply : (String → String) → Option String → String → Failure → Response
problem_reply lower header uuid e =
    with_header "X-Request-Id" (request_id_of header uuid) (problem_response (problem_of lower e))

module _ (provider : AuthProvider) (lib : Libraries) where
  -- What the checks of a route make of a request.
  abbrev Passes : Request → Type 0
  Passes r =
      Checked (path_workspace r) (action_of_request r) (provider.authenticate (authorization_of r))
        (route provider lib r)

  checked :
      (r : Request)
      → Checked
          (path_workspace r)
          (action_of_request r)
          (provider.authenticate (authorization_of r))
          (authorize provider (action_of_request r) (path_workspace r) (authorization_of r))
  checked r =
      authorize-Checked provider (action_of_request r) (path_workspace r) (authorization_of r) _
        refl

  stopped {ℓ κ} :
      {A : Type ℓ} {B : Type κ} (r : Request) (f : Principal → Exec A) (g : A → Exec B)
      → Checked
          (path_workspace r)
          (action_of_request r)
          (provider.authenticate (authorization_of r))
          (get_db (
              authorize provider (action_of_request r) (path_workspace r) (authorization_of r)
              >>= f)
            >>= g)
  stopped r f g = elim (checked r) [
    | inl allowed ↦ inl allowed
    | inr (e, denied, stops) ↦ inr (e, denied, routed-Stops e _ f g stops)
  ]

  route-Passes : (r : Request) → Passes r
  unfolding route create_approval_request approve_approval_request reject_approval_request
      cancel_approval_request get_approval_request list_approval_requests
  route-Passes (Request.create ws auth key body) = stopped (Request.create ws auth key body) _ _
  route-Passes (Request.approve ws id auth key body) =
      stopped (Request.approve ws id auth key body) _ _
  route-Passes (Request.reject ws id auth key body) =
      stopped (Request.reject ws id auth key body) _ _
  route-Passes (Request.cancel ws id auth key body) =
      stopped (Request.cancel ws id auth key body) _ _
  route-Passes (Request.get ws id auth) = stopped (Request.get ws id auth) _ _
  route-Passes (Request.list ws status limit offset auth) =
      stopped (Request.list ws status limit offset auth) _ _

  module _ (lower : String → String) (method path : String) (header : Option String) (uuid : String)
      (r : Request) (p : Process) where
    abbrev served : Response × Process
    served = application lower method path header uuid (route provider lib r) p

    replied :
        (e : Failure)
        → is_registered e ≡ true
        → outcome (route provider lib r) p ≡ err e
        → served.0 ≡ problem_reply lower header uuid e
    unfolding application dispatch exception_handlers call
    replied e registered raises = rw (raises, registered) refl

    -- For every request to the application: either the provider authenticates its header as a
    -- principal of the workspace in its path who has the action of its route, or the response is the
    -- problem of the refusal (401 with the reason of the provider, 403 for another workspace, 403 for
    -- a missing action) with its X-Request-Id, and the database is as it was.
    pub application-authorized :
        Allowed
          (path_workspace r)
          (action_of_request r)
          (provider.authenticate (authorization_of r))
        ⊎ ((e : Failure) × Denied
              (path_workspace r)
              (action_of_request r)
              (provider.authenticate (authorization_of r))
              e
            × (served.0 ≡ problem_reply lower header uuid e)
            × (served.1.world.db ≡ p.world.db))
    application-authorized = elim (route-Passes r) [
      | inl allowed ↦ inl allowed
      | inr (e, denied, stops) ↦
          let (later, runs, same) = stops (record p.world { log = [] }) in
          inr (
            e,
            denied,
            replied e (Denied-registered denied) (ap answer runs),
            ap (λ x. x.db)
                  (application-world lower method path header uuid (route provider lib r) p _ refl)
                ∙ ap (λ x. (world_of x).db) runs
                ∙ same,
          )
    ]

-- ===== src/App/Refusals.antt =====
-- Responses of the application with an error's status, and what they leave of the database.
pub mod Handlers
use content_approval.Common.{
  ℕ, ◌≤◌, ◌<◌, String, ◌≡◌, refl, sym, ap, ◌∙◌, Option, none, some, [], Option-cases, Bool-cases,
  inl, inr, arith,
}
use content_approval.Domain.Entities.{ApprovalRequest}
use content_approval.Domain.Service.{create_request}
use content_approval.Domain.Changes.Done.{
  Done, changed, failed, create-Done, approve-Done, reject-Done, cancel-Done,
}
use content_approval.Db.Models.{JsonObject}
use content_approval.Db.Integrity.{IsSound}
use content_approval.Db.Session.{
  World, Outcome, returned, raised, Exec, ◌>>=◌, pure, answer, world_of, Result, ok, err, and_then,
}
use content_approval.Db.Session.Transaction.{get_db}
use content_approval.Db.Session.Atomic.{get_db-atomic, get_db-map, map_result}
use content_approval.Auth.{Action, AuthProvider, Principal, authorize}
use content_approval.Api.Schemas.{Libraries, out_of}
use content_approval.Api.Schemas.Validation.{validate_create, validate_comment, validate_reason}
use content_approval.Api.Idempotency.{Reply, run_idempotent}
use content_approval.Api.Idempotency.Replay.{find_key, first-run, first-run_fails, later-run}
use content_approval.Api.Routes.{
  Request, or_unprocessable, create_approval_request, approve_approval_request,
  reject_approval_request, cancel_approval_request, get_approval_request, list_approval_requests,
  create_handler, approve_handler, reject_handler, cancel_handler, dump_create, dump_comment,
  dump_reason, required_key, optional_key, draft_of,
}
use content_approval.Api.Routes.Effects.{Gate, passes, stops, authorize-Gate, replied-Done}
use content_approval.Api.Routes.Histories.{unprocessable-Gate}
use content_approval.App.{
  Response, Process, route, application, is_registered, call, dispatch, exception_handlers,
}
use content_approval.App.Correlation.{outcome}
use content_approval.App.Refusals.Handlers.{Refuses, gated-Refuses, replied-IsCoded, run-Refuses}

-- An exception, or a response with an error's status.
abbrev pub IsRefusal : Result Response → Type 0
IsRefusal (ok response) = 400 ≤ response.status_code
IsRefusal (err e) = Unit

routed {ℓ} :
    {A : Type ℓ} (f : A → Response) (body : Exec A) (w : World)
    → Refuses (λ a. (f a).status_code) body w
    → (o : Outcome A) → get_db body w ≡ o
    → IsRefusal (answer (and_then o (λ a. pure (f a))))
    → (world_of (and_then o (λ a. pure (f a)))).db ≡ w.db
routed f body w refuses (returned a w') e large =
    ap (λ x. (world_of x).db) (sym e) ∙ refuses a (ap answer e) large
routed f body w refuses (raised x w') e large =
    ap (λ x. (world_of x).db) (sym e) ∙ get_db-atomic body w x (ap answer e)

module _ (lower : String → String) (method path : String) (header : Option String) (uuid : String)
    (handler : Exec Response) (p : Process) where
  pub application-world :
      (o : Result Response)
      → outcome handler p ≡ o
      → (application lower method path header uuid handler p).1.world
        ≡ world_of (handler (record p.world { log = [] }))
  unfolding application dispatch exception_handlers call
  application-world (ok response) e = rw e refl
  application-world (err f) e = elim (Bool-cases (is_registered f)) [
    | inl registered ↦ rw (e, registered) refl
    | inr other ↦ rw (e, other) refl
  ]

  IsRefusal-outcome :
      (o : Result Response)
      → outcome handler p ≡ o
      → 400 ≤ (application lower method path header uuid handler p).0.status_code
      → IsRefusal o
  unfolding application dispatch exception_handlers call
  IsRefusal-outcome (ok response) e large = rw e at large
  IsRefusal-outcome (err f) e large = tt

module _ (provider : AuthProvider) (lib : Libraries) where
  written-Refuses {ℓ κ} :
      {A : Type ℓ} {B : Type κ} (action : Action) (ws : String) (authorization : Option String)
      (body : JsonObject) (key : Option A) (payload : Option B)
      (rest : Principal → A → B → Exec Reply) (w : World)
      → ((p : Principal) (k : A) (b : B) → Refuses (λ r. r.1) (rest p k b) w)
      → Refuses
          (λ r. r.1)
          (do
            p ← authorize provider action ws authorization
            k ← or_unprocessable provider lib body key
            b ← or_unprocessable provider lib body payload
            rest p k b)
          w
  written-Refuses action ws authorization body key payload rest w refuses =
      gated-Refuses (λ r. r.1) (authorize provider action ws authorization) _ w
        (authorize-Gate provider action ws authorization (record w { new = [] }))
        (λ p.
          gated-Refuses (λ r. r.1) (or_unprocessable provider lib body key) _ w
            (unprocessable-Gate provider lib body key (record w { new = [] }))
            (λ k.
              gated-Refuses (λ r. r.1) (or_unprocessable provider lib body payload) _ w
                (unprocessable-Gate provider lib body payload (record w { new = [] }))
                (refuses p k)))

  route-Refuses :
      (r : Request) (w : World)
      → IsSound w.db
      → IsRefusal (answer (route provider lib r w))
      → (world_of (route provider lib r w)).db ≡ w.db
  unfolding route create_approval_request approve_approval_request reject_approval_request
      cancel_approval_request create_handler approve_handler reject_handler cancel_handler
      get_approval_request list_approval_requests
  route-Refuses (Request.create ws auth key body) w sound =
      routed _ _ w
        (written-Refuses Action.create ws auth (dump_create body) (required_key key)
          (validate_create body) _ w
          (λ p k payload.
            let m = create_request (draft_of ws p.user_id payload) in
            run-Refuses lib ws _ _ _ 201 (omega arith) w (some k) (replied-IsCoded m 201 w)
              (replied-Done ws m 201 w (create-Done _ w))))
        _ refl
  route-Refuses (Request.approve ws id auth key body) w sound =
      routed _ _ w
        (written-Refuses Action.decide ws auth (dump_comment body) (optional_key key)
          (validate_comment body) _ w
          (λ p k comment.
            run-Refuses lib ws _ _ _ 200 (omega arith) w k (replied-IsCoded _ 200 w)
              (replied-Done ws _ 200 w (approve-Done ws id p.user_id w sound comment))))
        _ refl
  route-Refuses (Request.reject ws id auth key body) w sound =
      routed _ _ w
        (written-Refuses Action.decide ws auth (dump_reason body) (optional_key key)
          (validate_reason body) _ w
          (λ p k reason.
            run-Refuses lib ws _ _ _ 200 (omega arith) w k (replied-IsCoded _ 200 w)
              (replied-Done ws _ 200 w (reject-Done ws id p.user_id w sound reason))))
        _ refl
  route-Refuses (Request.cancel ws id auth key body) w sound =
      routed _ _ w
        (written-Refuses Action.cancel ws auth (dump_reason body) (optional_key key)
          (validate_reason body) _ w
          (λ p k reason.
            run-Refuses lib ws _ _ _ 200 (omega arith) w k (replied-IsCoded _ 200 w)
              (replied-Done ws _ 200 w (cancel-Done ws id p.user_id w sound reason))))
        _ refl
  route-Refuses (Request.get ws id auth) w sound =
      routed _ _ w (λ _ _ large. absurd (omega (arith, large))) _ refl
  route-Refuses (Request.list ws status limit offset auth) w sound =
      routed _ _ w (λ _ _ large. absurd (omega (arith, large))) _ refl

  module _ (lower : String → String) (method path : String) (header : Option String) (uuid : String)
      (r : Request) (p : Process) where
    -- From a database that meets its constraints, a request to the application whose response has a
    -- status of 400 or more, whether a route, a handler of an exception or the last resort made it,
    -- leaves the database as it was.
    pub application-Refusal :
        IsSound p.world.db
        → 400 ≤ (application lower method path header uuid (route provider lib r) p).0.status_code
        → (application lower method path header uuid (route provider lib r) p).1.world.db
          ≡ p.world.db
    application-Refusal sound large =
        let o = outcome (route provider lib r) p in
        ap (λ x. x.db)
          (application-world lower method path header uuid (route provider lib r) p o refl)
        ∙ route-Refuses r (record p.world { log = [] }) sound
            (IsRefusal-outcome lower method path header uuid (route provider lib r) p o refl large)

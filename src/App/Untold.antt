-- ===== src/App/Untold.antt =====
-- What a decision that is sent to the application of app/main.py tells of its text: the log lines and the
-- events of the outbox have nothing of it.
use content_approval.Common.{
  String, ◌≡◌, refl, sym, ap, subst, ◌∙◌, Option, some, List, [], ◌++◌, true,
}
use content_approval.Domain.Changes.{Choice}
use content_approval.Domain.Entities.{ApprovalRequest}
use content_approval.Domain.Service.{approve_request, reject_request, cancel_request}
use content_approval.Domain.Service.Decide.{HasFreshTrailIds}
use content_approval.Domain.Service.Secrecy.{told}
use content_approval.Domain.Interleaved.{perform}
use content_approval.Domain.Interleaved.AtOnce.{
  Reworded, approved, rejected, cancelled, perform-told, perform-verdict,
}
use content_approval.Db.Models.{OutboxEvent}
use content_approval.Db.Repository.Lookup.{HasUniqueIds, find_request}
use content_approval.Db.Session.{
  World, LogRecord, Outcome, returned, raised, and_then, Exec, ◌>>=◌, pure, world_of, Result, ok,
  err,
}
use content_approval.Db.Session.Transaction.{get_db}
use content_approval.Db.Session.Atomic.{get_db-map_world, map_result}
use content_approval.Auth.{Action, AuthProvider, has_action}
use content_approval.Api.Schemas.{Libraries, out_of}
use content_approval.Api.Idempotency.{run_idempotent}
use content_approval.Api.Routes.{
  approve_approval_request, reject_approval_request, cancel_approval_request, approve_handler,
  reject_handler, cancel_handler,
}
use content_approval.App.{Response, Process, route, application, replied, stamped, request_id_of}
use content_approval.App.Correlation.{IsHandled, application-handled}
use content_approval.App.Refusals.{application-world}
use content_approval.App.Authorized.{action_of_request}
use content_approval.App.Authorized.Checks.{Allowed}
use content_approval.App.Decided.Shown.{IsRegistered, shown, verdict-IsRegistered}
use content_approval.App.Decided.{
  Validates, comment_to_approve, reason_to_reject, reason_to_cancel, request_for, admitted,
  authorize-Allowed, route-perform,
}

left_by {ℓ κ} :
    {A : Type ℓ} {B : Type κ} (f : A → B) (o : Outcome A)
    → world_of (and_then o (λ a. pure (f a))) ≡ world_of o
left_by f (returned a w) = refl
left_by f (raised e w) = refl

-- The response of a decision leaves the world that the decision leaves.
shown-world :
    (m : Exec ApprovalRequest) (w : World)
    → world_of
        ((get_db (do request ← m; pure (out_of request, 200)) >>= λ reply. pure (replied reply)) w)
      ≡ world_of (get_db m w)
shown-world m w =
    left_by replied (get_db (do request ← m; pure (out_of request, 200)) w)
    ∙ get_db-map_world (λ request. (out_of request, 200)) m w

module _ (provider : AuthProvider) (lib : Libraries) (ws id : String) (auth : Option String) where
  route-world :
      (c c' : Choice)
      → Validates c c'
      → (a : Allowed ws (action_of_request (request_for ws id auth c)) (provider.authenticate auth))
      → (w : World)
      → world_of (route provider lib (request_for ws id auth c) w)
        ≡ world_of (get_db (perform ws id a.who.user_id c') w)
  unfolding route approve_approval_request reject_approval_request cancel_approval_request
      approve_handler reject_handler cancel_handler run_idempotent perform
  route-world _ _ (comment_to_approve sent kept valid) a w =
      rw (admitted _ _ a.who w (authorize-Allowed provider Action.decide ws auth a), valid)
        (shown-world (approve_request ws id a.who.user_id kept) w)
  route-world _ _ (reason_to_reject sent kept valid) a w =
      rw (admitted _ _ a.who w (authorize-Allowed provider Action.decide ws auth a), valid)
        (shown-world (reject_request ws id a.who.user_id kept) w)
  route-world _ _ (reason_to_cancel sent kept valid) a w =
      rw (admitted _ _ a.who w (authorize-Allowed provider Action.cancel ws auth a), valid)
        (shown-world (cancel_request ws id a.who.user_id kept) w)

  route-told :
      (c c' : Choice)
      → Validates c c'
      → (a : Allowed ws (action_of_request (request_for ws id auth c)) (provider.authenticate auth))
      → (w : World)
      → told (world_of (route provider lib (request_for ws id auth c) w))
        ≡ told (world_of (get_db (perform ws id a.who.user_id c') w))
  route-told c c' valid a w = ap told (route-world c c' valid a w)

  asks_alike :
      (sent sent' c c' : Choice)
      → Reworded c c'
      → Validates sent c
      → Validates sent' c'
      → action_of_request (request_for ws id auth sent)
        ≡ action_of_request (request_for ws id auth sent')
  asks_alike _ _ _ _ (approved k o) (comment_to_approve x _ v) (comment_to_approve y _ v') = refl
  asks_alike _ _ _ _ (rejected k o) (reason_to_reject x _ v) (reason_to_reject y _ v') = refl
  asks_alike _ _ _ _ (cancelled k o) (reason_to_cancel x _ v) (reason_to_cancel y _ v') = refl

-- What the process has told: the events that wait to be published, and the lines written.
abbrev pub told_by_process : Process → List OutboxEvent × List (Option String × LogRecord)
told_by_process q = (q.world.db.outbox_events, q.written)

-- A response, or a registered exception, is one that the handlers inside the middleware take.
IsRegistered-IsHandled : (r : Result Response) → IsRegistered r → IsHandled r
IsRegistered-IsHandled (ok response) fine = tt
IsRegistered-IsHandled (err e) fine = fine

module _ (provider : AuthProvider) (lib : Libraries) (lower : String → String)
    (method path : String) (header : Option String) (uuid ws id : String) (auth : Option String)
    (p : Process) where
  -- The request with a choice in the application.
  abbrev after : Choice → Process
  after c =
      (application lower method path header uuid (route provider lib (request_for ws id auth c))
        p).1

  after-told :
      (c c' : Choice)
      → Validates c c'
      → (a : Allowed ws (action_of_request (request_for ws id auth c)) (provider.authenticate auth))
      → HasUniqueIds p.world.db
      → HasFreshTrailIds p.world
      → told_by_process (after c) ≡ (
        (told (world_of (get_db (perform ws id a.who.user_id c') (record p.world { log = [] })))).0,
        p.written
            ++ stamped
                (some (request_id_of header uuid))
                (told (
                  world_of
                    (get_db (perform ws id a.who.user_id c') (record p.world { log = [] })))).1,
      )
  after-told c c' valid a unique fresh =
      let w : World = record p.world { log = [] } in
      let both =
        route-perform provider lib ws id auth c c' valid a w
        ∙ ap (λ x. (map_result shown x.0, x.1))
            (perform-verdict ws id a.who.user_id w c' unique
              (record { audit = fresh.audit; event = fresh.event })) in
      let fine = subst IsHandled (sym (ap (λ x. x.0) both)) (
        IsRegistered-IsHandled _
          (verdict-IsRegistered ws id a.who.user_id c' w (find_request ws id p.world.db))) in
      let tells = route-told provider lib ws id auth c c' valid a w in
      let correlated =
        application-handled lower method path header uuid
          (route provider lib (request_for ws id auth c)) p fine in
      let outbox =
        ap (λ x. x.db.outbox_events) (application-world lower method path header uuid _ p _ refl)
        ∙ ap (λ x. x.0) tells in
      let lines =
        correlated.1
        ∙ ap (λ x. p.written ++ stamped (some (request_id_of header uuid)) x.1) tells in
      λ i. (outbox i, lines i)

  -- Two requests to the application to approve, reject or cancel, without a key and of a principal who
  -- is allowed, that differ in the comment or the reason only, each let through by its validation:
  -- where the keys of the rows are unique and the next tokens give identifiers that the two trails do
  -- not hold, they leave the same log lines, with the same identifiers, and the same events in the
  -- outbox, so that nothing of the text is told there.
  pub application-told :
      (sent sent' c c' : Choice)
      → Validates sent c
      → Validates sent' c'
      → Reworded c c'
      → Allowed ws (action_of_request (request_for ws id auth sent)) (provider.authenticate auth)
      → HasUniqueIds p.world.db
      → HasFreshTrailIds p.world
      → told_by_process (after sent) ≡ told_by_process (after sent')
  application-told sent sent' c c' valid valid' same a unique fresh =
      let w : World = record p.world { log = [] } in
      let alike = asks_alike provider lib ws id auth sent sent' c c' same valid valid' in
      let a' : Allowed ws (action_of_request (request_for ws id auth sent'))
          (provider.authenticate auth) =
        record {
          who = a.who;
          authenticated = a.authenticated;
          own = a.own;
          held = subst (λ action. has_action a.who action ≡ true) alike a.held;
        } in
      let tells = perform-told ws id a.who.user_id w c c' same unique in
      after-told sent c valid a unique fresh
      ∙ ap (λ t. (t.0, p.written ++ stamped (some (request_id_of header uuid)) t.1)) tells
      ∙ sym (after-told sent' c' valid' a' unique fresh)

-- ===== src/App/Retried.antt =====
-- A request with its Idempotency-Key sent again to the application of app/main.py.
pub mod Conflict
use Prim.Native.String
use Prim.Native.String.{count}
use content_approval.Common.{
  String, ◌≡◌, refl, sym, ap, ◌∙◌, true, leb, ◌&&◌, Option, none, some, [],
}
use content_approval.Domain.Service.{create_request}
use content_approval.Domain.Changes.Done.{
  Done, changed, failed, create-Done, approve-Done, reject-Done, cancel-Done,
}
use content_approval.Db.Models.{Db, JsonObject}
use content_approval.Db.Integrity.{IsSound}
use content_approval.Db.Session.{World, Outcome, returned, Exec, ok, effect}
use content_approval.Db.Session.Transaction.{get_db}
use content_approval.Db.Session.Atomic.{map_result}
use content_approval.Auth.{Principal, AuthProvider, has_action, valid, authorize}
use content_approval.Api.Schemas.{Libraries}
use content_approval.Api.Schemas.Validation.{
  ApprovalRequestCreate, validate_create, validate_comment, validate_reason,
}
use content_approval.Api.Idempotency.{Reply, run_idempotent}
use content_approval.Api.Idempotency.Replay.{find_key, first-run}
use content_approval.Api.Idempotency.Again.{run-again}
use content_approval.Api.Routes.{
  Request, create_handler, approve_handler, reject_handler, cancel_handler, dump_create,
  dump_comment, dump_reason, draft_of, create_approval_request, approve_approval_request,
  reject_approval_request, cancel_approval_request,
}
use content_approval.Api.Routes.Effects.{replied-Done}
use content_approval.App.{Response, Process, route, application, replied}
use content_approval.App.Authorized.{action_of_request}
use content_approval.App.Decided.{respond, admitted, authorize-Allowed, application-respond}
use content_approval.App.Decided.Shown.{mapped}
use content_approval.App.Refusals.{application-world}

module _ (provider : AuthProvider) (lib : Libraries) (ws user key : String)
    (auth : Option String) where
  -- A request with the key, by the route under which the key is stored, the body that is kept after
  -- the validation, and the handler.
  pub data Sent : Request → String → JsonObject → Exec Reply → Type 0 where
    creation :
        (sent kept : ApprovalRequestCreate)
        → validate_create sent ≡ some kept
        → Sent
            (Request.create ws auth (some key) sent)
            "create"
            (dump_create kept)
            (create_handler provider lib ws user kept)
    approval :
        (id : String) (sent kept : Option String)
        → validate_comment sent ≡ some kept
        → Sent
            (Request.approve ws id auth (some key) sent)
            (String.◌++◌ "approve:" id)
            (dump_comment kept)
            (approve_handler provider lib ws id user kept)
    rejection :
        (id sent kept : String)
        → validate_reason sent ≡ some kept
        → Sent
            (Request.reject ws id auth (some key) sent)
            (String.◌++◌ "reject:" id)
            (dump_reason kept)
            (reject_handler provider lib ws id user kept)
    cancellation :
        (id sent kept : String)
        → validate_reason sent ≡ some kept
        → Sent
            (Request.cancel ws id auth (some key) sent)
            (String.◌++◌ "cancel:" id)
            (dump_reason kept)
            (cancel_handler provider lib ws id user kept)

  Sent-Done :
      {r : Request} {rt : String} {payload : JsonObject} {handler : Exec Reply} (w : World)
      → Sent r rt payload handler
      → IsSound w.db
      → Done ws handler w
  unfolding create_handler approve_handler reject_handler cancel_handler
  Sent-Done w (creation sent kept passed) sound =
      replied-Done ws (create_request (draft_of ws user kept)) 201 w (create-Done _ w)
  Sent-Done w (approval id sent kept passed) sound =
      replied-Done ws _ 200 w (approve-Done ws id user w sound kept)
  Sent-Done w (rejection id sent kept passed) sound =
      replied-Done ws _ 200 w (reject-Done ws id user w sound kept)
  Sent-Done w (cancellation id sent kept passed) sound =
      replied-Done ws _ 200 w (cancel-Done ws id user w sound kept)

-- What the header may be.
abbrev pub IsKey : String → Type 0
IsKey key = (leb 1 (count key) && leb (count key) 255) ≡ true

module _ (provider : AuthProvider) (lib : Libraries) (ws key : String) (auth : Option String)
    (who : Principal) where
  -- The principal may make the request.
  pub record May (r : Request) : Type 0 where
    pub authenticated : provider.authenticate auth ≡ valid who
    pub own : who.workspace_id ≡ ws
    pub held : has_action who (action_of_request r) ≡ true

  passes :
      (r : Request)
      → May r
      → (v : World) → authorize provider (action_of_request r) ws auth v ≡ returned who v
  passes r may =
      authorize-Allowed provider (action_of_request r) ws auth
        (record { who = who; authenticated = may.authenticated; own = may.own; held = may.held })

  -- The run of a handler under the key.
  abbrev run : String → JsonObject → Exec Reply → World → Outcome Reply
  run rt payload handler = get_db (run_idempotent lib ws rt (some key) payload handler)

  -- The route of a request of a principal who is allowed is that run.
  route-run :
      (r : Request) (rt : String) (payload : JsonObject) (handler : Exec Reply)
      → Sent provider lib ws who.user_id key auth r rt payload handler
      → May r
      → IsKey key
      → (w : World)
      → effect (route provider lib r w) ≡ (
        map_result replied (effect (run rt payload handler w)).0,
        (effect (run rt payload handler w)).1,
      )
  unfolding route create_approval_request approve_approval_request reject_approval_request
      cancel_approval_request
  route-run r rt payload handler (creation sent kept passed) may fits w =
      rw (admitted _ _ who w (passes r may), fits, passed)
        (mapped replied (run rt payload handler w))
  route-run r rt payload handler (approval id sent kept passed) may fits w =
      rw (admitted _ _ who w (passes r may), fits, passed)
        (mapped replied (run rt payload handler w))
  route-run r rt payload handler (rejection id sent kept passed) may fits w =
      rw (admitted _ _ who w (passes r may), fits, passed)
        (mapped replied (run rt payload handler w))
  route-run r rt payload handler (cancellation id sent kept passed) may fits w =
      rw (admitted _ _ who w (passes r may), fits, passed)
        (mapped replied (run rt payload handler w))

  -- The process as the handler of a request finds it.
  abbrev pub entered : Process → World
  entered p = record p.world { log = [] }

  keeps-keys :
      {handler : Exec Reply} {w : World} {reply : Reply} {db : Db}
      → Done ws handler w
      → effect (get_db handler w) ≡ (ok reply, db)
      → db.idempotency_keys ≡ w.db.idempotency_keys
  keeps-keys (changed a db' e same change own) h = ap (λ x. x.1.idempotency_keys) (sym h ∙ e) ∙ same
  keeps-keys (failed f e) h = cc

  module _ (lower : String → String) (method path : String) (r : Request) (rt : String)
      (payload : JsonObject) (handler : Exec Reply)
      (sent : Sent provider lib ws who.user_id key auth r rt payload handler) (may : May r)
      (fits : IsKey key) where
    -- The request in the application, with its X-Request-Id and the next uuid.
    abbrev pub handled : Option String → String → Process → Response × Process
    handled header uuid p = application lower method path header uuid (route provider lib r) p

    answers :
        (header : Option String) (uuid : String) (p : Process) (reply : Reply) (db : Db)
        → effect (run rt payload handler (entered p)) ≡ (ok reply, db)
        → ((handled header uuid p).0 ≡ respond lower header uuid (ok (replied reply)))
          × ((handled header uuid p).1.world.db ≡ db)
    answers header uuid p reply db runs =
        let both =
          route-run r rt payload handler sent may fits (entered p)
          ∙ ap (λ x. (map_result replied x.0, x.1)) runs in
        (
          application-respond lower header uuid method path _ p (ok (replied reply))
              (ap (λ x. x.0) both) tt,
          ap (λ x. x.db) (application-world lower method path header uuid _ p _ refl)
              ∙ ap (λ x. x.1) both,
        )

    -- A request to create, approve, reject or cancel, with a key that was not stored, of a principal
    -- who is allowed, with a body that its validation lets through, from a database that meets its
    -- constraints, where its handler succeeds: the response is that of the handler, with its status.
    -- The request sent again with the key, to the database that the first one left, whatever its
    -- X-Request-Id, the clock and the tokens: the same response but for that identifier, and the
    -- database stays as it is.
    pub application-retried :
        (header header' : Option String) (uuid uuid' : String) (p p' : Process) (reply : Reply)
        (db : Db)
        → IsSound p.world.db
        → find_key ws rt key p.world.db ≡ none
        → effect (get_db handler (entered p)) ≡ (ok reply, db)
        → p'.world.db ≡ (handled header uuid p).1.world.db
        → ((handled header uuid p).0 ≡ respond lower header uuid (ok (replied reply)))
          × ((handled header' uuid' p').0 ≡ respond lower header' uuid' (ok (replied reply)))
          × ((handled header' uuid' p').1.world.db ≡ p'.world.db)
    application-retried header header' uuid uuid' p p' reply db sound missing h left =
        let same =
          keeps-keys (Sent-Done provider lib ws who.user_id key auth (entered p) sent sound) h in
        let (t, first) =
          first-run lib ws rt key payload handler (entered p) reply db missing same h in
        let (shown, kept) = answers header uuid p reply _ first in
        let again =
          run-again lib ws rt key payload handler handler (entered p) (entered p') reply db missing
            same h (left ∙ kept ∙ sym (ap (λ x. x.1) first)) in
        let (shown', kept') = answers header' uuid' p' reply _ (again ∙ first) in
        (shown, shown', kept' ∙ sym (left ∙ kept))

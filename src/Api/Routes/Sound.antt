-- ===== src/Api/Routes/Sound.antt =====
-- The routes of app/api/v1/approval_requests.py and the constraints of the tables.
use content_approval.Common.{ℕ, String, find, not, ◌==◌, Option, none, some, List, [], ◌∷◌}
use content_approval.Domain.Entities.{ApprovalRequest}
use content_approval.Domain.Exceptions.{integrity_error}
use content_approval.Db.Models.{JsonObject, IdempotencyKey}
use content_approval.Db.Session.{
  World, Outcome, returned, raised, Exec, ◌>>=◌, pure, world_of, new_key, add,
}
use content_approval.Db.Session.Flush.{flush, is_entry}
use content_approval.Db.Session.Transaction.{get_db}
use content_approval.Db.Session.Keeps.{
  Keeps, Keeps-bind, Keeps-returned, Keeps-raised, Keeps-gets, Keeps-if, Keeps-get_db,
}
use content_approval.Db.Integrity.{IsSound}
use content_approval.Domain.Service.Sound.{
  flush-IsSound, get_or_raise-IsSound, approve-IsSound, reject-IsSound, cancel-IsSound,
  list-IsSound, create_request-IsSound,
}
use content_approval.Auth.{
  Action, AuthProvider, Principal, Credentials, valid, invalid, or_unauthorized, get_principal,
  require_action, authorize, has_action,
}
use content_approval.Api.Schemas.{ApprovalRequestOut, Libraries, out_of}
use content_approval.Api.Schemas.Validation.{validate_create, validate_comment, validate_reason}
use content_approval.Api.Idempotency.{
  Reply, or_conflict, flush_key, key_row, validated, replay_or_run, run_and_store, run_idempotent,
  fingerprint,
}
use content_approval.Domain.Service.{get_request}
use content_approval.Api.Routes.{
  or_unprocessable, Request, serve, serve_all, create_approval_request, approve_approval_request,
  reject_approval_request, cancel_approval_request, get_approval_request, list_approval_requests,
  create_handler, approve_handler, reject_handler, cancel_handler, dump_create, dump_comment,
  dump_reason, required_key, optional_key, page_bounds,
}

or_conflict-IsSound :
    (o : Outcome (Unit {0})) → IsSound (world_of o).db → IsSound (world_of (or_conflict o)).db
or_conflict-IsSound (raised integrity_error w) h = h
or_conflict-IsSound (raised e w) h = h
or_conflict-IsSound (returned a w) h = h

authorize-IsSound :
    (provider : AuthProvider) (action : Action) (ws : String) (authorization : Option String)
    → Keeps IsSound (authorize provider action ws authorization)
unfolding authorize get_principal require_action
authorize-IsSound provider action ws authorization =
    Keeps-bind (or_unauthorized (provider.authenticate authorization)) _
      (credentials (provider.authenticate authorization))
      (λ p.
        Keeps-if (not (p.workspace_id == ws)) _ _ (record { run = λ w h. h })
          (Keeps-if (not (has_action p action)) _ _ (record { run = λ w h. h }) (Keeps-returned p)))
  where
    credentials : (c : Credentials) → Keeps IsSound (or_unauthorized c)
    credentials (valid p) = Keeps-returned p
    credentials (invalid reason) = record { run = λ w h. h }

module _ (lib : Libraries) where
  validated-IsSound :
      (o : Option ApprovalRequestOut) (code : ℕ) → Keeps IsSound (validated lib o code)
  validated-IsSound none code = Keeps-raised _
  validated-IsSound (some response) code = Keeps-returned (response, code)

  pub run_and_store-IsSound :
      (ws route key : String) (payload : JsonObject) (handler : Exec Reply)
      → Keeps IsSound handler
      → Keeps IsSound (run_and_store lib ws route key payload handler)
  unfolding run_and_store
  run_and_store-IsSound ws route key payload handler kept = Keeps-bind handler _ kept (λ reply.
      Keeps-bind (add (new_key (key_row lib ws route key payload reply))) _
        (record { run = λ w h. h })
        (λ _.
          Keeps-bind (flush_key lib) _
            (record { run = λ w h. or_conflict-IsSound (flush w) (flush-IsSound.run w h) })
            (λ _. Keeps-returned reply)))

  pub replay_or_run-IsSound :
      (found : Option IdempotencyKey) (fp : String) (m : Exec Reply)
      → Keeps IsSound m
      → Keeps IsSound (replay_or_run lib found fp m)
  replay_or_run-IsSound none fp m kept = kept
  replay_or_run-IsSound (some existing) fp m kept =
      Keeps-if (not (existing.request_fingerprint == fp)) _ _ (Keeps-raised _)
        (validated-IsSound (lib.model_validate existing.response_body) existing.response_status)

  run_idempotent-IsSound :
      (ws route : String) (key : Option String) (payload : JsonObject) (handler : Exec Reply)
      → Keeps IsSound handler
      → Keeps IsSound (run_idempotent lib ws route key payload handler)
  unfolding run_idempotent
  run_idempotent-IsSound ws route none payload handler kept = kept
  run_idempotent-IsSound ws route (some key) payload handler kept =
      Keeps-bind _ _ (Keeps-gets (λ w. find (is_entry ws route key) w.db.idempotency_keys))
        (λ found.
          replay_or_run-IsSound found (fingerprint lib payload) _
            (run_and_store-IsSound ws route key payload handler kept))

  pub replied-IsSound :
      (m : Exec ApprovalRequest) (code : ℕ)
      → Keeps IsSound m
      → Keeps {A = Reply} IsSound (do request ← m; pure (out_of request, code))
  replied-IsSound m code kept =
      Keeps-bind m _ kept (λ request. Keeps-returned (out_of request, code))

module _ (provider : AuthProvider) (lib : Libraries) where
  or_unprocessable-IsSound {ℓ} :
      {A : Type ℓ} (body : JsonObject) (o : Option A)
      → Keeps IsSound (or_unprocessable provider lib body o)
  or_unprocessable-IsSound body none = Keeps-raised _
  or_unprocessable-IsSound body (some a) = Keeps-returned a

  -- A writing route: the checks, the validations and the idempotent handler.
  written-IsSound {ℓ κ} :
      {A : Type ℓ} {B : Type κ} (action : Action) (ws : String) (authorization : Option String)
      (body : JsonObject) (key : Option A) (payload : Option B)
      (rest : Principal → A → B → Exec Reply)
      → ((p : Principal) (k : A) (b : B) → Keeps IsSound (rest p k b))
      → Keeps IsSound (
          get_db (do
            p ← authorize provider action ws authorization
            k ← or_unprocessable provider lib body key
            b ← or_unprocessable provider lib body payload
            rest p k b))
  written-IsSound action ws authorization body key payload rest kept =
      Keeps-get_db _ flush-IsSound (
        Keeps-bind (authorize provider action ws authorization) _
          (authorize-IsSound provider action ws authorization)
          (λ p.
            Keeps-bind (or_unprocessable provider lib body key) _
              (or_unprocessable-IsSound body key)
              (λ k.
                Keeps-bind (or_unprocessable provider lib body payload) _
                  (or_unprocessable-IsSound body payload) (kept p k))))

  pub serve-IsSound : (w : World) (r : Request) → IsSound w.db → IsSound (serve provider lib w r).db
  unfolding serve create_approval_request approve_approval_request reject_approval_request
      cancel_approval_request get_approval_request list_approval_requests create_handler
      approve_handler reject_handler cancel_handler get_request
  serve-IsSound w (Request.create ws auth key body) h =
      (written-IsSound Action.create ws auth (dump_create body) (required_key key)
          (validate_create body) _
          (λ p k payload.
            run_idempotent-IsSound lib ws _ (some k) _ _
              (replied-IsSound lib _ 201 (create_request-IsSound _)))).run
        w h
  serve-IsSound w (Request.approve ws id auth key body) h =
      (written-IsSound Action.decide ws auth (dump_comment body) (optional_key key)
          (validate_comment body) _
          (λ p k comment.
            run_idempotent-IsSound lib ws _ k _ _
              (replied-IsSound lib _ 200 (approve-IsSound ws id p.user_id comment)))).run
        w h
  serve-IsSound w (Request.reject ws id auth key body) h =
      (written-IsSound Action.decide ws auth (dump_reason body) (optional_key key)
          (validate_reason body) _
          (λ p k reason.
            run_idempotent-IsSound lib ws _ k _ _
              (replied-IsSound lib _ 200 (reject-IsSound ws id p.user_id reason)))).run
        w h
  serve-IsSound w (Request.cancel ws id auth key body) h =
      (written-IsSound Action.cancel ws auth (dump_reason body) (optional_key key)
          (validate_reason body) _
          (λ p k reason.
            run_idempotent-IsSound lib ws _ k _ _
              (replied-IsSound lib _ 200 (cancel-IsSound ws id p.user_id reason)))).run
        w h
  serve-IsSound w (Request.get ws id auth) h =
      (Keeps-get_db _ flush-IsSound (
          Keeps-bind (authorize provider Action.read ws auth) _
            (authorize-IsSound provider Action.read ws auth)
            (λ p.
              Keeps-bind _ _ (get_or_raise-IsSound ws id)
                (λ request. Keeps-returned (out_of request))))).run
        w h
  serve-IsSound w (Request.list ws status limit offset auth) h =
      (Keeps-get_db _ flush-IsSound (
          Keeps-bind (authorize provider Action.read ws auth) _
            (authorize-IsSound provider Action.read ws auth)
            (λ p.
              Keeps-bind (or_unprocessable provider lib [] (page_bounds provider lib limit offset))
                _ (or_unprocessable-IsSound [] (page_bounds provider lib limit offset))
                (λ bounds.
                  Keeps-bind _ _ (list-IsSound ws status bounds.0 bounds.1)
                    (λ found. Keeps-returned _))))).run
        w h

  -- From a database that meets its constraints (unique keys in all five tables, and a request of the
  -- same workspace behind each reviewer, audit entry and event), any sequence of requests to the
  -- routes leads to one that meets them.
  pub serve_all-IsSound :
      (w : World) (rs : List Request) → IsSound w.db → IsSound (serve_all provider lib w rs).db
  unfolding serve_all
  serve_all-IsSound w [] h = h
  serve_all-IsSound w (r ∷ rs) h =
      serve_all-IsSound (serve provider lib w r) rs (serve-IsSound w r h)

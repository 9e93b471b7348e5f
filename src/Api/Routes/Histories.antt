-- ===== src/Api/Routes/Histories.antt =====
-- The requests to the routes of app/api/v1/approval_requests.py as histories of Domain/Changes.
use content_approval.Common.{
  false, ◌==◌, String, ◌≡◌, refl, sym, subst, Option-cases, inl, inr, Option, none, some, List, [],
  ◌∷◌,
}
use content_approval.Db.Models.{JsonObject, ApprovalRequestRow, empty_db}
use content_approval.Db.Session.{World, Exec, ◌>>=◌, pure}
use content_approval.Db.Session.Transaction.{get_db}
use content_approval.Auth.{Action, Principal, AuthProvider, authorize}
use content_approval.Api.Routes.{
  or_unprocessable, Request, serve, serve_all, create_approval_request, approve_approval_request,
  reject_approval_request, cancel_approval_request, get_approval_request, list_approval_requests,
  create_handler, approve_handler, reject_handler, cancel_handler, dump_create, dump_comment,
  dump_reason, required_key, optional_key, page_bounds, draft_of,
}
use content_approval.Api.Schemas.Validation.{validate_create, validate_comment, validate_reason}
use content_approval.Api.Schemas.{Libraries, out_of}
use content_approval.Api.Idempotency.{Reply}
use content_approval.Db.Integrity.{IsSound, empty-IsSound}
use content_approval.Db.Repository.{list}
use content_approval.Db.Repository.Lookup.{find_request, get_lem}
use content_approval.Domain.Service.{get_request, get_or_raise, list_requests, create_request}
use content_approval.Domain.Changes.Done.{create-Done, approve-Done, reject-Done, cancel-Done}
use content_approval.Api.Routes.Effects.{
  replied-Done, ReachesAfter, run-Reaches, Gate, passes, stops, gated, authorize-Gate,
}
use content_approval.Api.Routes.Sound.{serve-IsSound}
use content_approval.Domain.Changes.Final.{StillThere, Reaches-StillThere}
use content_approval.Domain.Changes.Trails.{TrailsAgree, Reaches-TrailsAgree, empty-TrailsAgree}
use content_approval.Domain.Changes.{Reaches-trans, Reaches, start}
use content_approval.Domain.Changes.Within.{
  ReachesIn, nothing, forget, Untouched, ReachesIn-Untouched,
}

-- The workspace that a request names in its path.
abbrev pub path_workspace : Request → String
path_workspace (Request.create ws auth key body) = ws
path_workspace (Request.approve ws id auth key body) = ws
path_workspace (Request.reject ws id auth key body) = ws
path_workspace (Request.cancel ws id auth key body) = ws
path_workspace (Request.get ws id auth) = ws
path_workspace (Request.list ws status limit offset auth) = ws

module _ (provider : AuthProvider) (lib : Libraries) where
  pub unprocessable-Gate {ℓ} :
      {A : Type ℓ} (body : JsonObject) (o : Option A) (w : World)
      → Gate (or_unprocessable provider lib body o) w
  unprocessable-Gate body none w = stops _ w refl
  unprocessable-Gate body (some a) w = passes a refl

  written-Reaches {ℓ κ} :
      {A : Type ℓ} {B : Type κ} (action : Action) (ws : String) (authorization : Option String)
      (body : JsonObject) (key : Option A) (payload : Option B)
      (rest : Principal → A → B → Exec Reply) (w : World)
      → ((p : Principal) (k : A) (b : B) → ReachesAfter ws (rest p k b) w)
      → ReachesAfter ws
          (do
            p ← authorize provider action ws authorization
            k ← or_unprocessable provider lib body key
            b ← or_unprocessable provider lib body payload
            rest p k b)
          w
  written-Reaches action ws authorization body key payload rest w reach =
      gated (authorize provider action ws authorization) _ w
        (authorize-Gate provider action ws authorization (record w { new = [] }))
        (λ p.
          gated (or_unprocessable provider lib body key) _ w
            (unprocessable-Gate body key (record w { new = [] }))
            (λ k.
              gated (or_unprocessable provider lib body payload) _ w
                (unprocessable-Gate body payload (record w { new = [] })) (reach p k)))

  got-Reaches :
      (ws id : String) (w : World)
      → IsSound w.db
      → ReachesAfter ws (do request ← get_request ws id; pure (out_of request)) w
  unfolding get_db get_request get_or_raise
  got-Reaches ws id w sound = elim (Option-cases (find_request ws id w.db)) [
    | inl missing ↦ rw (get_lem ws id (record w { new = [] }) sound.request_ids, missing) nothing
    | inr (row, found) ↦ rw (get_lem ws id (record w { new = [] }) sound.request_ids, found) nothing
  ]

  pub serve-ReachesIn :
      (w : World) (r : Request)
      → IsSound w.db
      → ReachesIn (path_workspace r) w.db (serve provider lib w r).db
  unfolding serve create_approval_request approve_approval_request reject_approval_request
      cancel_approval_request create_handler approve_handler reject_handler cancel_handler
      get_approval_request list_approval_requests list_requests list get_db
  serve-ReachesIn w (Request.create ws auth key body) sound =
      written-Reaches Action.create ws auth (dump_create body) (required_key key)
        (validate_create body) _ w
        (λ p k payload. run-Reaches lib ws _ _ _ w (some k) (
          replied-Done ws (create_request (draft_of ws p.user_id payload)) 201 w (create-Done _ w)))
  serve-ReachesIn w (Request.approve ws id auth key body) sound =
      written-Reaches Action.decide ws auth (dump_comment body) (optional_key key)
        (validate_comment body) _ w
        (λ p k comment.
          run-Reaches lib ws _ _ _ w k
            (replied-Done ws _ 200 w (approve-Done ws id p.user_id w sound comment)))
  serve-ReachesIn w (Request.reject ws id auth key body) sound =
      written-Reaches Action.decide ws auth (dump_reason body) (optional_key key)
        (validate_reason body) _ w
        (λ p k reason.
          run-Reaches lib ws _ _ _ w k
            (replied-Done ws _ 200 w (reject-Done ws id p.user_id w sound reason)))
  serve-ReachesIn w (Request.cancel ws id auth key body) sound =
      written-Reaches Action.cancel ws auth (dump_reason body) (optional_key key)
        (validate_reason body) _ w
        (λ p k reason.
          run-Reaches lib ws _ _ _ w k
            (replied-Done ws _ 200 w (cancel-Done ws id p.user_id w sound reason)))
  serve-ReachesIn w (Request.get ws id auth) sound =
      gated (authorize provider Action.read ws auth) _ w
        (authorize-Gate provider Action.read ws auth (record w { new = [] }))
        (λ p. got-Reaches ws id w sound)
  serve-ReachesIn w (Request.list ws status limit offset auth) sound =
      gated (authorize provider Action.read ws auth) _ w
        (authorize-Gate provider Action.read ws auth (record w { new = [] }))
        (λ p.
          gated (or_unprocessable provider lib [] (page_bounds provider lib limit offset)) _ w
            (unprocessable-Gate [] (page_bounds provider lib limit offset) (record w { new = [] }))
            (λ bounds. nothing))

  -- From a database that meets its constraints, any sequence of requests to the routes makes a history
  -- of committed operations: creations with an unused identifier, each with one audit entry and one
  -- event, decisions of pending requests, each with one of each, and idempotency records.
  pub serve_all-Reaches :
      (w : World) (rs : List Request) → IsSound w.db → Reaches w.db (serve_all provider lib w rs).db
  unfolding serve_all
  serve_all-Reaches w [] sound = start
  serve_all-Reaches w (r ∷ rs) sound =
      Reaches-trans (forget (serve-ReachesIn w r sound))
        (serve_all-Reaches (serve provider lib w r) rs (serve-IsSound provider lib w r sound))

  -- Whatever requests are served from an empty database, in any order: for each workspace, request
  -- identifier and action, the audit trail and the outbox hold as many entries as the request's status
  -- says, one for its creation, one for the decision that it has, none for a key without a request.
  pub served-TrailsAgree :
      (w : World) (rs : List Request)
      → w.db ≡ empty_db
      → TrailsAgree (serve_all provider lib w rs).db
  served-TrailsAgree w rs empty =
      Reaches-TrailsAgree (subst TrailsAgree (sym empty) empty-TrailsAgree)
        (serve_all-Reaches w rs (subst IsSound (sym empty) empty-IsSound))

  -- Whatever requests are served after a database with its constraints holds a request: it holds it
  -- still, with the source, title, description, creator and creation time it had, and if it was
  -- decided, with every field it had.
  pub served-StillThere :
      (w : World) (rs : List Request) (ws id : String) (row : ApprovalRequestRow)
      → IsSound w.db
      → find_request ws id w.db ≡ some row
      → StillThere ws id row (serve_all provider lib w rs).db
  served-StillThere w rs ws id row sound found =
      Reaches-StillThere ws id row found (serve_all-Reaches w rs sound)

  -- A request leaves the rows of every workspace but the one in its path as they are, in each of the
  -- five tables, from a database that meets its constraints.
  pub serve-Untouched :
      (w : World) (r : Request) (ws : String)
      → IsSound w.db
      → (path_workspace r == ws) ≡ false
      → Untouched ws w.db (serve provider lib w r).db
  serve-Untouched w r ws sound apart =
      ReachesIn-Untouched ws (path_workspace r) apart (serve-ReachesIn w r sound)

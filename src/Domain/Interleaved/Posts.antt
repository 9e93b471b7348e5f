-- ===== src/Domain/Interleaved/Posts.antt =====
-- Creations under a key whose transactions overlap with others: app/api/idempotency.py around the creation
-- of app/api/v1/approval_requests.py.
use content_approval.Common.{String}
use content_approval.Db.Models.{JsonObject, Db}
use content_approval.Db.Session.{World}
use content_approval.Db.Integrity.{IsSound}
use content_approval.Domain.Service.{create_request}
use content_approval.Domain.Service.Sound.{create_request-IsSound}
use content_approval.Domain.Changes.Done.{create-Done}
use content_approval.Domain.Interleaved.Keyed.{Kept, late_run-Kept}
use content_approval.Auth.{AuthProvider}
use content_approval.Api.Schemas.{Libraries}
use content_approval.Api.Schemas.Validation.{ApprovalRequestCreate}
use content_approval.Api.Idempotency.Race.{late_run}
use content_approval.Api.Routes.{create_handler, draft_of}
use content_approval.Api.Routes.Effects.{replied-Done}
use content_approval.Api.Routes.Sound.{replied-IsSound}

module _ (provider : AuthProvider) (lib : Libraries) (ws user key : String) (payload : JsonObject)
    (body : ApprovalRequestCreate) (before now : World) where
  -- The look for the key was made in one world, the handler and the commit happen in another.
  unfoldable pub late_post : Db
  late_post =
      (late_run lib ws "create" key payload (create_handler provider lib ws user body) before now).1

  pub post-Kept : IsSound now.db → Kept now.db late_post
  unfolding late_post create_handler
  post-Kept =
      late_run-Kept lib ws "create" key payload _ before now
        (replied-Done ws (create_request (draft_of ws user body)) 201 now (create-Done _ now))
        (replied-IsSound lib _ 201 (create_request-IsSound _))

-- ===== src/Tests/Routes.antt =====
-- Requests served from an empty database and from one with a request: the theorems of Api/Routes at work.
use content_approval.Common.{refl}
use content_approval.Domain.Changes.{Reaches}
use content_approval.Domain.Changes.Final.{StillThere}
use content_approval.Domain.Changes.Trails.{TrailsAgree}
use content_approval.Db.Models.{empty_db}
use content_approval.Db.Integrity.{IsSound, empty-IsSound}
use content_approval.Db.Repository.Lookup.{find_request}
use content_approval.Api.Routes.{serve, serve_all, Request}
use content_approval.Domain.Changes.Within.{Untouched}
use content_approval.Common.{none, some}
use content_approval.Api.Routes.Sound.{serve_all-IsSound}
use content_approval.Api.Routes.Histories.{
  serve_all-Reaches, served-TrailsAgree, served-StillThere, serve-Untouched,
}
use content_approval.Tests.Data.{
  world_with, one_request, provider, libraries, requests, pending_row, one_request-IsSound,
}

serve_all-IsSound_example : IsSound (serve_all provider libraries (world_with empty_db) requests).db
serve_all-IsSound_example =
    serve_all-IsSound provider libraries (world_with empty_db) requests empty-IsSound

serve_all-Reaches_example :
    Reaches empty_db (serve_all provider libraries (world_with empty_db) requests).db
serve_all-Reaches_example =
    serve_all-Reaches provider libraries (world_with empty_db) requests empty-IsSound

served-TrailsAgree_example :
    TrailsAgree (serve_all provider libraries (world_with empty_db) requests).db
served-TrailsAgree_example =
    served-TrailsAgree provider libraries (world_with empty_db) requests refl

served-StillThere_example :
    StillThere "acme" "ar_9" pending_row
      (serve_all provider libraries (world_with one_request) requests).db
unfolding find_request
served-StillThere_example =
    served-StillThere provider libraries (world_with one_request) requests "acme" "ar_9" pending_row
      one_request-IsSound refl

serve-Untouched_example :
    Untouched "other" one_request
      (serve provider libraries
        (world_with one_request)
        (Request.approve "acme" "ar_9" (some "Bearer x") none (some "fine"))).db
serve-Untouched_example =
    serve-Untouched provider libraries (world_with one_request)
      (Request.approve "acme" "ar_9" (some "Bearer x") none (some "fine")) "other"
      one_request-IsSound refl

-- ===== src/Tests/Ports.antt =====
-- The port of app/domain/repository.py with the adapter of app/db/repository.py: its theorem at work.
use content_approval.Common.{◌≡◌, refl, none, some}
use content_approval.Domain.Service.{approval}
use content_approval.Domain.Repository.Sql.{sql_repository-Honours}
use content_approval.Db.Repository.{transition, get, scalar_one_or_none, entity_of}
use content_approval.Db.Session.{answer, ok, world_of}
use content_approval.Domain.Enums.{ApprovalStatus}
use content_approval.Domain.Entities.{ApprovalRequest}
use content_approval.Tests.Data.{world_with, one_request, one_request-IsSound, pending_row}

abbrev found : ApprovalRequest
found = entity_of (world_with one_request) pending_row

undecided : answer (get "acme" "ar_9" (world_with one_request)) ≡ ok (some found)
unfolding get scalar_one_or_none
undecided = refl

-- The pending request is decided, as the docstring of the port promises.
is_decided :
    (r : ApprovalRequest) × (answer
        (transition "acme" "ar_9" (approval "bob" none) (world_with one_request))
      ≡ ok r)
    × (r.status ≡ ApprovalStatus.approved)
    × (answer (
          get "acme" "ar_9"
            (world_of (transition "acme" "ar_9" (approval "bob" none) (world_with one_request))))
        ≡ ok (some r))
is_decided =
    sql_repository-Honours.decides "acme" "ar_9" (approval "bob" none) (world_with one_request)
      found one_request-IsSound.request_ids undecided refl

-- ===== src/Tests/Retries.antt =====
-- A creation that is sent twice to the application of app/main.py: the theorem of App/Retried at work.
use content_approval.Common.{◌≡◌, refl, ap, ◌∙◌, String, Option, none, some, []}
use content_approval.Domain.Service.{create_request}
use content_approval.Domain.Service.Create.{created_row, after_creation}
use content_approval.Domain.Service.Committed.{create-commits}
use content_approval.Db.Models.{Db, empty_db}
use content_approval.Db.Integrity.{empty-IsSound}
use content_approval.Db.Repository.Rows.{to_entity}
use content_approval.Db.Session.{ok, err, effect}
use content_approval.Db.Session.Atomic.{get_db-map, map_result}
use content_approval.Db.Session.Transaction.{get_db}
use content_approval.Api.Schemas.{out_of}
use content_approval.Api.Schemas.Validation.{ApprovalRequestCreate, validate_create}
use content_approval.Api.Idempotency.{Reply, used_with_another_body}
use content_approval.Api.Routes.{Request, create_handler, draft_of, dump_create}
use content_approval.App.{Process, Response, application, route, replied}
use content_approval.App.Decided.{respond}
use content_approval.App.Retried.{creation, application-retried}
use content_approval.App.Retried.Conflict.{application-conflict}
use content_approval.Tests.Applications.{lower}
use content_approval.Tests.Data.{provider, libraries, ann, world_with, creation_body}

abbrev kept_body : ApprovalRequestCreate
kept_body = record creation_body { title = "Launch post" }

validated : validate_create creation_body ≡ some kept_body
unfolding validate_create
validated = refl

abbrev request : Request
request = Request.create "acme" (some "Bearer x") (some "key-1") creation_body

abbrev empty : Process
empty = record { world = world_with empty_db; request_id = none; written = [] }

abbrev reply : Reply
reply = (
  out_of (
      to_entity (created_row (draft_of "acme" "ann" kept_body) empty.world)
        kept_body.reviewer_user_ids),
  201,
)

abbrev created_db : Db
created_db = after_creation (draft_of "acme" "ann" kept_body) empty.world

succeeds :
    effect (get_db (create_handler provider libraries "acme" "ann" kept_body) empty.world)
    ≡ (ok reply, created_db)
unfolding create_handler
succeeds =
    get_db-map (λ found. (out_of found, 201)) (create_request (draft_of "acme" "ann" kept_body))
      empty.world
    ∙ ap (λ x. (map_result (λ found. (out_of found, 201)) x.0, x.1))
        (create-commits (draft_of "acme" "ann" kept_body) empty.world empty-IsSound refl refl refl
          refl)

-- The application with the request, by its X-Request-Id.
abbrev send : Option String → Process → Response × Process
send header p = application lower "POST" "/" header "uuid-1" (route provider libraries request) p

application-retried_example :
    ((send none empty).0 ≡ respond lower none "uuid-1" (ok (replied reply)))
    × ((send (some "req-2") (send none empty).1).0
        ≡ respond lower (some "req-2") "uuid-1" (ok (replied reply)))
    × ((send (some "req-2") (send none empty).1).1.world.db ≡ (send none empty).1.world.db)
application-retried_example =
    application-retried provider libraries "acme" "key-1" (some "Bearer x") ann lower "POST" "/"
      request "create" (dump_create kept_body)
      (create_handler provider libraries "acme" "ann" kept_body)
      (creation creation_body kept_body validated)
      (record { authenticated = refl; own = refl; held = refl }) refl none (some "req-2") "uuid-1"
      "uuid-1" empty (send none empty).1 reply created_db empty-IsSound refl succeeds refl

-- The key comes again with another title.
abbrev other_body : ApprovalRequestCreate
other_body = record creation_body { title = "Recall post" }

validated_other : validate_create other_body ≡ some other_body
unfolding validate_create
validated_other = refl

abbrev other_request : Request
other_request = Request.create "acme" (some "Bearer x") (some "key-1") other_body

abbrev send_other : Process → Response × Process
send_other p = application lower "POST" "/" none "uuid-2" (route provider libraries other_request) p

application-conflict_example :
    ((send_other (send none empty).1).0 ≡ respond lower none "uuid-2" (err used_with_another_body))
    × ((send_other (send none empty).1).1.world.db ≡ (send none empty).1.world.db)
application-conflict_example =
    application-conflict provider libraries "acme" "key-1" (some "Bearer x") ann lower "POST" "/"
      request other_request "create" (dump_create kept_body) (dump_create other_body)
      (create_handler provider libraries "acme" "ann" kept_body)
      (create_handler provider libraries "acme" "ann" other_body)
      (creation creation_body kept_body validated) (creation other_body other_body validated_other)
      (record { authenticated = refl; own = refl; held = refl })
      (record { authenticated = refl; own = refl; held = refl }) refl none none "uuid-1" "uuid-2"
      empty (send none empty).1 reply created_db empty-IsSound refl succeeds refl refl

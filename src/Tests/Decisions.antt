-- ===== src/Tests/Decisions.antt =====
-- Creations and decisions of app/domain/service.py: the theorems of Domain/Service at work.
use content_approval.Common.{String, ◌≡◌, refl, ◌⊎◌, List, [], ◌∷◌}
use mathlib.Core.List.{Permᴰ}
use content_approval.Domain.Exceptions.{domain, not_authorized_for_decision, integrity_error}
use content_approval.Domain.Service.{Draft, record_creation, get_request, create_request}
use content_approval.Domain.Service.Create.{create-cases, created_row, after_creation, IsNewId}
use content_approval.Domain.Service.Secrecy.{told}
use content_approval.Domain.Changes.{reject}
use content_approval.Domain.Interleaved.{perform}
use content_approval.Domain.Interleaved.AtOnce.{rejected, perform-verdict, perform-told}
use content_approval.Db.Models.{empty_db}
use content_approval.Db.Integrity.{empty-IsSound}
use content_approval.Db.Repository.{create}
use content_approval.Domain.Service.Committed.{create-commits}
use content_approval.Domain.Service.Fetch.{get-create}
use content_approval.Domain.Entities.{ApprovalRequest}
use content_approval.Db.Repository.Rows.{to_entity}
use content_approval.Db.Repository.Lookup.{find_request}
use content_approval.Db.Session.{World, world_of, effect, ok, err}
use content_approval.Db.Session.Flush.{
  flush, flush_rows, insert_request, insert_reviewers, insert_reviewer, insert_row,
}
use content_approval.Db.Session.Transaction.{get_db}
use content_approval.Tests.Data.{world_with, one_request, draft, one_request-IsSound}

-- An actor who is not among the reviewers.
perform-verdict_example :
    effect (get_db (perform "acme" "ar_9" "eve" (reject "off topic")) (world_with one_request)) ≡ (
      err (
          domain (
            not_authorized_for_decision "ar_9" "eve"
              "user is not a listed reviewer for this request")),
      one_request,
    )
unfolding find_request
perform-verdict_example =
    perform-verdict "acme" "ar_9" "eve" (world_with one_request) (reject "off topic")
      one_request-IsSound.request_ids (record { audit = refl; event = refl })

perform-told_example :
    told (
      world_of (get_db (perform "acme" "ar_9" "bob" (reject "off topic")) (world_with one_request)))
    ≡ told (world_of (get_db (perform "acme" "ar_9" "bob" (reject "")) (world_with one_request)))
perform-told_example =
    perform-told "acme" "ar_9" "bob" (world_with one_request) (reject "off topic") (reject "")
      (rejected "off topic" "") one_request-IsSound.request_ids

create-cases_example :
    ((effect (get_db (create_request draft) (world_with empty_db)) ≡ (
      ok (to_entity (created_row draft (world_with empty_db)) ("bob" ∷ [])),
      after_creation draft (world_with empty_db),
    ))
      × IsNewId draft (world_with empty_db))
    ⊎ (effect (get_db (create_request draft) (world_with empty_db))
        ≡ (err integrity_error, empty_db))
create-cases_example = create-cases draft (world_with empty_db)

abbrev reviewed : Draft
reviewed = record draft { reviewer_user_ids = "usr_z" ∷ "usr_a" ∷ [] }

abbrev after : World
after = world_with (after_creation reviewed (world_with empty_db))

abbrev created : ApprovalRequest
created = to_entity (created_row reviewed (world_with empty_db)) reviewed.reviewer_user_ids

creation : effect (get_db (create_request reviewed) (world_with empty_db)) ≡ (ok created, after.db)
unfolding get_db create_request create flush flush_rows insert_request insert_reviewers
    insert_reviewer insert_row record_creation
creation = refl

get-create_example :
    (reviewers : List String) × Permᴰ ("usr_z" ∷ "usr_a" ∷ []) reviewers
    × (effect (get_db (get_request "acme" created.id) after)
        ≡ (ok (record created { reviewer_user_ids = reviewers }), after.db))
get-create_example = get-create reviewed (world_with empty_db) after created empty-IsSound creation

create-commits_example : effect (get_db (create_request draft) (world_with one_request)) ≡ (
  ok (to_entity (created_row draft (world_with one_request)) ("bob" ∷ [])),
  after_creation draft (world_with one_request),
)
create-commits_example =
    create-commits draft (world_with one_request) one_request-IsSound refl refl refl refl

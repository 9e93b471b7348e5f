-- ===== src/Tests/Verdicts.antt =====
-- Decisions sent to the application of app/main.py: the theorem of App/Decided at work.
use content_approval.Common.{◌≡◌, refl, none, some}
use content_approval.Domain.Changes.{cancel}
use content_approval.Db.Session.Atomic.{map_result}
use content_approval.Db.Repository.Lookup.{find_request}
use content_approval.Api.Schemas.Validation.{validate_reason}
use content_approval.App.{application, route}
use content_approval.App.Decided.Shown.{shown, verdict_on}
use content_approval.App.Decided.{reason_to_cancel, request_for, respond, application-verdict}
use content_approval.App.Untold.{told_by_process, application-told}
use content_approval.Domain.Interleaved.AtOnce.{cancelled}
use content_approval.Tests.Applications.{first, lower}
use content_approval.Tests.Data.{provider, libraries, ann, one_request-IsSound, pending_row}

-- The text has blanks around it.
stripped : validate_reason " obsolete " ≡ some "obsolete"
unfolding validate_reason
stripped = refl

application-verdict_example :
    ((application lower "POST" "/cancel" none "uuid-1"
        (route provider libraries
          (request_for "acme" "ar_9" (some "Bearer x") (cancel " obsolete ")))
        first).0
      ≡ respond lower none "uuid-1" (
          map_result shown
            (verdict_on "acme" "ar_9" "ann" (cancel "obsolete") first.world (some pending_row)).0))
    × ((application lower "POST" "/cancel" none "uuid-1"
          (route provider libraries
            (request_for "acme" "ar_9" (some "Bearer x") (cancel " obsolete ")))
          first).1.world.db
        ≡ (verdict_on "acme" "ar_9" "ann" (cancel "obsolete") first.world (some pending_row)).1)
unfolding find_request
application-verdict_example =
    application-verdict provider libraries lower "POST" "/cancel" none "uuid-1" "acme" "ar_9"
      (some "Bearer x") (cancel " obsolete ") first (cancel "obsolete")
      (reason_to_cancel " obsolete " "obsolete" stripped)
      (record { who = ann; authenticated = refl; own = refl; held = refl })
      one_request-IsSound.request_ids (record { audit = refl; event = refl })

application-told_example :
    told_by_process
      (application lower "POST" "/cancel" none "uuid-1"
        (route provider libraries
          (request_for "acme" "ar_9" (some "Bearer x") (cancel " obsolete ")))
        first).1
    ≡ told_by_process
        (application lower "POST" "/cancel" none "uuid-1"
          (route provider libraries
            (request_for "acme" "ar_9" (some "Bearer x") (cancel "no budget")))
          first).1
unfolding validate_reason
application-told_example =
    application-told provider libraries lower "POST" "/cancel" none "uuid-1" "acme" "ar_9"
      (some "Bearer x") first (cancel " obsolete ") (cancel "no budget") (cancel "obsolete")
      (cancel "no budget") (reason_to_cancel " obsolete " "obsolete" stripped)
      (reason_to_cancel "no budget" "no budget" refl) (cancelled "obsolete" "no budget")
      (record { who = ann; authenticated = refl; own = refl; held = refl })
      one_request-IsSound.request_ids (record { audit = refl; event = refl })

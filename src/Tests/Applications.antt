-- ===== src/Tests/Applications.antt =====
-- Requests to the whole application of app/main.py: the theorems of App at work.
use content_approval.Common.{String, ◌≡◌, ◌⊎◌, refl, none, some, [], ◌∷◌, ◌++◌, ◌≤◌, arith}
use content_approval.Domain.Exceptions.{Failure, multiple_results_found}
use content_approval.Db.Session.{Exec, err, World}
use content_approval.Db.Session.Transaction.{get_db}
use content_approval.Api.Errors.{internal_error, problem_of}
use content_approval.Api.Routes.{Request, Query, list_approval_requests, get_approval_request}
use content_approval.Domain.Service.{get_request, get_or_raise}
use content_approval.Db.Repository.{get}
use content_approval.Auth.{authorize, get_principal, require_action, Action}
use content_approval.App.{
  Process, Response, application, route, dispatch, problem_response, stamped, unhandled, call,
  exception_handlers,
}
use content_approval.App.Correlation.{
  IsCorrelated, IsHandled, outcome, logged, request_header, application-handled,
  application-unhandled,
}
use content_approval.App.Authorized.Checks.{Allowed, Denied}
use content_approval.App.Authorized.{problem_reply, application-authorized}
use content_approval.App.Refusals.{application-Refusal}
use content_approval.Tests.Data.{
  world_with, one_request, one_request-IsSound, pending_row, provider, libraries,
}

abbrev process : World → Process
process w = record { world = w; request_id = none; written = [] }

abbrev pub first : Process
first = process (world_with one_request)

-- Two rows with one key, which no insertion makes.
abbrev broken : Process
broken =
    process (world_with (record one_request { approval_requests = pending_row ∷ pending_row ∷ [] }))

abbrev read_one : Exec Response
read_one = route provider libraries (Request.get "acme" "ar_9" (some "Bearer x"))

-- A page of no rows is asked for, which is no page.
abbrev no_page : Request
no_page = Request.list "acme" none (Query.number 0) Query.absent (some "Bearer x")

abbrev pub lower : String → String
lower s = s

read_one-IsHandled : IsHandled (outcome read_one first)
unfolding route get_approval_request get_db authorize get_principal require_action get_request
    get_or_raise get
read_one-IsHandled = tt

application-handled_example :
    IsCorrelated lower "GET" "/ar_9" none "uuid-1" read_one first
      (application lower "GET" "/ar_9" none "uuid-1" read_one first).0
      (application lower "GET" "/ar_9" none "uuid-1" read_one first).1
application-handled_example =
    application-handled lower "GET" "/ar_9" none "uuid-1" read_one first read_one-IsHandled

broken-raises : outcome read_one broken ≡ err multiple_results_found
unfolding route get_approval_request get_db authorize get_principal require_action get_request
    get_or_raise get
broken-raises = refl

application-unhandled_example :
    (((application lower "GET" "/ar_9" (some "req-1") "uuid-1" read_one broken).0
        ≡ problem_response (internal_error lower))
      × (request_header (application lower "GET" "/ar_9" (some "req-1") "uuid-1" read_one broken).0
          ≡ none)
      × ((application lower "GET" "/ar_9" (some "req-1") "uuid-1" read_one broken).1.written
          ≡ stamped (some "req-1") (logged read_one broken)
            ++ (none, unhandled "GET" "/ar_9") ∷ []))
application-unhandled_example =
    application-unhandled lower "GET" "/ar_9" (some "req-1") "uuid-1" read_one broken
      multiple_results_found broken-raises refl

no_page-status :
    400
    ≤ (application lower "GET" "/" none "uuid-1"
        (route provider libraries no_page)
        first).0.status_code
unfolding application dispatch exception_handlers call route list_approval_requests get_db authorize
    get_principal require_action problem_of
no_page-status = omega arith

application-Refusal_example :
    (application lower "GET" "/" none "uuid-1" (route provider libraries no_page) first).1.world.db
    ≡ one_request
application-Refusal_example =
    application-Refusal provider libraries lower "GET" "/" none "uuid-1" no_page first
      one_request-IsSound no_page-status

-- The principal of the header belongs to another workspace.
abbrev of_others : Request
of_others = Request.list "globex" none Query.absent Query.absent (some "Bearer x")

application-authorized_example :
    Allowed "globex" Action.read (provider.authenticate (some "Bearer x"))
    ⊎ ((e : Failure) × Denied "globex" Action.read (provider.authenticate (some "Bearer x")) e
        × ((application lower "GET" "/" none "uuid-1" (route provider libraries of_others) first).0
            ≡ problem_reply lower none "uuid-1" e)
        × ((application lower "GET" "/" none "uuid-1"
              (route provider libraries of_others)
              first).1.world.db
            ≡ one_request))
application-authorized_example =
    application-authorized provider libraries lower "GET" "/" none "uuid-1" of_others first

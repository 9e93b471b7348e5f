-- ===== src/App/Correlation.antt =====
-- The X-Request-Id of app/observability/middleware.py: what a response and the log lines of a request carry.
use content_approval.Common.{
  String, ◌≡◌, refl, ap, true, false, Option, none, some, List, [], ◌∷◌, ◌++◌,
}
use content_approval.Api.Errors.{problem_of, internal_error}
use content_approval.Observability.Formatter.{value_of, value_of-set_item}
use content_approval.Domain.Exceptions.{
  Failure, domain, http_exception, request_validation_error, integrity_error,
  multiple_results_found, validation_error, runtime_error,
}
use content_approval.Db.Session.{Exec, Result, ok, err, answer, world_of, LogRecord}
use content_approval.App.{
  App, Process, Response, dispatch, request_id_of, is_registered, problem_response, call,
  exception_handlers, application, stamped, and_header, unhandled,
}

-- The lines that the handler logs when it runs in this process.
abbrev pub logged : Exec Response → Process → List LogRecord
logged handler p = (world_of (handler (record p.world { log = [] }))).log

-- What the handler of a request answers in this process.
abbrev pub outcome : Exec Response → Process → Result Response
outcome handler p = answer (handler (record p.world { log = [] }))

abbrev pub request_header : Response → Option String
request_header response = value_of "X-Request-Id" response.headers

-- A response has the identifier in its header; an exception has no header.
abbrev pub Echoes : String → Result Response → Type 0
Echoes request_id (ok response) = request_header response ≡ some request_id
Echoes request_id (err e) = Unit

-- Whatever runs inside the middleware: a response that it passes on has in its X-Request-Id the header
-- that came, where it is not empty, else the uuid; and the context variable has afterwards, after an
-- exception too, the value from before.
pub dispatch-Echoes :
    (header : Option String) (uuid : String) (call_next : App) (p : Process)
    → Echoes (request_id_of header uuid) (dispatch header uuid call_next p).0
      × ((dispatch header uuid call_next p).1.request_id ≡ p.request_id)
unfolding dispatch
dispatch-Echoes header uuid call_next p = (echoes (call_next _).0, refl)
  where
    echoes :
        (r : Result Response)
        → Echoes (request_id_of header uuid) (and_header (request_id_of header uuid) r)
    echoes (ok response) =
        value_of-set_item "X-Request-Id" (request_id_of header uuid) response.headers
    echoes (err e) = tt

-- No exception that only the handler of `Exception` takes.
abbrev pub IsHandled : Result Response → Type 0
IsHandled (ok _) = Unit
IsHandled (err e) = is_registered e ≡ true

module _ (lower : String → String) (method path : String) (header : Option String) (uuid : String)
    (handler : Exec Response) (p : Process) where
  -- The response, the lines and the contextvar that a handled request leaves.
  abbrev pub IsCorrelated : Response → Process → Type 0
  IsCorrelated response p' =
      (request_header response ≡ some (request_id_of header uuid))
      × (p'.written ≡ p.written ++ stamped (some (request_id_of header uuid)) (logged handler p))
      × (p'.request_id ≡ p.request_id)

  handled :
      (r : Result Response)
      → outcome handler p ≡ r
      → IsHandled r
      → IsCorrelated
          (application lower method path header uuid handler p).0
          (application lower method path header uuid handler p).1
  unfolding application dispatch exception_handlers call
  handled (ok response) e fine =
      rw e
        (value_of-set_item "X-Request-Id" (request_id_of header uuid) response.headers, refl, refl)
  handled (err f) e fine =
      rw (e, fine)
        (
          value_of-set_item "X-Request-Id" (request_id_of header uuid)
              (problem_response (problem_of lower f)).headers,
          refl,
          refl,
        )

  -- Where the handler of a request returns, or raises an exception with a handler of its own, the
  -- response has the identifier in its X-Request-Id, the lines written are those that the handler
  -- logs, each with that identifier, and the context variable has the value from before.
  pub application-handled :
      IsHandled (outcome handler p)
      → IsCorrelated
          (application lower method path header uuid handler p).0
          (application lower method path header uuid handler p).1
  application-handled fine = handled (outcome handler p) refl fine

  unregistered : (e : Failure) → is_registered e ≡ false → problem_of lower e ≡ internal_error lower
  unfolding problem_of
  unregistered (domain f) missing = cc
  unregistered (http_exception code detail) missing = cc
  unregistered (request_validation_error errors) missing = cc
  unregistered integrity_error missing = refl
  unregistered multiple_results_found missing = refl
  unregistered validation_error missing = refl
  unregistered (runtime_error text) missing = refl

  -- Where the handler of a request raises an exception that has no handler of its own, the response is
  -- the problem with status 500, without an X-Request-Id; the lines of the handler have the
  -- identifier, and the line about the exception has what the context variable had outside the
  -- request.
  pub application-unhandled :
      (e : Failure)
      → outcome handler p ≡ err e
      → is_registered e ≡ false
      → ((application lower method path header uuid handler p).0
          ≡ problem_response (internal_error lower))
        × (request_header (application lower method path header uuid handler p).0 ≡ none)
        × ((application lower method path header uuid handler p).1.written
            ≡ (p.written ++ stamped (some (request_id_of header uuid)) (logged handler p))
              ++ (p.request_id, unhandled method path) ∷ [])
  unfolding application dispatch exception_handlers call
  application-unhandled e raises missing =
      rw (raises, missing) (ap problem_response (unregistered e missing), refl, refl)

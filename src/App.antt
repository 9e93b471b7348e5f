-- ===== src/App.antt =====
-- app/main.py and app/observability/middleware.py: the application around the routes, with the correlation
-- identifier of app/observability/context.py, the responses of app/api/errors.py and the system endpoints.
pub mod Correlation
pub mod Refusals
pub mod Authorized
pub mod Decided
pub mod Retried
pub mod Untold
use Prim.Native.String.{◌++◌}
use content_approval.Common.{
  ℕ, String, Bool, true, false, ◌==◌, Option, none, some, List, [], ◌∷◌, map, if◌then◌else◌,
}
use content_approval.Common
use content_approval.Domain.Exceptions.{
  Failure, domain, http_exception, request_validation_error, integrity_error,
  multiple_results_found, validation_error, runtime_error,
}
use content_approval.Db.Session.{
  LogRecord, World, Exec, ◌>>=◌, pure, answer, world_of, Result, ok, err,
}
use content_approval.Auth.{AuthProvider}
use content_approval.Observability.{set_item}
use content_approval.Api.Schemas.{ApprovalRequestOut, ApprovalRequestListOut, Libraries}
use content_approval.Api.Errors.{Problem, problem_of}
use content_approval.Api.Idempotency.{Reply}
use content_approval.Api.Routes.{
  Request, create_approval_request, approve_approval_request, reject_approval_request,
  cancel_approval_request, get_approval_request, list_approval_requests,
}

-- What a response carries.
pub data Content : Type 0 where
  entity : ApprovalRequestOut → Content
  page : ApprovalRequestListOut → Content
  fault : Problem → Content
  -- {"status": …}
  system : String → Content

pub record Response : Type 0 where
  pub status_code : ℕ
  pub headers : List (String × String)
  pub content : Content

-- The process that serves a request: the contextvar `request_id`, and the lines that were written, each
-- with the value of the contextvar that its formatter read.
pub record Process : Type 0 where
  pub world : World
  pub request_id : Option String
  pub written : List (Option String × LogRecord)

abbrev pub App : Type 0
App = Process → Result Response × Process

abbrev pub json_type : List (String × String)
json_type = ("content-type", "application/json") ∷ []

-- `JSONResponse(status_code=…, content=…, media_type=_PROBLEM_MEDIA_TYPE)`
abbrev pub problem_response : Problem → Response
problem_response p = record {
  status_code = p.status;
  headers = ("content-type", "application/problem+json") ∷ [];
  content = fault p;
}

-- The formatter reads the contextvar when a line is logged.
abbrev pub stamped : Option String → List LogRecord → List (Option String × LogRecord)
stamped request_id lines = map (λ line. (request_id, line)) lines

-- A handler in the process: its lines are those that its run logs.
unfoldable pub call : Exec Response → App
call m p =
    let o = m (record p.world { log = [] }) in
    (
      answer o,
      record p {
        world = world_of o;
        written = Common.◌++◌ p.written (stamped p.request_id (world_of o).log);
      },
    )

-- The exceptions that have a handler of their own; those of every other class reach the handler of
-- `Exception`, which stands outside the middleware.
abbrev pub is_registered : Failure → Bool
is_registered (domain _) = true
is_registered (http_exception _ _) = true
is_registered (request_validation_error _) = true
is_registered integrity_error = false
is_registered multiple_results_found = false
is_registered validation_error = false
is_registered (runtime_error _) = false

-- `request.headers.get(_HEADER) or str(uuid.uuid4())`
abbrev pub request_id_of : Option String → String → String
request_id_of none uuid = uuid
request_id_of (some header) uuid = if header == "" then uuid else header

-- `request_id_var.set`, with the token that `reset` takes: the value from before.
abbrev pub set_request_id : String → Process → Option String × Process
set_request_id request_id p = (p.request_id, record p { request_id = some request_id })

abbrev pub reset_request_id : Option String → Process → Process
reset_request_id token p = record p { request_id = token }

abbrev pub with_header : String → String → Response → Response
with_header name value response = record response { headers = set_item name value response.headers }

abbrev pub and_header : String → Result Response → Result Response
and_header request_id (ok response) = ok (with_header "X-Request-Id" request_id response)
and_header request_id (err e) = err e

-- `RequestIdMiddleware.dispatch`; the reset is in a `finally`, the header follows a response only.
unfoldable pub dispatch : Option String → String → App → App
dispatch header uuid call_next p =
    let request_id = request_id_of header uuid in
    let (token, entered) = set_request_id request_id p in
    let (result, left) = call_next entered in
    (and_header request_id result, reset_request_id token left)

-- What the handler of `Exception` logs, by the method and the path of the request.
abbrev pub unhandled : String → String → LogRecord
unhandled method path = record {
  message = "Unhandled exception while processing " ++ method ++ " " ++ path;
  context = [];
}

-- `lower` is `str.lower`.
module _ (lower : String → String) where
  abbrev pub caught : Bool → Failure → Result Response
  caught true e = ok (problem_response (problem_of lower e))
  caught false e = err e

  abbrev pub or_problem : Result Response → Result Response
  or_problem (ok response) = ok response
  or_problem (err e) = caught (is_registered e) e

  -- The handlers of the registered exceptions, inside the middleware.
  unfoldable pub exception_handlers : App → App
  exception_handlers inner p = let (result, left) = inner p in (or_problem result, left)

  abbrev pub or_internal_error : String → String → Result Response × Process → Response × Process
  or_internal_error method path (ok response, p) = (response, p)
  or_internal_error method path (err e, p) = (
    problem_response (problem_of lower e),
    record p { written = Common.◌++◌ p.written ((p.request_id, unhandled method path) ∷ []) },
  )

  -- A request to the application, with its method, path and X-Request-Id, and the next uuid.
  unfoldable pub application :
      String → String → Option String → String → Exec Response → Process → Response × Process
  application method path header uuid handler p =
      or_internal_error method path (dispatch header uuid (exception_handlers (call handler)) p)

abbrev pub replied : Reply → Response
replied (response, status_code) = record {
  status_code = status_code;
  headers = json_type;
  content = entity response;
}

abbrev pub answered : Content → Response
answered content = record { status_code = 200; headers = json_type; content = content }

module _ (provider : AuthProvider) (lib : Libraries) where
  -- The route of a request, with the status code that it sets.
  unfoldable pub route : Request → Exec Response
  route (Request.create ws auth key body) = do
    reply ← create_approval_request provider lib ws auth key body
    pure (replied reply)
  route (Request.approve ws id auth key body) = do
    reply ← approve_approval_request provider lib ws id auth key body
    pure (replied reply)
  route (Request.reject ws id auth key body) = do
    reply ← reject_approval_request provider lib ws id auth key body
    pure (replied reply)
  route (Request.cancel ws id auth key body) = do
    reply ← cancel_approval_request provider lib ws id auth key body
    pure (replied reply)
  route (Request.get ws id auth) = do
    found ← get_approval_request provider lib ws id auth
    pure (answered (entity found))
  route (Request.list ws status limit offset auth) = do
    found ← list_approval_requests provider lib ws status limit offset auth
    pure (answered (page found))

-- `ping` of app/db/session.py, by how the connection and its query end, and the system endpoints.
abbrev pub ping : Result (Unit {0}) → Bool
ping (ok _) = true
ping (err _) = false

abbrev pub health : Response
health = record { status_code = 200; headers = json_type; content = system "ok" }

abbrev pub ready_or_not : Bool → Response
ready_or_not true = record { status_code = 200; headers = json_type; content = system "ok" }
ready_or_not false = record {
  status_code = 503;
  headers = json_type;
  content = system "unavailable";
}

abbrev pub ready : Result (Unit {0}) → Response
ready connection = ready_or_not (ping connection)

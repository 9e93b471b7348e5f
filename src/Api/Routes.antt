-- ===== src/Api/Routes.antt =====
-- app/api/v1/approval_requests.py: the routes, each in the one transaction of its session.
pub mod Sound
pub mod Effects
pub mod Histories
use Prim.Native.String
use Prim.Native.String.{count}
use content_approval.Common.{
  ℕ, String, Option, none, some, List, [], ◌∷◌, map, ltb, leb, if◌then◌else◌, Bool, true, false,
  ◌&&◌,
}
use content_approval.Domain.Enums.{ApprovalStatus, source_type_value}
use content_approval.Domain.Exceptions.{request_validation_error}
use content_approval.Db.Models.{Json, JsonObject, null, str, strs}
use content_approval.Db.Session.{World, Exec, ◌>>=◌, ◌>>◌, pure, raise, world_of}
use content_approval.Db.Session.Transaction.{get_db}
use content_approval.Domain.Service.{
  Draft, create_request, get_request, list_requests, approve_request, reject_request,
  cancel_request,
}
use content_approval.Auth.{Action, AuthProvider, Principal, authorize}
use content_approval.Api.Schemas.{ApprovalRequestOut, ApprovalRequestListOut, Libraries, out_of}
use content_approval.Api.Schemas.Validation.{
  ApprovalRequestCreate, within, validate_create, validate_comment, validate_reason,
}
use content_approval.Api.Idempotency.{Reply, run_idempotent}

-- `payload.model_dump(mode="json")`
abbrev pub optional_json : Option String → Json
optional_json none = null
optional_json (some s) = str s

abbrev pub dump_create : ApprovalRequestCreate → JsonObject
dump_create p =
    ("source_type", str (source_type_value p.source_type))
    ∷ ("source_id", str p.source_id)
    ∷ ("title", str p.title)
    ∷ ("description", optional_json p.description)
    ∷ ("reviewer_user_ids", strs p.reviewer_user_ids)
    ∷ []

abbrev pub dump_comment : Option String → JsonObject
dump_comment comment = ("comment", optional_json comment) ∷ []

abbrev pub dump_reason : String → JsonObject
dump_reason reason = ("reason", str reason) ∷ []

-- The header `Idempotency-Key`, where it is required and where it is not.
abbrev pub required_key : Option String → Option String
required_key none = none
required_key (some key) = within 1 255 key

abbrev pub optional_key : Option String → Option (Option String)
optional_key none = some none
optional_key (some key) = if leb 1 (count key) && leb (count key) 255 then some (some key) else none

abbrev pub draft_of : String → String → ApprovalRequestCreate → Draft
draft_of workspace_id user_id p = record {
  workspace_id = workspace_id;
  created_by_user_id = user_id;
  source_type = p.source_type;
  source_id = p.source_id;
  title = p.title;
  description = p.description;
  reviewer_user_ids = p.reviewer_user_ids;
}

-- A whole number in the query of a URL.
pub data Query : Type 0 where
  absent negative malformed : Query
  number : ℕ → Query

abbrev both : Option ℕ → Option ℕ → Option (ℕ × ℕ)
both (some a) (some b) = some (a, b)
both _ _ = none

-- One request to the service, by its route, with its headers and its parsed body.
pub data Request : Type 0 where
  create : String → Option String → Option String → ApprovalRequestCreate → Request
  approve : String → String → Option String → Option String → Option String → Request
  reject cancel : String → String → Option String → Option String → String → Request
  get : String → String → Option String → Request
  list : String → Option ApprovalStatus → Query → Query → Option String → Request

module _ (provider : AuthProvider) (lib : Libraries) where
  -- A value that passed its validation, or the 422 of one that did not.
  abbrev pub or_unprocessable {ℓ} : {A : Type ℓ} → JsonObject → Option A → Exec A
  or_unprocessable body none = raise (request_validation_error (lib.report body))
  or_unprocessable body (some a) = pure a

  unfoldable pub create_handler : String → String → ApprovalRequestCreate → Exec Reply
  create_handler workspace_id user_id p = do
    request ← create_request (draft_of workspace_id user_id p)
    pure (out_of request, 201)

  unfoldable pub create_approval_request :
      String → Option String → Option String → ApprovalRequestCreate → Exec Reply
  create_approval_request workspace_id authorization key body = get_db (do
    p ← authorize provider Action.create workspace_id authorization
    idempotency_key ← or_unprocessable (dump_create body) (required_key key)
    payload ← or_unprocessable (dump_create body) (validate_create body)
    run_idempotent lib workspace_id "create" (some idempotency_key) (dump_create payload)
        (create_handler workspace_id p.user_id payload))

  unfoldable pub approve_handler : String → String → String → Option String → Exec Reply
  approve_handler workspace_id request_id user_id comment = do
    request ← approve_request workspace_id request_id user_id comment
    pure (out_of request, 200)

  unfoldable pub approve_approval_request :
      String → String → Option String → Option String → Option String → Exec Reply
  approve_approval_request workspace_id request_id authorization key body = get_db (do
    p ← authorize provider Action.decide workspace_id authorization
    idempotency_key ← or_unprocessable (dump_comment body) (optional_key key)
    comment ← or_unprocessable (dump_comment body) (validate_comment body)
    run_idempotent lib workspace_id (String.◌++◌ "approve:" request_id) idempotency_key
        (dump_comment comment) (approve_handler workspace_id request_id p.user_id comment))

  unfoldable pub reject_handler : String → String → String → String → Exec Reply
  reject_handler workspace_id request_id user_id reason = do
    request ← reject_request workspace_id request_id user_id reason
    pure (out_of request, 200)

  unfoldable pub reject_approval_request :
      String → String → Option String → Option String → String → Exec Reply
  reject_approval_request workspace_id request_id authorization key body = get_db (do
    p ← authorize provider Action.decide workspace_id authorization
    idempotency_key ← or_unprocessable (dump_reason body) (optional_key key)
    reason ← or_unprocessable (dump_reason body) (validate_reason body)
    run_idempotent lib workspace_id (String.◌++◌ "reject:" request_id) idempotency_key
        (dump_reason reason) (reject_handler workspace_id request_id p.user_id reason))

  unfoldable pub cancel_handler : String → String → String → String → Exec Reply
  cancel_handler workspace_id request_id user_id reason = do
    request ← cancel_request workspace_id request_id user_id reason
    pure (out_of request, 200)

  unfoldable pub cancel_approval_request :
      String → String → Option String → Option String → String → Exec Reply
  cancel_approval_request workspace_id request_id authorization key body = get_db (do
    p ← authorize provider Action.cancel workspace_id authorization
    idempotency_key ← or_unprocessable (dump_reason body) (optional_key key)
    reason ← or_unprocessable (dump_reason body) (validate_reason body)
    run_idempotent lib workspace_id (String.◌++◌ "cancel:" request_id) idempotency_key
        (dump_reason reason) (cancel_handler workspace_id request_id p.user_id reason))

  unfoldable pub get_approval_request : String → String → Option String → Exec ApprovalRequestOut
  get_approval_request workspace_id request_id authorization = get_db (do
    p ← authorize provider Action.read workspace_id authorization
    request ← get_request workspace_id request_id
    pure (out_of request))

  -- `Query(default=20, ge=1, le=100)`
  abbrev pub limit_of : Query → Option ℕ
  limit_of absent = some 20
  limit_of (number n) = if leb 1 n && leb n 100 then some n else none
  limit_of negative = none
  limit_of malformed = none

  -- `Query(default=0, ge=0)`
  abbrev pub offset_of : Query → Option ℕ
  offset_of absent = some 0
  offset_of (number n) = some n
  offset_of negative = none
  offset_of malformed = none

  abbrev pub page_bounds : Query → Query → Option (ℕ × ℕ)
  page_bounds limit offset = both (limit_of limit) (offset_of offset)

  unfoldable pub list_approval_requests :
      String → Option ApprovalStatus → Query → Query → Option String → Exec ApprovalRequestListOut
  list_approval_requests workspace_id status limit offset authorization = get_db (do
    p ← authorize provider Action.read workspace_id authorization
    bounds ← or_unprocessable [] (page_bounds limit offset)
    found ← list_requests workspace_id status bounds.0 bounds.1
    pure (record {
      items = map out_of found.0;
      total = found.1;
      limit = bounds.0;
      offset = bounds.1;
    }))

  -- The world that a request leaves, and that a sequence of requests leaves.
  unfoldable pub serve : World → Request → World
  serve w (Request.create ws auth key body) = world_of (create_approval_request ws auth key body w)
  serve w (Request.approve ws id auth key body) =
      world_of (approve_approval_request ws id auth key body w)
  serve w (Request.reject ws id auth key body) =
      world_of (reject_approval_request ws id auth key body w)
  serve w (Request.cancel ws id auth key body) =
      world_of (cancel_approval_request ws id auth key body w)
  serve w (Request.get ws id auth) = world_of (get_approval_request ws id auth w)
  serve w (Request.list ws status limit offset auth) =
      world_of (list_approval_requests ws status limit offset auth w)

  unfoldable pub serve_all : World → List Request → World
  unfolding serve
  serve_all w [] = w
  serve_all w (r ∷ rs) = serve_all (serve w r) rs

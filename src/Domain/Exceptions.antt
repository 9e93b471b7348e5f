-- ===== src/Domain/Exceptions.antt =====
-- app/domain/exceptions.py, with the other exceptions that a request can end in.
use Prim.Native.String.{◌++◌}
use content_approval.Common.{ℕ, String, Bool, Option, List}
use content_approval.Domain.Enums.{ApprovalStatus, status_value}

pub data DomainError : Type 0 where
  approval_request_not_found : String → DomainError
  invalid_transition : String → ApprovalStatus → DomainError
  -- the request, the actor and the reason
  not_authorized_for_decision : String → String → String → DomainError

-- `str(exc)`, as the constructors pass it to `super().__init__`.
abbrev pub message : DomainError → String
message (approval_request_not_found request_id) = "Approval request not found: " ++ request_id
message (invalid_transition request_id current_status) =
    "Approval request "
    ++ request_id
    ++ " is already "
    ++ status_value current_status
    ++ " and cannot be changed"
message (not_authorized_for_decision request_id actor_user_id reason) =
    reason ++ " (request " ++ request_id ++ ", user " ++ actor_user_id ++ ")"

-- A JSON value that a client sent, for a missing field the whole body.
mutual
  pub data Input : Type 0 where
    nothing : Input
    flag : Bool → Input
    number text : String → Input
    items : Inputs → Input
    object : Fields → Input

  pub data Inputs : Type 0 where
    end : Inputs
    item : Input → Inputs → Inputs

  pub data Fields : Type 0 where
    no_more : Fields
    field : String → Input → Fields → Fields

-- An item of `RequestValidationError.errors()`; `input` and `ctx` may be absent.
pub record ErrorItem : Type 0 where
  pub kind : String
  pub loc : List String
  pub msg : String
  pub input : Option Input
  pub ctx : Option String

-- What a handler can raise: the domain's exceptions, FastAPI's, and those of the database layer.
pub data Failure : Type 0 where
  domain : DomainError → Failure
  -- the status code and the detail
  http_exception : ℕ → String → Failure
  request_validation_error : List ErrorItem → Failure
  integrity_error : Failure
  multiple_results_found : Failure
  -- pydantic's `ValidationError`, outside of a request's own validation
  validation_error : Failure
  runtime_error : String → Failure

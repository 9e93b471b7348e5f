-- ===== src/Api/Errors.antt =====
-- app/api/errors.py: the problem body of each exception that a request can end in.
use content_approval.Common.{
  ℕ, String, Bool, true, false, nat_eq, Option, none, some, List, [], ◌∷◌, if◌then◌else◌,
}
use content_approval.Domain.Exceptions.{
  approval_request_not_found, invalid_transition, not_authorized_for_decision, message, Input, text,
  ErrorItem, Failure, domain, http_exception, request_validation_error, integrity_error,
  multiple_results_found, validation_error, runtime_error,
}
use content_approval.Observability.{redacted, looks_sensitive}

pub record Problem : Type 0 where
  pub type_uri : String
  pub title : String
  pub status : ℕ
  pub detail : String
  pub errors : List ErrorItem

-- `_TITLES.get(status_code, "Error")`
abbrev pub title_of : ℕ → String
title_of code =
    if nat_eq code 400
    then "Bad Request"
    else if nat_eq code 401
    then "Unauthorized"
    else if nat_eq code 403
    then "Forbidden"
    else if nat_eq code 404
    then "Not Found"
    else if nat_eq code 409
    then "Conflict"
    else if nat_eq code 422
    then "Validation Error"
    else if nat_eq code 500
    then "Internal Server Error"
    else "Error"

abbrev pub problem : ℕ → String → List ErrorItem → Problem
problem status_code detail errors = record {
  type_uri = "about:blank";
  title = title_of status_code;
  status = status_code;
  detail = detail;
  errors = errors;
}

-- `str(loc[-1]) if loc else ""`
abbrev pub last_or_empty : List String → String
last_or_empty [] = ""
last_or_empty (x ∷ []) = x
last_or_empty (x ∷ y ∷ rest) = last_or_empty (y ∷ rest)

abbrev pub redact_input : Bool → Option Input → Option Input
redact_input true (some _) = some (text redacted)
redact_input true none = none
redact_input false input = input

module _ (lower : String → String) where
  abbrev pub clean_item : ErrorItem → ErrorItem
  clean_item error = record error {
    ctx = none;
    input = redact_input (looks_sensitive lower (last_or_empty error.loc)) error.input;
  }

  unfoldable pub clean_validation_errors : List ErrorItem → List ErrorItem
  clean_validation_errors [] = []
  clean_validation_errors (error ∷ errors) = clean_item error ∷ clean_validation_errors errors

  abbrev pub internal_error : Problem
  internal_error = problem 500 "An unexpected error occurred." []

  -- The handlers that `register_exception_handlers` installs; the last one takes all other exceptions.
  unfoldable pub problem_of : Failure → Problem
  unfolding clean_validation_errors
  problem_of (http_exception status_code detail) = problem status_code detail []
  problem_of (request_validation_error errors) =
      problem 422 "The request body or parameters failed validation."
        (clean_validation_errors errors)
  problem_of (domain (approval_request_not_found request_id)) =
      problem 404 (message (approval_request_not_found request_id)) []
  problem_of (domain (not_authorized_for_decision request_id actor_user_id reason)) =
      problem 403 (message (not_authorized_for_decision request_id actor_user_id reason)) []
  problem_of (domain (invalid_transition request_id current_status)) =
      problem 409 (message (invalid_transition request_id current_status)) []
  problem_of integrity_error = internal_error
  problem_of multiple_results_found = internal_error
  problem_of validation_error = internal_error
  problem_of (runtime_error reason) = internal_error

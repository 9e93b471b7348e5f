-- ===== src/Tests/Data.antt =====
-- A workspace with one pending request, a principal who may do everything there, and libraries that
-- behave as app/schemas and app/api rely on.
use content_approval.Common.{
  ℕ, ◌≤◌, refl, Bool, ◌==◌, ◌&&◌, if◌then◌else◌, arith, ◌+◌, zero, suc, String, none, some, List,
  [], ◌∷◌,
}
use Prim.Native.String
use mathlib.Core.List.{Permᴰ}
use mathlib.Core.List.Permᴰ.{nil, swap}
use mathlib.Core.List.Permᴰ as Permᴰ
use content_approval.Domain.Enums.{SourceType, ApprovalStatus}
use content_approval.Domain.DateTime.{aware, utc}
use content_approval.Domain.Service.{Draft}
use content_approval.Db.Models.{Json, JsonObject, null, str, strs, ApprovalRequestRow, Db, empty_db}
use content_approval.Db.Session.{World, Arrangement, sqlite}
use content_approval.Auth.{Action, Principal, AuthProvider, valid}
use content_approval.Api.Schemas.{Libraries}
use content_approval.Api.Schemas.Validation.{ApprovalRequestCreate}
use content_approval.Api.Routes.{Request, Query}
use content_approval.Db.Integrity.{IsSound}
use content_approval.Tests.Codec.{written, read_back, read_back-written}

abbrev pub tokens : ℕ → String
tokens zero = "0"
tokens (suc n) = String.◌++◌ "1" (tokens n)

-- Two reviewers are answered the other way round.
abbrev pub swapped : List String → List String
swapped (a ∷ b ∷ []) = b ∷ a ∷ []
swapped xs = xs

pub swapped-Perm : (xs : List String) → Permᴰ xs (swapped xs)
swapped-Perm [] = nil
swapped-Perm (a ∷ []) = Permᴰ.refl (a ∷ [])
swapped-Perm (a ∷ b ∷ []) = swap refl refl
swapped-Perm (a ∷ b ∷ c ∷ rest) = Permᴰ.refl (a ∷ b ∷ c ∷ rest)

abbrev pub reversed_order : Arrangement
reversed_order = record { arrange = swapped; permutes = swapped-Perm }

abbrev pub world_with : Db → World
world_with db = record {
  db = db;
  new = [];
  tokens = tokens;
  clock = λ n. 5 + n;
  dialect = sqlite;
  reviewers_order = reversed_order;
  log = [];
}

abbrev pub pending_row : ApprovalRequestRow
pending_row = record {
  id = "ar_9";
  workspace_id = "acme";
  source_type = SourceType.edit;
  source_id = "post-1";
  title = "Launch post";
  description = none;
  status = ApprovalStatus.pending;
  created_by_user_id = "ann";
  created_at = aware 1 utc;
  updated_at = aware 1 utc;
  decided_by_user_id = none;
  decided_at = none;
  decision_comment = none;
  decision_reason = none;
}

abbrev pub rejected_row : ApprovalRequestRow
rejected_row = record pending_row {
  id = "ar_8";
  status = ApprovalStatus.rejected;
  created_at = aware 2 utc;
  decided_by_user_id = some "bob";
  decided_at = some (aware 3 utc);
  decision_reason = some "off topic";
}

abbrev pub one_request : Db
one_request = record empty_db {
  approval_requests = pending_row ∷ [];
  approval_request_reviewers =
      record { workspace_id = "acme"; approval_request_id = "ar_9"; reviewer_user_id = "bob" } ∷ [];
}

abbrev pub draft : Draft
draft = record {
  workspace_id = "acme";
  created_by_user_id = "ann";
  source_type = SourceType.edit;
  source_id = "post-1";
  title = "Launch post";
  description = none;
  reviewer_user_ids = "bob" ∷ [];
}

abbrev pub ann : Principal
ann = record {
  workspace_id = "acme";
  user_id = "ann";
  actions = Action.read ∷ Action.create ∷ Action.decide ∷ Action.cancel ∷ [];
}

abbrev pub provider : AuthProvider
provider = record { authenticate = λ header. valid ann }

abbrev pub json_text : Json → String
json_text null = "null"
json_text (str s) = s
json_text (strs xs) = joined xs
  where
    joined : List String → String
    joined [] = "."
    joined (x ∷ xs) = String.◌++◌ x (String.◌++◌ "," (joined xs))

abbrev pub dumped : JsonObject → String
dumped [] = "}"
dumped ((k, v) ∷ rest) = String.◌++◌ k (String.◌++◌ ":" (String.◌++◌ (json_text v) (dumped rest)))

abbrev pub libraries : Libraries
libraries = record {
  dumps = dumped;
  sha256_hexdigest = λ s. s;
  model_dump = written;
  model_validate = read_back;
  report = λ body. [];
  validate-dump = read_back-written;
}

abbrev pub creation_body : ApprovalRequestCreate
creation_body = record {
  source_type = SourceType.edit;
  source_id = "post-1";
  title = " Launch post ";
  description = none;
  reviewer_user_ids = "bob" ∷ [];
}

abbrev pub requests : List Request
requests =
    Request.create "acme" (some "Bearer x") (some "key-1") creation_body
    ∷ Request.approve "acme" "ar_0" (some "Bearer x") none (some "fine")
    ∷ Request.cancel "acme" "ar_0" (some "Bearer x") none "no longer needed"
    ∷ Request.get "acme" "ar_0" (some "Bearer x")
    ∷ Request.list "acme" none (Query.number 50) Query.absent (some "Bearer x")
    ∷ []

at_most_one : (b : Bool) → (if b then 1 else 0) + 0 ≤ 1
at_most_one b = ground arith

pub one_request-IsSound : IsSound one_request
one_request-IsSound = record {
  request_ids = λ id. at_most_one ("ar_9" == id);
  reviewer_keys = λ ws id user. at_most_one ("acme" == ws && "ar_9" == id && "bob" == user);
  audit_ids = λ id. omega arith;
  event_ids = λ id. omega arith;
  idempotency_keys = λ ws route key. omega arith;
  reviewers_owned = (refl, tt);
  audit_owned = tt;
  events_owned = tt;
}

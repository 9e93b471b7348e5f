-- ===== src/Tests/Edges.antt =====
-- The checks at the edges of a request, app/auth, app/schemas and app/observability: their theorems at
-- work.
use content_approval.Common.{◌≡◌, refl, true, ◌↔◌, none, some, [], ◌∷◌}
use content_approval.Domain.Enums.{AuditAction, OutboxEventType}
use content_approval.Domain.Service.{approval}
use content_approval.Db.Models.{empty_db}
use content_approval.Domain.Service.Decide.{decision_log}
use content_approval.Api.Schemas.Validation.{ApprovalRequestCreate, validate_create}
use content_approval.Api.Schemas.Laws.{IsValid}
use content_approval.Api.Schemas.Accepted.{validate_create_iff}
use content_approval.Observability.{Line, format}
use content_approval.Observability.Formatter.{value_of, decision-request_id}
use content_approval.Db.Session.{answer, ok}
use content_approval.Auth.{Action, valid, authorize}
use content_approval.Auth.Laws.{authorize_iff}
use content_approval.Observability.Laws.{format-shown}
use content_approval.Tests.Data.{world_with, provider, ann, creation_body}

authorize_iff_example :
    (answer (authorize provider Action.decide "acme" (some "Bearer x") (world_with empty_db))
      ≡ ok ann)
    ↔ ((valid ann ≡ valid ann) × (ann.workspace_id ≡ "acme") × (true ≡ true))
authorize_iff_example =
    authorize_iff provider Action.decide "acme" (some "Bearer x") ann (world_with empty_db)

abbrev accepted_body : ApprovalRequestCreate
accepted_body = record creation_body { title = "Launch post" }

validate_create_iff_example :
    (validate_create creation_body ≡ some accepted_body) ↔ IsValid creation_body accepted_body
validate_create_iff_example = validate_create_iff creation_body accepted_body

abbrev line : Line
line = record {
  timestamp = "2026-01-01T00:00:00+0000";
  level = "INFO";
  logger = "app.domain.service";
  message = "approval request approved";
  context = [];
  exc_info = none;
}

decision-request_id_example :
    value_of "request_id" (
      format
        (λ s. s)
        (some "req-77")
        (record line {
          context =
              (decision_log "acme" "ar_9"
                (approval "bob" none)
                AuditAction.approved
                OutboxEventType.approval_request_approved).context;
        }))
    ≡ some "ar_9"
decision-request_id_example =
    decision-request_id (λ s. s) (some "req-77") line "acme" "ar_9" (approval "bob" none)
      AuditAction.approved OutboxEventType.approval_request_approved refl

abbrev secretive : Line
secretive = record line { context = ("reason", "none") ∷ ("client_api_key", "k") ∷ [] }

format-shown_example :
    value_of "client_api_key" (format (λ s. s) (some "req-77") secretive) ≡ some "[REDACTED]"
format-shown_example =
    format-shown (λ s. s) (some "req-77") secretive "client_api_key" "k" (refl, (refl, tt)) refl
      refl

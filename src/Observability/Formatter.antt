-- ===== src/Observability/Formatter.antt =====
-- What `JSONFormatter.format` of app/observability/logging.py makes of the lines that the service logs.
use content_approval.Common.{
  String, ◌≡◌, ◌==◌, eq_refl, Bool-cases, Option, none, some, List, [], ◌∷◌, if◌then◌else◌,
  Option-cases, inl, inr,
}
use content_approval.Db.Repository.{Decision}
use content_approval.Domain.Enums.{AuditAction, OutboxEventType}
use content_approval.Domain.Service.Decide.{decision_log}
use content_approval.Observability.{Line, looks_sensitive, redact_mapping, set_item, update, format}

-- `payload[key]`
abbrev pub value_of : String → List (String × String) → Option String
value_of key [] = none
value_of key ((k, v) ∷ rest) = let later = value_of key rest in if k == key then some v else later

pub value_of-set_item :
    (k v : String) (xs : List (String × String)) → value_of k (set_item k v xs) ≡ some v
unfolding set_item
value_of-set_item k v [] = rw (eq_refl k)
value_of-set_item k v ((j, w) ∷ rest) = elim (Bool-cases (j == k)) [
  | inl same ↦ rw (same, same)
  | inr other ↦ rw (other, other) (value_of-set_item k v rest)
]

-- Where `str.lower` leaves the text "request_id" alone, the line of a decision has under "request_id"
-- the identifier of the approval request, whatever the correlation identifier of the HTTP request is.
pub decision-request_id :
    (lower : String → String) (correlation : Option String) (line : Line) (workspace_id id : String)
    (d : Decision) (action : AuditAction) (event : OutboxEventType)
    → lower "request_id" ≡ "request_id"
    → value_of "request_id" (
        format lower correlation
          (record line { context = (decision_log workspace_id id d action event).context }))
      ≡ some id
unfolding format update set_item redact_mapping looks_sensitive
decision-request_id lower none line workspace_id id d action event same =
    elim (Option-cases line.exc_info) [
      | inl quiet ↦ rw (same, quiet)
      | inr (trace, raised) ↦ rw (same, raised)
    ]
decision-request_id lower (some c) line workspace_id id d action event same =
    elim (Option-cases line.exc_info) [
      | inl quiet ↦ rw (same, quiet)
      | inr (trace, raised) ↦ rw (same, raised)
    ]

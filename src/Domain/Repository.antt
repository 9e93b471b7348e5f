-- ===== src/Domain/Repository.antt =====
-- app/domain/repository.py: the persistence port that the service calls, with what it asks of an adapter.
pub mod Sql
use content_approval.Common.{ℕ, String, ◌≡◌, Bool, true, false, Option, none, some, List}
use content_approval.Domain.Enums.{ApprovalStatus, AuditAction, status_eq}
use content_approval.Domain.Entities.{ApprovalRequest}
use content_approval.Domain.Exceptions.{domain, approval_request_not_found, invalid_transition}
use content_approval.Db.Models.{JsonObject}
use content_approval.Db.Session.{World, Exec, answer, ok, err, world_of}
use content_approval.Db.Repository.{NewRequest, Decision}

-- The operations, with their keyword arguments in the order of the port.
pub record ApprovalRequestRepository : Type 0 where
  pub create : NewRequest → Exec ApprovalRequest
  pub get : String → String → Exec (Option ApprovalRequest)
  pub transition : String → String → Decision → Exec ApprovalRequest
  pub list : String → Option ApprovalStatus → ℕ → ℕ → Exec (List ApprovalRequest × ℕ)
  pub record_audit_entry :
      String → String → String → AuditAction → Option JsonObject → Exec (Unit {0})
  pub record_outbox_event : String → String → String → JsonObject → Exec (Unit {0})

abbrev pub is_undecided : ApprovalRequest → Bool
is_undecided r = status_eq r.status ApprovalStatus.pending

-- What the docstring of `transition` promises, in the words of the port alone: by what `get` returns, in the
-- worlds that the adapter keeps.
pub record Honours (repository : ApprovalRequestRepository) (Holds : World → Type 0) : Type 0 where
  pub keeps :
      (ws id : String) (d : Decision) (w : World)
      → Holds w
      → Holds (world_of (repository.transition ws id d w))
  pub reads :
      (ws id : String) (w : World)
      → Holds w
      → (o : Option ApprovalRequest) × (answer (repository.get ws id w) ≡ ok o)
  pub not_found :
      (ws id : String) (d : Decision) (w : World)
      → Holds w
      → answer (repository.get ws id w) ≡ ok none
      → answer (repository.transition ws id d w) ≡ err (domain (approval_request_not_found id))
  pub is_final :
      (ws id : String) (d : Decision) (w : World) (r : ApprovalRequest)
      → Holds w
      → answer (repository.get ws id w) ≡ ok (some r)
      → is_undecided r ≡ false
      → answer (repository.transition ws id d w) ≡ err (domain (invalid_transition id r.status))
  -- the request is returned with the new status, and read so afterwards
  pub decides :
      (ws id : String) (d : Decision) (w : World) (r : ApprovalRequest)
      → Holds w
      → answer (repository.get ws id w) ≡ ok (some r)
      → is_undecided r ≡ true
      → (r' : ApprovalRequest) × (answer (repository.transition ws id d w) ≡ ok r')
        × (r'.status ≡ d.new_status)
        × (answer (repository.get ws id (world_of (repository.transition ws id d w)))
            ≡ ok (some r'))

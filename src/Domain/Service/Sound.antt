-- ===== src/Domain/Service/Sound.antt =====
-- The operations of app/domain/service.py and the constraints of the tables.
use content_approval.Common.{filter, count, nat_eq, ℕ, String, Option, none, some, List, [], ◌∷◌}
use content_approval.Domain.Enums.{ApprovalStatus, AuditAction, OutboxEventType}
use content_approval.Domain.Entities.{ApprovalRequest}
use content_approval.Db.Session.{utcnow, modify_db}
use content_approval.Db.Repository.Rows.{to_entity}
use content_approval.Db.Session.Flush.{is_request, flush, execute, insert_request, insert_reviewers}
use content_approval.Db.Session.Keeps.{
  Keeps, Keeps-bind, Keeps-returned, Keeps-raised, Keeps-gets, Keeps-if, Keeps-execute,
  Keeps-insert_reviewers, Keeps-flush,
}
use content_approval.Db.Integrity.{IsSound}
use content_approval.Db.Integrity.Inserts.{
  insert_request-Accepts, insert_reviewer-Accepts, insert_row-Accepts,
}
use content_approval.Db.Integrity.Updates.{update-IsSound}
use content_approval.Db.Repository.{
  generate_id, create, scalar_one_or_none, get, entity_or_none, or_vanished, refuse, after_update,
  transition, list, update_requests, is_open, decided, Decision, NewRequest, new_row, new_reviewers,
}
use content_approval.Domain.Service.{
  Draft, create_request, new_request, record_creation, or_not_found, get_or_raise, list_requests,
  require_reviewer, require_creator, record_decision, decide, approve_request, reject_request,
  cancel_request,
}

pub flush-IsSound : Keeps IsSound flush
flush-IsSound = Keeps-flush insert_row-Accepts

scalar_one_or_none-IsSound {ℓ} :
    {A : Type ℓ} (rows : List A) → Keeps IsSound (scalar_one_or_none rows)
unfolding scalar_one_or_none
scalar_one_or_none-IsSound [] = Keeps-returned none
scalar_one_or_none-IsSound (row ∷ []) = Keeps-returned (some row)
scalar_one_or_none-IsSound (_ ∷ _ ∷ _) = Keeps-raised _

get-IsSound : (workspace_id request_id : String) → Keeps IsSound (get workspace_id request_id)
unfolding get
get-IsSound workspace_id request_id =
    Keeps-bind _ _
      (Keeps-gets (λ w. filter (is_request workspace_id request_id) w.db.approval_requests))
      (λ rows.
        Keeps-bind (scalar_one_or_none rows) _ (scalar_one_or_none-IsSound rows)
          (λ found. Keeps-gets (λ w. entity_or_none w found)))

or_vanished-IsSound : (id : String) (o : Option ApprovalRequest) → Keeps IsSound (or_vanished id o)
or_vanished-IsSound id none = Keeps-raised _
or_vanished-IsSound id (some entity) = Keeps-returned entity

refuse-IsSound : (id : String) (o : Option ApprovalRequest) → Keeps IsSound (refuse id o)
refuse-IsSound id none = Keeps-raised _
refuse-IsSound id (some current) = Keeps-raised _

or_not_found-IsSound :
    (id : String) (o : Option ApprovalRequest) → Keeps IsSound (or_not_found id o)
or_not_found-IsSound id none = Keeps-raised _
or_not_found-IsSound id (some request) = Keeps-returned request

transition-IsSound :
    (workspace_id request_id : String) (d : Decision)
    → Keeps IsSound (transition workspace_id request_id d)
unfolding transition after_update
transition-IsSound workspace_id request_id d =
    Keeps-bind utcnow _ (record { run = λ w h. h })
      (λ now.
        Keeps-bind _ _
          (Keeps-gets (λ w. count (is_open workspace_id request_id) w.db.approval_requests))
          (λ rowcount.
            Keeps-bind
              (modify_db (update_requests (is_open workspace_id request_id) (decided d now))) _
              (record { run = λ w h. update-IsSound w.db h _ d now })
              (λ _.
                Keeps-if (nat_eq rowcount 1) _ _
                  (Keeps-bind _ _ (get-IsSound workspace_id request_id)
                    (or_vanished-IsSound request_id))
                  (Keeps-bind _ _ (get-IsSound workspace_id request_id)
                    (refuse-IsSound request_id)))))

create-IsSound : (n : NewRequest) → Keeps IsSound (create n)
unfolding create
create-IsSound n = Keeps-bind flush _ flush-IsSound (λ _.
    Keeps-bind utcnow _ (record { run = λ w h. h })
      (λ t.
        Keeps-bind utcnow _ (record { run = λ w h. h })
          (λ u.
            Keeps-bind (execute (insert_request (new_row n t u))) _
              (Keeps-execute _ (insert_request-Accepts (new_row n t u)))
              (λ _.
                Keeps-bind (insert_reviewers (new_reviewers n)) _
                  (Keeps-insert_reviewers (new_reviewers n) insert_reviewer-Accepts)
                  (λ _. Keeps-returned (to_entity (new_row n t u) n.reviewer_user_ids))))))

record_decision-IsSound :
    (workspace_id request_id : String) (d : Decision) (action : AuditAction)
    (event : OutboxEventType) (updated : ApprovalRequest)
    → Keeps IsSound (record_decision workspace_id request_id d action event updated)
unfolding record_decision
record_decision-IsSound workspace_id request_id d action event updated = record { run = λ w h. h }

module _ (workspace_id request_id : String) where
  pub get_or_raise-IsSound : Keeps IsSound (get_or_raise workspace_id request_id)
  unfolding get_or_raise
  get_or_raise-IsSound =
      Keeps-bind _ _ (get-IsSound workspace_id request_id) (or_not_found-IsSound request_id)

  pub decide-IsSound :
      (d : Decision) (action : AuditAction) (event : OutboxEventType)
      → Keeps IsSound (decide workspace_id request_id d action event)
  unfolding decide
  decide-IsSound d action event =
      Keeps-bind _ _ (transition-IsSound workspace_id request_id d)
        (record_decision-IsSound workspace_id request_id d action event)

  pub approve-IsSound :
      (actor : String) (comment : Option String)
      → Keeps IsSound (approve_request workspace_id request_id actor comment)
  unfolding approve_request require_reviewer
  approve-IsSound actor comment = Keeps-bind _ _ get_or_raise-IsSound (λ request.
      Keeps-bind _ _ (Keeps-if _ _ _ (Keeps-raised _) (Keeps-returned tt))
        (λ _. decide-IsSound _ _ _))

  pub reject-IsSound :
      (actor reason : String) → Keeps IsSound (reject_request workspace_id request_id actor reason)
  unfolding reject_request require_reviewer
  reject-IsSound actor reason = Keeps-bind _ _ get_or_raise-IsSound (λ request.
      Keeps-bind _ _ (Keeps-if _ _ _ (Keeps-raised _) (Keeps-returned tt))
        (λ _. decide-IsSound _ _ _))

  pub cancel-IsSound :
      (actor reason : String) → Keeps IsSound (cancel_request workspace_id request_id actor reason)
  unfolding cancel_request require_creator
  cancel-IsSound actor reason = Keeps-bind _ _ get_or_raise-IsSound (λ request.
      Keeps-bind _ _ (Keeps-if _ _ _ (Keeps-raised _) (Keeps-returned tt))
        (λ _. decide-IsSound _ _ _))

pub list-IsSound :
    (workspace_id : String) (status : Option ApprovalStatus) (limit offset : ℕ)
    → Keeps IsSound (list_requests workspace_id status limit offset)
unfolding list_requests list
list-IsSound workspace_id status limit offset = record { run = λ w h. h }

record_creation-IsSound :
    (request_id : String) (d : Draft) (request : ApprovalRequest)
    → Keeps IsSound (record_creation request_id d request)
unfolding record_creation
record_creation-IsSound request_id d request = record { run = λ w h. h }

pub create_request-IsSound : (d : Draft) → Keeps IsSound (create_request d)
unfolding create_request
create_request-IsSound d =
    Keeps-bind (generate_id "ar") _ (record { run = λ w h. h })
      (λ id.
        Keeps-bind (create (new_request id d)) _ (create-IsSound (new_request id d))
          (record_creation-IsSound id d))

-- ===== src/Domain/Repository/Sql.antt =====
-- The adapter of app/db/repository.py behind the port of app/domain/repository.py.
use content_approval.Common.{
  String, ◌≡◌, refl, sym, ap, ◌∙◌, subst, true, false, Bool-cases, inl, inr, Option, none, some,
}
use content_approval.Domain.Entities.{ApprovalRequest}
use content_approval.Domain.Exceptions.{domain, approval_request_not_found, invalid_transition}
use content_approval.Db.Models.{ApprovalRequestRow}
use content_approval.Db.Session.{World, answer, ok, err, world_of}
use content_approval.Db.Repository.{
  entity_of, entity_or_none, decided, create, get, transition, list, record_audit_entry,
  record_outbox_event, Decision,
}
use content_approval.Db.Repository.Lookup.{HasUniqueIds, find_request, get_lem}
use content_approval.Db.Repository.Transition.{
  transition_lem, update-HasUniqueIds, find_request-update, next_now, transition_outcome,
  after_transition, is_pending,
}
use content_approval.Domain.Repository.{ApprovalRequestRepository, Honours, is_undecided}

-- `SqlApprovalRequestRepository(session)`, as `get_approval_service` of app/api/deps.py hands it to the service.
abbrev pub sql_repository : ApprovalRequestRepository
sql_repository = record {
  create = create;
  get = get;
  transition = transition;
  list = list;
  record_audit_entry = record_audit_entry;
  record_outbox_event = record_outbox_event;
}

-- The adapter needs the keys of the rows to be unique.
abbrev pub Holds : World → Type 0
Holds w = HasUniqueIds w.db

-- What `get` returned tells of the row that is found.
no_row : (w : World) (o : Option ApprovalRequestRow) → ok (entity_or_none w o) ≡ ok none → o ≡ none
no_row w none h = refl
no_row w (some row) h = cc

read_same : (a b : ApprovalRequest) → ok (some a) ≡ ok (some b) → a ≡ b
read_same a b h = cc

a_row :
    (w : World) (o : Option ApprovalRequestRow) (r : ApprovalRequest)
    → ok (entity_or_none w o) ≡ ok (some r)
    → (row : ApprovalRequestRow) × (o ≡ some row) × (entity_of w row ≡ r)
a_row w none r h = cc
a_row w (some row) r h = (row, refl, read_same _ r h)

module _ (ws id : String) (d : Decision) (w : World) (unique : Holds w) where
  got : answer (get ws id w) ≡ ok (entity_or_none w (find_request ws id w.db))
  got = ap answer (get_lem ws id w unique)

  moved :
      (o : Option ApprovalRequestRow)
      → find_request ws id w.db ≡ o
      → transition ws id d w ≡ transition_outcome ws id d w o
  moved o found = transition_lem ws id d w unique ∙ ap (transition_outcome ws id d w) found

  keeps_keys : (o : Option ApprovalRequestRow) → Holds (world_of (transition_outcome ws id d w o))
  keeps_keys none = update-HasUniqueIds ws id d (next_now w) w.db unique
  keeps_keys (some row) = elim (Bool-cases (is_pending row)) [
    | inl undecided ↦ rw undecided (update-HasUniqueIds ws id d (next_now w) w.db unique)
    | inr final ↦ rw final (update-HasUniqueIds ws id d (next_now w) w.db unique)
  ]

  missing :
      answer (get ws id w) ≡ ok none
      → answer (transition ws id d w) ≡ err (domain (approval_request_not_found id))
  missing h = ap answer (moved none (no_row w _ (sym got ∙ h)))

  final_stays :
      (r : ApprovalRequest)
      → answer (get ws id w) ≡ ok (some r)
      → is_undecided r ≡ false
      → answer (transition ws id d w) ≡ err (domain (invalid_transition id r.status))
  final_stays r h final =
      let (row, found, same) = a_row w _ r (sym got ∙ h) in
      let decided_row : is_pending row ≡ false = ap is_undecided same ∙ final in
      rw (moved (some row) found, decided_row)
        (ap (λ x. err (domain (invalid_transition id x.status))) same)

  is_decided :
      (r : ApprovalRequest)
      → answer (get ws id w) ≡ ok (some r)
      → is_undecided r ≡ true
      → (r' : ApprovalRequest) × (answer (transition ws id d w) ≡ ok r')
        × (r'.status ≡ d.new_status)
        × (answer (get ws id (world_of (transition ws id d w))) ≡ ok (some r'))
  is_decided r h undecided =
      let (row, found, same) = a_row w _ r (sym got ∙ h) in
      let open_row : is_pending row ≡ true = ap is_undecided same ∙ undecided in
      let after = after_transition ws id d w in
      (
        entity_of after (decided d (next_now w) row),
        rw (moved (some row) found, open_row) refl,
        refl,
        rw
            (
              moved (some row) found,
              open_row,
              get_lem ws id after (update-HasUniqueIds ws id d (next_now w) w.db unique),
              find_request-update ws id d (next_now w) w.db,
              found,
              open_row,
            )
            refl,
      )

-- Where the keys of the rows are unique, the SQL adapter does what the port asks of `transition`, in
-- the words of its own `get`: a request that is not there is not found, a final one is refused with
-- its status, and a pending one is returned with the new status and read so afterwards; the keys stay
-- unique.
pub sql_repository-Honours : Honours sql_repository Holds
sql_repository-Honours = record {
  keeps = λ ws id d w unique.
      subst (λ o. Holds (world_of o)) (sym (transition_lem ws id d w unique))
        (keeps_keys ws id d w unique (find_request ws id w.db));
  reads = λ ws id w unique. (_, ap answer (get_lem ws id w unique));
  not_found = missing;
  is_final = λ ws id d w r unique. final_stays ws id d w unique r;
  decides = λ ws id d w r unique. is_decided ws id d w unique r;
}

-- ===== src/Schema/Enforced.antt =====
-- The insertions of a flush beside the declared tables: the guards of Db/Session/Flush and the constraints.
use content_approval.Common.{
  String, ◌≡◌, refl, Bool, true, false, not, ◌&&◌, ◌||◌, ◌==◌, Option, none, some, List, [], ◌∷◌,
  any, map, if◌then◌else◌, arith,
}
use content_approval.Db.Models.{ApprovalRequestRow, Db}
use content_approval.Db.Session.Flush.{
  is_request, is_entry, is_reviewer, has_parent, insert_request, insert_reviewer, insert_audit,
  insert_event, insert_key,
}
use content_approval.Schema.Rows.{
  Cells, cell, agree, permits, Row, request, reviewer, audit, event, key, table_of, cells_of,
  rows_of, appended,
}

-- The insertion of a row into its table.
unfoldable pub insert : Row → Db → Option Db
insert (request r) = insert_request r
insert (reviewer v) = insert_reviewer v
insert (audit e) = insert_audit e
insert (event e) = insert_event e
insert (key k) = insert_key k

any-map {ℓ κ} :
    {A : Type ℓ} {B : Type κ} (p : B → Bool) (q : A → Bool) (f : A → B) (xs : List A)
    → ((x : A) → p (f x) ≡ q x)
    → any p (map f xs) ≡ any q xs
any-map p q f [] same = refl
any-map p q f (x ∷ xs) same = ground (arith, any-map p q f xs same, same x)

any-and {ℓ} :
    {A : Type ℓ} (p q : A → Bool) (xs : List A)
    → any q xs ≡ false
    → any (λ x. p x && q x) xs ≡ false
any-and p q [] h = refl
any-and p q (x ∷ xs) h = ground (arith, any-and p q xs)

-- Any of the rows of a table has the columns of the new one.
abbrev hits : List String → (List Cells) → List String → Cells → Bool
hits columns rows own r = any (λ s. agree columns s own r) rows

-- What the guards of an insertion test is what the keys of its table test.
guards :
    {p t q u : Bool} (x : Db)
    → q ≡ p
    → u ≡ t
    → (if not p || t then none else some x)
      ≡ (if not (u || false) && (q && true) then some x else none)
guards {p} {t} {q} {u} x same alike = ground arith

parent :
    (ws id : String) (r : Cells) (db : Db)
    → cell "workspace_id" r ≡ some ws
    → cell "approval_request_id" r ≡ some id
    → hits
        ("workspace_id" ∷ "id" ∷ [])
        (rows_of db "approval_requests")
        ("workspace_id" ∷ "approval_request_id" ∷ [])
        r
      ≡ has_parent ws id db
parent ws id r db own named =
    any-map
      (λ s. agree ("workspace_id" ∷ "id" ∷ []) s ("workspace_id" ∷ "approval_request_id" ∷ []) r)
      (is_request ws id) (λ x. cells_of (request x)) db.approval_requests
      (λ x. rw (own, named) (ground arith))

by_id :
    {A : Type 0} (f : A → Cells) (id_of : A → String) (xs : List A) (x : A)
    → ((y : A) → cell "id" (f y) ≡ some (id_of y))
    → hits ("id" ∷ []) (map f xs) ("id" ∷ []) (f x) ≡ any (λ y. id_of y == id_of x) xs
by_id f id_of xs x ids =
    any-map (λ s. agree ("id" ∷ []) s ("id" ∷ []) (f x)) (λ y. id_of y == id_of x) f xs
      (λ y. rw (ids x, ids y) (ground arith))

by_both :
    (r : ApprovalRequestRow) (xs : List ApprovalRequestRow)
    → hits
        ("workspace_id" ∷ "id" ∷ [])
        (map (λ x. cells_of (request x)) xs)
        ("workspace_id" ∷ "id" ∷ [])
        (cells_of (request r))
      ≡ any (is_request r.workspace_id r.id) xs
by_both r xs =
    any-map
      (λ s.
        agree ("workspace_id" ∷ "id" ∷ []) s ("workspace_id" ∷ "id" ∷ []) (cells_of (request r)))
      (is_request r.workspace_id r.id) (λ x. cells_of (request x)) xs (λ x. ground arith)

-- The insertion of a row into any of the five tables is refused exactly when a constraint that the
-- table declares forbids it: a primary or unique key that another row has, or a foreign key whose row
-- is missing. An insertion that is let through appends the row and changes nothing else.
pub insert-permits :
    (r : Row) (db : Db)
    → insert r db
      ≡ (if permits (table_of r) (rows_of db) (cells_of r) then some (appended r db) else none)
unfolding insert insert_request insert_reviewer insert_audit insert_event insert_key
insert-permits (request r) db =
    rw
      (
        by_id (λ x. cells_of (request x)) (λ x. x.id) db.approval_requests r (λ x. refl),
        by_both r db.approval_requests,
      )
      (ground (
        arith,
        any-and (λ x. x.workspace_id == r.workspace_id) (λ y. y.id == r.id) db.approval_requests,
      ))
insert-permits (reviewer v) db =
    guards (appended (reviewer v) db)
      (parent v.workspace_id v.approval_request_id (cells_of (reviewer v)) db refl refl)
      (any-map
        (λ s.
          agree ("workspace_id" ∷ "approval_request_id" ∷ "reviewer_user_id" ∷ []) s
            ("workspace_id" ∷ "approval_request_id" ∷ "reviewer_user_id" ∷ [])
            (cells_of (reviewer v)))
        (is_reviewer v.workspace_id v.approval_request_id v.reviewer_user_id)
        (λ x. cells_of (reviewer x)) db.approval_request_reviewers (λ x. ground arith))
insert-permits (audit e) db =
    guards (appended (audit e) db)
      (parent e.workspace_id e.approval_request_id (cells_of (audit e)) db refl refl)
      (by_id (λ x. cells_of (audit x)) (λ x. x.id) db.audit_log_entries e (λ x. refl))
insert-permits (event e) db =
    guards (appended (event e) db)
      (parent e.workspace_id e.approval_request_id (cells_of (event e)) db refl refl)
      (by_id (λ x. cells_of (event x)) (λ x. x.id) db.outbox_events e (λ x. refl))
insert-permits (key k) db =
    rw
      (any-map
        (λ s.
          agree ("workspace_id" ∷ "route" ∷ "idempotency_key" ∷ []) s
            ("workspace_id" ∷ "route" ∷ "idempotency_key" ∷ []) (cells_of (key k)))
        (is_entry k.workspace_id k.route k.idempotency_key) (λ x. cells_of (key x))
        db.idempotency_keys (λ x. ground arith))
      (ground arith)

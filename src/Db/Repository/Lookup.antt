-- ===== src/Db/Repository/Lookup.antt =====
-- `get` and `transition` of app/db/repository.py over tables in which at most one row has a key.
use content_approval.Common.{
  ◌≤◌, ◌≡◌, refl, true, false, Bool-cases, inl, inr, ◌==◌, eq_iff, Option, none, some, [], ◌∷◌,
  ◌++◌, String, arith, any, count, find, filter_unique, to_list, count_mono, any-of-none,
  find-eq-none, find-append, or_else-none, if◌then◌else◌,
}
use content_approval.Db.Models.{ApprovalRequestRow, Db}
use content_approval.Db.Session.{World, returned, ◌>>=◌}
use content_approval.Db.Session.Flush.{is_request}
use content_approval.Db.Repository.{get, scalar_one_or_none, entity_or_none}

-- The primary key of `approval_requests`.
abbrev pub HasUniqueIds : Db → Type 0
HasUniqueIds db = (id : String) → count (λ r. r.id == id) db.approval_requests ≤ 1

unfoldable pub find_request : String → String → Db → Option ApprovalRequestRow
find_request workspace_id request_id db =
    find (is_request workspace_id request_id) db.approval_requests

is_request-id :
    (workspace_id request_id : String) (r : ApprovalRequestRow)
    → is_request workspace_id request_id r ≡ true
    → (r.id == request_id) ≡ true
is_request-id workspace_id request_id r h = ground arith

pub count-request_le :
    (workspace_id request_id : String) (db : Db)
    → HasUniqueIds db
    → count (is_request workspace_id request_id) db.approval_requests ≤ 1
count-request_le workspace_id request_id db unique = omega (
  arith,
  unique request_id,
  count_mono (is_request workspace_id request_id) (λ r. r.id == request_id) db.approval_requests
      (is_request-id workspace_id request_id),
)

get-found :
    (w : World) (o : Option ApprovalRequestRow)
    → (scalar_one_or_none (to_list o) >>= λ found w'. returned (entity_or_none w' found) w') w
      ≡ returned (entity_or_none w o) w
unfolding scalar_one_or_none
get-found w none = refl
get-found w (some row) = refl

pub get_lem :
    (workspace_id request_id : String) (w : World)
    → HasUniqueIds w.db
    → get workspace_id request_id w
      ≡ returned (entity_or_none w (find_request workspace_id request_id w.db)) w
unfolding get find_request
get_lem workspace_id request_id w unique =
    rw
      (filter_unique (is_request workspace_id request_id) w.db.approval_requests
        (count-request_le workspace_id request_id w.db unique))
      (get-found w (find (is_request workspace_id request_id) w.db.approval_requests))

-- A new identifier is that of no row.
pub find_request-absent :
    (ws id new_id : String) (db : Db)
    → any (λ r. r.id == new_id) db.approval_requests ≡ false
    → (id == new_id) ≡ true
    → find_request ws id db ≡ none
unfolding find_request
find_request-absent ws id new_id db absent same =
    let none_before = any-of-none (λ r. r.id == new_id) db.approval_requests absent in
    let fewer =
      count_mono (is_request ws id) (λ r. r.id == new_id) db.approval_requests
        (λ r h. ground (arith, eq_iff r.id id, eq_iff id new_id, eq_iff r.id new_id)) in
    find-eq-none (is_request ws id) db.approval_requests (omega (arith, none_before, fewer))

-- A new row is the row of its own key and of no other.
pub find_request-new :
    (ws id : String) (db : Db) (row : ApprovalRequestRow)
    → any (λ r. r.id == row.id) db.approval_requests ≡ false
    → find_request ws id (record db { approval_requests = db.approval_requests ++ row ∷ [] })
      ≡ (if is_request ws id row then some row else find_request ws id db)
find_request-new ws id db row absent = elim (Bool-cases (is_request ws id row)) [
  | inr other ↦ rw other (
      unfold find_request in
      rw (find-append (is_request ws id) db.approval_requests (row ∷ []), other)
        (or_else-none (find (is_request ws id) db.approval_requests)))
  | inl own ↦
      let same : (id == row.id) ≡ true = ground (arith, eq_iff row.id id, eq_iff id row.id) in
      let none_before = find_request-absent ws id row.id db absent same in
      rw own (
        unfold find_request in
        rw (find-append (is_request ws id) db.approval_requests (row ∷ []), own, none_before))
]

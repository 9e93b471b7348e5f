-- ===== src/Domain/Changes/Final.antt =====
-- What becomes of the row of a request of app/domain/service.py.
use content_approval.Common.{
  String, ◌≡◌, refl, sym, ◌∙◌, true, false, ◌==◌, ◌&&◌, some, [], ◌∷◌, arith, ◌++◌, find-append,
  find-update_where_other, eq_iff, Bool-cases, inl, inr, subst,
}
use content_approval.Domain.DateTime.{DateTime}
use content_approval.Db.Models.{ApprovalRequestRow, Db}
use content_approval.Db.Session.Flush.{is_request}
use content_approval.Db.Repository.{Decision, decided, is_open, new_row}
use content_approval.Db.Repository.Lookup.{find_request}
use content_approval.Db.Repository.Transition.{is_pending, updated_db, find_request-update}
use content_approval.Domain.Service.{new_request}
use content_approval.Domain.Changes.{
  Change, creation, decision, idempotency_record, decision_of, Reaches, start, step,
}

-- A row that the UPDATE of another key reaches is not a row of this key.
other_key :
    (ws id ws' id' : String) (r : ApprovalRequestRow)
    → ((ws' == ws) && (id' == id)) ≡ false
    → is_open ws' id' r ≡ true
    → is_request ws id r ≡ false
other_key ws id ws' id' r apart open_row =
    ground
      (arith, eq_iff r.workspace_id ws', eq_iff r.id id', eq_iff r.workspace_id ws, eq_iff r.id id)

-- What an UPDATE for one key does to the row of another: nothing.
pub find_request-update_other :
    (ws id ws' id' : String) (d : Decision) (now : DateTime) (db : Db)
    → ((ws' == ws) && (id' == id)) ≡ false
    → find_request ws id (updated_db ws' id' d now db) ≡ find_request ws id db
unfolding find_request
find_request-update_other ws id ws' id' d now db apart =
    find-update_where_other (is_request ws id) (is_open ws' id') (decided d now)
      db.approval_requests (λ r. refl) (λ r. other_key ws id ws' id' r apart)

pub find_request-append :
    (ws id : String) (db : Db) (row r : ApprovalRequestRow)
    → find_request ws id db ≡ some r
    → find_request ws id (record db { approval_requests = db.approval_requests ++ row ∷ [] })
      ≡ some r
unfolding find_request
find_request-append ws id db row r found =
    rw (find-append (is_request ws id) db.approval_requests (row ∷ []), found)

-- What becomes of a row: what its creation fixed stays, and if it is decided, all of it does.
pub record Later (r r' : ApprovalRequestRow) : Type 0 where
  pub id : r'.id ≡ r.id
  pub workspace_id : r'.workspace_id ≡ r.workspace_id
  pub source_type : r'.source_type ≡ r.source_type
  pub source_id : r'.source_id ≡ r.source_id
  pub title : r'.title ≡ r.title
  pub description : r'.description ≡ r.description
  pub created_by : r'.created_by_user_id ≡ r.created_by_user_id
  pub created_at : r'.created_at ≡ r.created_at
  pub frozen : is_pending r ≡ false → r' ≡ r

Later-refl : (r : ApprovalRequestRow) → Later r r
Later-refl r = record {
  id = refl;
  workspace_id = refl;
  source_type = refl;
  source_id = refl;
  title = refl;
  description = refl;
  created_by = refl;
  created_at = refl;
  frozen = λ final. refl;
}

Later-trans : {r s t : ApprovalRequestRow} → Later r s → Later s t → Later r t
Later-trans {r} {s} {t} a b = record {
  id = b.id ∙ a.id;
  workspace_id = b.workspace_id ∙ a.workspace_id;
  source_type = b.source_type ∙ a.source_type;
  source_id = b.source_id ∙ a.source_id;
  title = b.title ∙ a.title;
  description = b.description ∙ a.description;
  created_by = b.created_by ∙ a.created_by;
  created_at = b.created_at ∙ a.created_at;
  frozen = λ final.
      let same = a.frozen final in
      b.frozen (subst (λ (x : ApprovalRequestRow). is_pending x ≡ false) (sym same) final) ∙ same;
}

Later-decided :
    (d : Decision) (now : DateTime) (r : ApprovalRequestRow)
    → is_pending r ≡ true
    → Later r (decided d now r)
Later-decided d now r undecided = record {
  id = refl;
  workspace_id = refl;
  source_type = refl;
  source_id = refl;
  title = refl;
  description = refl;
  created_by = refl;
  created_at = refl;
  frozen = λ final. cc;
}

-- The row of a key, and that it is a later version of one before.
abbrev pub StillThere : String → String → ApprovalRequestRow → Db → Type 0
StillThere ws id r db = (r' : ApprovalRequestRow) × (find_request ws id db ≡ some r') × Later r r'

update-StillThere :
    (ws id ws' id' : String) (d : Decision) (now : DateTime) (db : Db) (r : ApprovalRequestRow)
    → find_request ws id db ≡ some r
    → StillThere ws id r (updated_db ws' id' d now db)
update-StillThere ws id ws' id' d now db r found = elim (Bool-cases ((ws' == ws) && (id' == id))) [
  | inr apart ↦ (r, find_request-update_other ws id ws' id' d now db apart ∙ found, Later-refl r)
  | inl hit ↦
      let same_ws : ws' ≡ ws = ground (arith, eq_iff ws' ws, eq_iff id' id) in
      let same_id : id' ≡ id = ground (arith, eq_iff ws' ws, eq_iff id' id) in
      rw (same_ws, same_id)
        (elim (Bool-cases (is_pending r)) [
          | inl undecided ↦ (
            decided d now r,
            rw (find_request-update ws id d now db, found, undecided),
            Later-decided d now r undecided,
          )
          | inr final ↦ (r, rw (find_request-update ws id d now db, found, final), Later-refl r)
        ])
]

Change-StillThere :
    (ws id : String) {db db' : Db} (r : ApprovalRequestRow)
    → find_request ws id db ≡ some r
    → Change db db'
    → StillThere ws id r db'
unfolding find_request
Change-StillThere ws id {db} r found (creation d new_id a e t u v x absent same) =
    rw same
      (r, find_request-append ws id db (new_row (new_request new_id d) t u) r found, Later-refl r)
Change-StillThere ws id {db} r found
      (decision ws' id' actor c a e now u v row there undecided same) =
    rw same (update-StillThere ws id ws' id' (decision_of c actor) now db r found)
Change-StillThere ws id r found (idempotency_record k same) = rw same (r, found, Later-refl r)

-- A request that a database holds is held by every database that operations reach from it: its key,
-- its source, title, description, creator and creation time are the same, and if it was decided,
-- every field is.
pub Reaches-StillThere :
    (ws id : String) {db db' : Db} (r : ApprovalRequestRow)
    → find_request ws id db ≡ some r
    → Reaches db db'
    → StillThere ws id r db'
Reaches-StillThere ws id r found start = (r, found, Later-refl r)
Reaches-StillThere ws id r found (step reached change) =
    let (s, there, later) = Reaches-StillThere ws id r found reached in
    let (s', there', later') = Change-StillThere ws id s there change in
    (s', there', Later-trans later later')

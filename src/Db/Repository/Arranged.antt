-- ===== src/Db/Repository/Arranged.antt =====
-- `list` of app/db/repository.py does not depend on the order in which the table has its rows.
use mathlib.Core.List.{Permᴰ}
use content_approval.Common.{
  ℕ, String, ◌==◌, ◌≡◌, refl, arith, Option, List, count-Perm, filter-Perm, count-filter_le, filter,
}
use content_approval.Domain.Enums.{ApprovalStatus}
use content_approval.Db.Models.{ApprovalRequestRow}
use content_approval.Db.Session.{World, answer}
use content_approval.Db.Repository.{list, is_listed}
use content_approval.Db.Repository.Lookup.{HasUniqueIds}
use content_approval.Db.Repository.Page.{page}
use content_approval.Db.Repository.Page.Order.{IsUnique, newest_first-Perm}

abbrev pub with_rows : World → List ApprovalRequestRow → World
with_rows w rows = record w { db = record w.db { approval_requests = rows } }

module _ (ws : String) (status : Option ApprovalStatus) (limit offset : ℕ) (w : World) where
  listed-IsUnique :
      HasUniqueIds w.db → IsUnique (filter (is_listed ws status) w.db.approval_requests)
  listed-IsUnique unique id = omega (
    arith,
    unique id,
    count-filter_le (λ r. r.id == id) (is_listed ws status) w.db.approval_requests,
  )

  -- Where the keys of the rows are unique, a listing answers the same page and the same total whatever
  -- order the table has its rows in: creation time and identifier, both descending, leave no choice.
  pub list-Perm :
      (rows : List ApprovalRequestRow)
      → HasUniqueIds w.db
      → Permᴰ w.db.approval_requests rows
      → answer (list ws status limit offset (with_rows w rows))
        ≡ answer (list ws status limit offset w)
  unfolding list page
  list-Perm rows unique arranged =
      let sorted =
        newest_first-Perm (filter-Perm (is_listed ws status) arranged) (listed-IsUnique unique) in
      rw (sorted, count-Perm (is_listed ws status) arranged) refl

-- ===== src/Db/Repository/Page.antt =====
-- The ORDER BY, LIMIT and OFFSET of `list` in app/db/repository.py.
pub mod Sorted
pub mod Order
use Prim.Native.Nat.{compare, Ordering}
use Prim.Native.String
use content_approval.Common.{ℕ, Bool, true, false, List, [], ◌∷◌, take, drop, if◌then◌else◌}
use content_approval.Domain.DateTime.{instant}
use content_approval.Db.Models.{ApprovalRequestRow}

-- `a` may stand before `b`: by `created_at`, then by `id`, both descending.
abbrev pub precedes : ApprovalRequestRow → ApprovalRequestRow → Bool
precedes a b = elim (compare (instant a.created_at) (instant b.created_at)) [
  | Ordering.gt ↦ true
  | Ordering.lt ↦ false
  | Ordering.eq ↦ elim (String.compare a.id b.id) [ Ordering.lt ↦ false | _ ↦ true ]
]

unfoldable pub insert_newest :
    ApprovalRequestRow → List ApprovalRequestRow → List ApprovalRequestRow
insert_newest r [] = r ∷ []
insert_newest r (x ∷ xs) =
    let rest = insert_newest r xs in if precedes r x then r ∷ x ∷ xs else x ∷ rest

unfoldable pub newest_first : List ApprovalRequestRow → List ApprovalRequestRow
unfolding insert_newest
newest_first [] = []
newest_first (r ∷ rs) = insert_newest r (newest_first rs)

unfoldable pub page : ℕ → ℕ → List ApprovalRequestRow → List ApprovalRequestRow
page limit offset rows = take limit (drop offset rows)

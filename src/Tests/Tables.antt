-- ===== src/Tests/Tables.antt =====
-- The repository and the session of app/db: the theorems of Db at work.
use mathlib.Core.List.Permᴰ.{swap}
use content_approval.Common.{[], ◌∷◌, ◌==◌, eq_iff, sym, Bool-cases, inl, inr}
use content_approval.Db.Session.{World}
use content_approval.Db.Repository.Arranged.{with_rows, list-Perm}
use content_approval.Common.{ℕ, ◌≡◌, refl, none, some, List}
use content_approval.Domain.Service.{rejection}
use content_approval.Db.Models.{ApprovalRequestRow}
use content_approval.Db.Repository.{list, transition}
use content_approval.Common.{map, filter, arith}
use content_approval.Db.Repository.{is_listed, entity_of}
use content_approval.Db.Repository.Page.{newest_first}
use content_approval.Db.Repository.Tiles.{pages, pages-all}
use content_approval.Db.Repository.Listing.{IsPage, list-IsPage}
use content_approval.Domain.Entities.{ApprovalRequest}
use content_approval.Db.Repository.Lookup.{find_request, HasUniqueIds}
use content_approval.Db.Repository.Transition.{transition_lem, transition_outcome}
use content_approval.Db.Session.{returned, answer}
use content_approval.Tests.Data.{
  world_with, one_request, pending_row, rejected_row, one_request-IsSound,
}

transition_lem_example :
    transition "acme" "ar_9" (rejection "bob" "off topic") (world_with one_request)
    ≡ transition_outcome "acme" "ar_9"
        (rejection "bob" "off topic")
        (world_with one_request)
        (some pending_row)
unfolding find_request
transition_lem_example =
    transition_lem "acme" "ar_9" (rejection "bob" "off topic") (world_with one_request)
      one_request-IsSound.request_ids

list-IsPage_example :
    (found : List ApprovalRequest × ℕ) × (list "acme" none 20 0 (world_with one_request)
      ≡ returned found (world_with one_request))
    × IsPage "acme" none 20 0 (world_with one_request) found
list-IsPage_example = list-IsPage "acme" none 20 0 (world_with one_request)

pages-all_example :
    pages "acme" none 1 (world_with one_request) 2 0
    ≡ map
        (entity_of (world_with one_request))
        (newest_first (filter (is_listed "acme" none) one_request.approval_requests))
pages-all_example = pages-all "acme" none 1 (world_with one_request) 2 (omega arith)

-- Two requests that were created at the same time.
abbrev twins : World
twins = world_with (record one_request {
  approval_requests =
      pending_row ∷ record rejected_row { created_at = pending_row.created_at } ∷ [];
})

twins-HasUniqueIds : HasUniqueIds twins.db
twins-HasUniqueIds id = elim (Bool-cases ("ar_9" == id)) [
  | inr other ↦ ground arith
  | inl same ↦ rw (sym ((eq_iff "ar_9" id).0 same)) (omega arith)
]

abbrev turned : List ApprovalRequestRow
turned = record rejected_row { created_at = pending_row.created_at } ∷ pending_row ∷ []

list-Perm_example :
    answer (list "acme" none 1 0 (with_rows twins turned)) ≡ answer (list "acme" none 1 0 twins)
list-Perm_example = list-Perm "acme" none 1 0 twins turned twins-HasUniqueIds (swap refl refl)

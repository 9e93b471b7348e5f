-- ===== src/Db/Repository/Listing.antt =====
-- What `list` of app/db/repository.py returns.
use content_approval.Common.{
  ℕ, suc, ◌-◌, ◌≤◌, String, ◌≡◌, refl, ap, ◌∙◌, Bool, true, eq_iff, Option, none, some, List, [],
  ◌∷◌, map, length, count, filter, length-filter, take, drop, All, All-imp, Bool-cases, inl, inr,
  arith,
}
use content_approval.Domain.Enums.{ApprovalStatus, status_eq}
use content_approval.Domain.DateTime.{DateTime, instant, naive, aware}
use content_approval.Domain.Entities.{ApprovalRequest}
use content_approval.Db.Models.{ApprovalRequestRow}
use content_approval.Db.Session.{World, Dialect, sqlite, postgres, returned}
use content_approval.Db.Repository.{list, is_listed, entity_of}
use content_approval.Db.Repository.Rows.{as_utc, load}
use content_approval.Db.Repository.Page.{newest_first, page}
use content_approval.Db.Repository.Page.Sorted.{
  time, RowsNewestFirst, min, All-newest_first, All-drop, All-take, newest_first-sorted,
  drop-sorted, take-sorted, length-newest_first, count-newest_first, length-drop, length-take,
}

-- The order of the entities that are returned.
abbrev pub NewestFirst : List ApprovalRequest → Type 0
NewestFirst [] = Unit
NewestFirst (x ∷ xs) = All (λ y. instant y.created_at ≤ instant x.created_at) xs × NewestFirst xs

abbrev pub HasStatus : Option ApprovalStatus → ApprovalRequest → Type 0
HasStatus none request = Unit
HasStatus (some status) request = status_eq request.status status ≡ true

same_instant : (dialect : Dialect) (t : DateTime) → instant (as_utc (load dialect t)) ≡ instant t
same_instant sqlite (naive t) = refl
same_instant sqlite (aware t o) = refl
same_instant (postgres offset) (naive t) = refl
same_instant (postgres offset) (aware t o) = refl

module _ (w : World) where
  All-entities :
      (P : ApprovalRequest → Type 0) (xs : List ApprovalRequestRow)
      → All (λ r. P (entity_of w r)) xs
      → All P (map (entity_of w) xs)
  All-entities P [] h = tt
  All-entities P (x ∷ xs) (p, h) = (p, All-entities P xs h)

  entities-NewestFirst :
      (xs : List ApprovalRequestRow) → RowsNewestFirst xs → NewestFirst (map (entity_of w) xs)
  entities-NewestFirst [] h = tt
  entities-NewestFirst (x ∷ xs) (older, h) = (
    All-entities (λ y. instant y.created_at ≤ instant (entity_of w x).created_at) xs
        (All-imp (λ y. time y ≤ time x)
          (λ y. instant (entity_of w y).created_at ≤ instant (entity_of w x).created_at) xs
          (λ y le. rw (same_instant w.dialect y.created_at, same_instant w.dialect x.created_at) le)
          older),
    entities-NewestFirst xs h,
  )

length-map {ℓ κ} :
    {A : Type ℓ} {B : Type κ} (f : A → B) (xs : List A) → length (map f xs) ≡ length xs
length-map f [] = refl
length-map f (x ∷ xs) = ap suc (length-map f xs)

module _ (ws : String) (status : Option ApprovalStatus) where
  listed-filter :
      (rows : List ApprovalRequestRow)
      → All (λ r. is_listed ws status r ≡ true) (filter (is_listed ws status) rows)
  listed-filter [] = tt
  listed-filter (r ∷ rows) = elim (Bool-cases (is_listed ws status r)) [
    | inl chosen ↦ rw chosen (chosen, listed-filter rows)
    | inr other ↦ rw other (listed-filter rows)
  ]

  listed-workspace :
      (w : World) (r : ApprovalRequestRow)
      → is_listed ws status r ≡ true
      → ((entity_of w r).workspace_id ≡ ws) × HasStatus status (entity_of w r)
  listed-workspace w r h = of_status status h
    where
      of_status :
          (s : Option ApprovalStatus)
          → is_listed ws s r ≡ true
          → (r.workspace_id ≡ ws) × HasStatus s (entity_of w r)
      of_status none h = ((eq_iff r.workspace_id ws).0 h, tt)
      of_status (some s) h = (ground (arith, eq_iff r.workspace_id ws), ground arith)

  module _ (limit offset : ℕ) (w : World) where
    -- A page of a workspace's requests, with their number.
    pub record IsPage (found : List ApprovalRequest × ℕ) : Type 0 where
      -- the rows that are asked for, in the order of the listing
      pub all : List ApprovalRequestRow
      pub complete :
          (p : ApprovalRequestRow → Bool)
          → count p all ≡ count p (filter (is_listed ws status) w.db.approval_requests)
      pub window : found.0 ≡ map (entity_of w) (take limit (drop offset all))
      pub total : found.1 ≡ count (is_listed ws status) w.db.approval_requests
      pub size : length found.0 ≡ min limit (found.1 - offset)
      pub requested :
          All (λ request. (request.workspace_id ≡ ws) × HasStatus status request) found.0
      pub newest_first : NewestFirst found.0

    abbrev sorted : List ApprovalRequestRow
    sorted = newest_first (filter (is_listed ws status) w.db.approval_requests)

    abbrev rows : List ApprovalRequestRow
    unfolding page
    rows = page limit offset sorted

    -- Listing changes nothing and returns a page, with the number of all the workspace's requests that
    -- have the status asked for. The page is the window, by the limit and the offset, of an
    -- arrangement of the rows of exactly these requests; it has as many items as the limit and the
    -- offset leave, each of that workspace and status, and none older than one that comes after it.
    pub list-IsPage :
        (found : List ApprovalRequest × ℕ) × (list ws status limit offset w ≡ returned found w)
        × IsPage found
    unfolding list page
    list-IsPage = (
      (map (entity_of w) rows, count (is_listed ws status) w.db.approval_requests),
      refl,
      record {
        all = sorted;
        complete = λ p. count-newest_first p (filter (is_listed ws status) w.db.approval_requests);
        window = refl;
        total = refl;
        size =
            length-map (entity_of w) rows
            ∙ length-take limit (drop offset sorted)
            ∙ ap (min limit) (
                length-drop offset sorted
                ∙ ap (λ n. n - offset)
                    (length-newest_first (filter (is_listed ws status) w.db.approval_requests)
                      ∙ length-filter (is_listed ws status) w.db.approval_requests));
        requested =
            All-entities w (λ request. (request.workspace_id ≡ ws) × HasStatus status request) rows
              (All-imp (λ r. is_listed ws status r ≡ true)
                (λ r. ((entity_of w r).workspace_id ≡ ws) × HasStatus status (entity_of w r)) rows
                (listed-workspace w)
                (All-take (λ r. is_listed ws status r ≡ true) limit (drop offset sorted)
                  (All-drop (λ r. is_listed ws status r ≡ true) offset sorted
                    (All-newest_first (λ r. is_listed ws status r ≡ true)
                      (filter (is_listed ws status) w.db.approval_requests)
                      (listed-filter w.db.approval_requests)))));
        newest_first = entities-NewestFirst w rows (
            take-sorted limit (drop offset sorted) (
              drop-sorted offset sorted
                (newest_first-sorted (filter (is_listed ws status) w.db.approval_requests))));
      },
    )

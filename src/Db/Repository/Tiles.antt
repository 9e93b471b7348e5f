-- ===== src/Db/Repository/Tiles.antt =====
-- Consecutive pages of `list` in app/db/repository.py, as a client reads them one after the other.
use content_approval.Common.{
  ℕ, zero, suc, ◌+◌, ◌*◌, ◌≤◌, length, length-filter, String, ◌≡◌, refl, sym, ap, ◌∙◌, Option, List,
  [], ◌∷◌, ◌++◌, map, take, drop, filter, count, arith,
}
use native.Mathlib.Nat.{suc-mul}
use content_approval.Db.Models.{ApprovalRequestRow}
use content_approval.Db.Repository.Page.Sorted.{length-newest_first}
use content_approval.Domain.Enums.{ApprovalStatus}
use content_approval.Domain.Entities.{ApprovalRequest}
use content_approval.Db.Session.{World, Outcome, returned, raised}
use content_approval.Db.Repository.{list, entity_of, is_listed}
use content_approval.Db.Repository.Page.{page, newest_first}

zero_plus : (n : ℕ) → zero + n ≡ n
zero_plus n = omega arith

suc_plus : (m n : ℕ) → suc m + n ≡ suc (m + n)
suc_plus m n = omega arith

zero_times : (l : ℕ) → zero * l ≡ zero
zero_times l = omega arith

suc_times : (n l : ℕ) → suc n * l ≡ l + n * l
suc_times n l = omega (arith, suc-mul n l)

module _ {ℓ} {A : Type ℓ} where
  drop-nil : (n : ℕ) → drop {A = A} n [] ≡ []
  drop-nil zero = refl
  drop-nil (suc n) = refl

  take-nil : (n : ℕ) → take {A = A} n [] ≡ []
  take-nil zero = refl
  take-nil (suc n) = refl

  take-add : (m n : ℕ) (xs : List A) → take (m + n) xs ≡ take m xs ++ take n (drop m xs)
  take-add zero n xs = ap (λ m. take m xs) (zero_plus n)
  take-add (suc m) n [] = rw (suc_plus m n) (sym (take-nil n))
  take-add (suc m) n (x ∷ xs) = rw (suc_plus m n) (ap (λ r. x ∷ r) (take-add m n xs))

  drop-add : (m n : ℕ) (xs : List A) → drop (m + n) xs ≡ drop n (drop m xs)
  drop-add zero n xs = ap (λ m. drop m xs) (zero_plus n)
  drop-add (suc m) n [] = rw (suc_plus m n) (sym (drop-nil n))
  drop-add (suc m) n (x ∷ xs) = rw (suc_plus m n) (drop-add m n xs)

  take_all : (m : ℕ) (xs : List A) → length xs ≤ m → take m xs ≡ xs
  take_all zero [] short = refl
  take_all zero (x ∷ xs) short = absurd (omega (arith, short))
  take_all (suc m) [] short = refl
  take_all (suc m) (x ∷ xs) short = ap (λ r. x ∷ r) (take_all m xs (omega (arith, short)))

  map-append_lem {κ} :
      {B : Type κ} (f : A → B) (xs ys : List A) → map f (xs ++ ys) ≡ map f xs ++ map f ys
  map-append_lem f [] ys = refl
  map-append_lem f (x ∷ xs) ys = ap (λ r. f x ∷ r) (map-append_lem f xs ys)

-- The items of a page.
abbrev pub items : Outcome (List ApprovalRequest × ℕ) → List ApprovalRequest
items (returned found w) = found.0
items (raised e w) = []

module _ (ws : String) (status : Option ApprovalStatus) (limit : ℕ) (w : World) where
  -- What that many calls return one after the other, each offset one limit further.
  unfoldable pub pages : ℕ → ℕ → List ApprovalRequest
  pages zero offset = []
  pages (suc n) offset = items (list ws status limit offset w) ++ pages n (offset + limit)

  -- The rows that the listing asks for, in its order.
  abbrev sorted : List ApprovalRequestRow
  sorted = newest_first (filter (is_listed ws status) w.db.approval_requests)

  pages-window :
      (n offset : ℕ) → pages n offset ≡ map (entity_of w) (take (n * limit) (drop offset sorted))
  unfolding pages list page
  pages-window zero offset = rw (zero_times limit)
  pages-window (suc n) offset =
      rw
        (
          suc_times n limit,
          pages-window n (offset + limit),
          drop-add offset limit sorted,
          take-add limit (n * limit) (drop offset sorted),
        )
        (sym (map-append_lem (entity_of w) (take limit (drop offset sorted)) _))

  -- Where so many pages of a limit cover the number of the requests asked for: the pages that are read
  -- one after the other, each offset one limit further, hold together the items of the sorted list of
  -- all of them, in its order.
  pub pages-all :
      (n : ℕ)
      → count (is_listed ws status) w.db.approval_requests ≤ n * limit
      → pages n 0 ≡ map (entity_of w) sorted
  pages-all n enough =
      let size =
        length-newest_first (filter (is_listed ws status) w.db.approval_requests)
        ∙ length-filter (is_listed ws status) w.db.approval_requests in
      pages-window n 0
      ∙ ap (map (entity_of w)) (take_all (n * limit) sorted (omega (arith, size, enough)))

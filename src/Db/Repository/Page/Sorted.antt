-- ===== src/Db/Repository/Page/Sorted.antt =====
-- The ORDER BY of `list` in app/db/repository.py and the order of the rows.
use content_approval.Common.{
  ℕ, zero, suc, ◌-◌, ◌≤◌, ◌≡◌, refl, ap, ◌∙◌, Bool, true, false, List, [], ◌∷◌, length, count, take,
  drop, All, All-imp, Bool-cases, inl, inr, arith, leb, if◌then◌else◌,
}
use content_approval.Domain.DateTime.{instant}
use content_approval.Db.Models.{ApprovalRequestRow}
use content_approval.Db.Repository.Page.{precedes, insert_newest, newest_first}

abbrev pub time : ApprovalRequestRow → ℕ
time r = instant r.created_at

precedes-time : (a b : ApprovalRequestRow) → precedes a b ≡ true → time b ≤ time a
precedes-time a b h = ground arith

precedes-not : (a b : ApprovalRequestRow) → precedes a b ≡ false → time a ≤ time b
precedes-not a b h = ground arith

-- No row is older than one that stands after it.
abbrev pub RowsNewestFirst : List ApprovalRequestRow → Type 0
RowsNewestFirst [] = Unit
RowsNewestFirst (x ∷ xs) = All (λ y. time y ≤ time x) xs × RowsNewestFirst xs

module _ (P : ApprovalRequestRow → Type 0) where
  All-insert_newest :
      (r : ApprovalRequestRow) (xs : List ApprovalRequestRow)
      → P r
      → All P xs
      → All P (insert_newest r xs)
  unfolding insert_newest
  All-insert_newest r [] p h = (p, tt)
  All-insert_newest r (x ∷ xs) p (q, h) = elim (Bool-cases (precedes r x)) [
    | inl before ↦ rw before (p, (q, h))
    | inr after ↦ rw after (q, All-insert_newest r xs p h)
  ]

  pub All-newest_first : (xs : List ApprovalRequestRow) → All P xs → All P (newest_first xs)
  unfolding newest_first
  All-newest_first [] h = tt
  All-newest_first (x ∷ xs) (p, h) = All-insert_newest x (newest_first xs) p (All-newest_first xs h)

  pub All-drop : (n : ℕ) (xs : List ApprovalRequestRow) → All P xs → All P (drop n xs)
  All-drop zero xs h = h
  All-drop (suc n) [] h = tt
  All-drop (suc n) (x ∷ xs) (p, h) = All-drop n xs h

  pub All-take : (n : ℕ) (xs : List ApprovalRequestRow) → All P xs → All P (take n xs)
  All-take zero xs h = tt
  All-take (suc n) [] h = tt
  All-take (suc n) (x ∷ xs) (p, h) = (p, All-take n xs h)

insert_newest-sorted :
    (r : ApprovalRequestRow) (xs : List ApprovalRequestRow)
    → RowsNewestFirst xs
    → RowsNewestFirst (insert_newest r xs)
unfolding insert_newest
insert_newest-sorted r [] h = (tt, tt)
insert_newest-sorted r (x ∷ xs) (older, h) = elim (Bool-cases (precedes r x)) [
  | inl before ↦
      let newer = precedes-time r x before in
      rw before (
        (
          newer,
          All-imp (λ y. time y ≤ time x) (λ y. time y ≤ time r) xs (λ y le. omega arith) older,
        ),
        (older, h),
      )
  | inr after ↦ rw after (
    All-insert_newest (λ y. time y ≤ time x) r xs (precedes-not r x after) older,
    insert_newest-sorted r xs h,
  )
]

pub newest_first-sorted : (xs : List ApprovalRequestRow) → RowsNewestFirst (newest_first xs)
unfolding newest_first
newest_first-sorted [] = tt
newest_first-sorted (x ∷ xs) = insert_newest-sorted x (newest_first xs) (newest_first-sorted xs)

pub drop-sorted :
    (n : ℕ) (xs : List ApprovalRequestRow) → RowsNewestFirst xs → RowsNewestFirst (drop n xs)
drop-sorted zero xs h = h
drop-sorted (suc n) [] h = tt
drop-sorted (suc n) (x ∷ xs) (p, h) = drop-sorted n xs h

pub take-sorted :
    (n : ℕ) (xs : List ApprovalRequestRow) → RowsNewestFirst xs → RowsNewestFirst (take n xs)
take-sorted zero xs h = tt
take-sorted (suc n) [] h = tt
take-sorted (suc n) (x ∷ xs) (p, h) = (All-take (λ y. time y ≤ time x) n xs p, take-sorted n xs h)

length-insert_newest :
    (r : ApprovalRequestRow) (xs : List ApprovalRequestRow)
    → length (insert_newest r xs) ≡ suc (length xs)
unfolding insert_newest
length-insert_newest r [] = refl
length-insert_newest r (x ∷ xs) = elim (Bool-cases (precedes r x)) [
  | inl before ↦ rw before
  | inr after ↦ rw (after, length-insert_newest r xs)
]

pub length-newest_first : (xs : List ApprovalRequestRow) → length (newest_first xs) ≡ length xs
unfolding newest_first
length-newest_first [] = refl
length-newest_first (x ∷ xs) =
    length-insert_newest x (newest_first xs) ∙ ap suc (length-newest_first xs)

module _ (p : ApprovalRequestRow → Bool) where
  count-insert_newest :
      (r : ApprovalRequestRow) (xs : List ApprovalRequestRow)
      → count p (insert_newest r xs) ≡ count p (r ∷ xs)
  unfolding insert_newest
  count-insert_newest r [] = refl
  count-insert_newest r (x ∷ xs) = elim (Bool-cases (precedes r x)) [
    | inl before ↦ rw before
    | inr after ↦ rw after (omega (arith, count-insert_newest r xs))
  ]

  pub count-newest_first : (xs : List ApprovalRequestRow) → count p (newest_first xs) ≡ count p xs
  unfolding newest_first
  count-newest_first [] = refl
  count-newest_first (x ∷ xs) =
      omega (arith, count-insert_newest x (newest_first xs), count-newest_first xs)

-- The smaller of two numbers.
abbrev pub min : ℕ → ℕ → ℕ
min a b = if leb a b then a else b

pub length-drop : (n : ℕ) (xs : List ApprovalRequestRow) → length (drop n xs) ≡ length xs - n
length-drop zero xs = omega arith
length-drop (suc n) [] = omega arith
length-drop (suc n) (x ∷ xs) = omega (arith, length-drop n xs)

pub length-take : (n : ℕ) (xs : List ApprovalRequestRow) → length (take n xs) ≡ min n (length xs)
length-take zero xs = ground arith
length-take (suc n) [] = ground arith
length-take (suc n) (x ∷ xs) = ground (arith, length-take n xs)

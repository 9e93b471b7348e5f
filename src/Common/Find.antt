-- ===== src/Common/Find.antt =====
-- The first row that passes a test, and tables in which at most one row passes it.
use Prim.Native.Nat.{ℕ, ◌≤◌}
use mathlib.Core.Path.{◌≡◌, refl, subst}
use mathlib.Core.Logic.{inl, inr}
use mathlib.Core.Bool.{Bool, true, false, ◌&&◌}
use mathlib.Core.Option.{Option, none, some}
use mathlib.Core.List.{List, [], ◌∷◌, ◌++◌}
use native.Mathlib.Omega.{arith}
use content_approval.Common.Tests.{if◌then◌else◌, Bool-cases}
use content_approval.Common.Lists.{filter, count, any, update_where}

module _ {ℓ} {A : Type ℓ} where
  abbrev pub find : (A → Bool) → List A → Option A
  find p [] = none
  find p (x ∷ xs) = let rest = find p xs in if p x then some x else rest

  abbrev pub to_list : Option A → List A
  to_list none = []
  to_list (some x) = x ∷ []

  pub find-passes : (p : A → Bool) (xs : List A) (x : A) → find p xs ≡ some x → p x ≡ true
  find-passes p [] x h = ground arith
  find-passes p (y ∷ ys) x h = ground (arith, find-passes p ys x)

  pub find-eq-none : (p : A → Bool) (xs : List A) → count p xs ≡ 0 → find p xs ≡ none
  find-eq-none p [] h = refl
  find-eq-none p (x ∷ xs) h = ground (arith, find-eq-none p xs)

  pub count-of-none : (p : A → Bool) (xs : List A) → find p xs ≡ none → count p xs ≡ 0
  count-of-none p [] h = refl
  count-of-none p (x ∷ xs) h = ground (arith, count-of-none p xs)

  pub any-of-none : (p : A → Bool) (xs : List A) → any p xs ≡ false → count p xs ≡ 0
  any-of-none p [] h = refl
  any-of-none p (x ∷ xs) h = ground (arith, any-of-none p xs)

  pub any-of-some : (p : A → Bool) (xs : List A) (x : A) → find p xs ≡ some x → any p xs ≡ true
  any-of-some p [] x h = ground arith
  any-of-some p (y ∷ ys) x h = ground (arith, any-of-some p ys x)

  filter-of-count-zero : (p : A → Bool) (xs : List A) → count p xs ≡ 0 → filter p xs ≡ []
  filter-of-count-zero p [] h = refl
  filter-of-count-zero p (x ∷ xs) h = ground (arith, filter-of-count-zero p xs)

  pub any-of-find :
      (p q : A → Bool) (xs : List A) (x : A) → find p xs ≡ some x → q x ≡ true → any q xs ≡ true
  any-of-find p q [] x e h = cc
  any-of-find p q (y ∷ xs) x e h = ground (arith, any-of-find p q xs x)

  -- Where at most one row passes, the filter is the search.
  pub filter_unique :
      (p : A → Bool) (xs : List A) → count p xs ≤ 1 → filter p xs ≡ to_list (find p xs)
  filter_unique p [] h = refl
  filter_unique p (x ∷ xs) h = ground (arith, filter_unique p xs, filter-of-count-zero p xs)

  -- The count of a test and a further one, by the row that the first finds.
  abbrev pub counted : (A → Bool) → Option A → ℕ
  counted q none = 0
  counted q (some x) = if q x then 1 else 0

  count-and_zero : (p q : A → Bool) (xs : List A) → count p xs ≡ 0 → count (λ x. p x && q x) xs ≡ 0
  count-and_zero p q [] h = refl
  count-and_zero p q (x ∷ xs) h = ground (arith, count-and_zero p q xs)

  pub count_unique :
      (p q : A → Bool) (xs : List A)
      → count p xs ≤ 1
      → count (λ x. p x && q x) xs ≡ counted q (find p xs)
  count_unique p q [] h = refl
  count_unique p q (x ∷ xs) h = ground (arith, count_unique p q xs, count-and_zero p q xs)

  -- The row that is found after an update of the rows that pass a further test.
  abbrev pub updated : (A → Bool) → (A → A) → Option A → Option A
  updated q f none = none
  updated q f (some x) = some (if q x then f x else x)

  pub find-update_where :
      (p q : A → Bool) (f : A → A) (xs : List A)
      → ((x : A) → p (f x) ≡ p x)
      → find p (update_where (λ x. p x && q x) f xs) ≡ updated q f (find p xs)
  find-update_where p q f [] h = refl
  find-update_where p q f (x ∷ xs) h = ground (arith, find-update_where p q f xs h, h x)

  pub find-update_where_other :
      (p q : A → Bool) (f : A → A) (xs : List A)
      → ((x : A) → p (f x) ≡ p x)
      → ((x : A) → q x ≡ true → p x ≡ false)
      → find p (update_where q f xs) ≡ find p xs
  find-update_where_other p q f [] h k = refl
  find-update_where_other p q f (x ∷ xs) h k =
      ground (arith, find-update_where_other p q f xs h k, h x, k x)

  pub update_where_none :
      (p : A → Bool) (f : A → A) (xs : List A) → count p xs ≡ 0 → update_where p f xs ≡ xs
  update_where_none p f [] h = refl
  update_where_none p f (x ∷ xs) h = ground (arith, update_where_none p f xs)

  -- An appended row is found only where no earlier row is.
  abbrev pub or_else : Option A → Option A → Option A
  or_else none o = o
  or_else (some x) o = some x

  pub or_else-none : (o : Option A) → or_else o none ≡ o
  or_else-none none = refl
  or_else-none (some x) = refl

  pub find-append :
      (p : A → Bool) (xs ys : List A) → find p (xs ++ ys) ≡ or_else (find p xs) (find p ys)
  find-append p [] ys = refl
  find-append p (x ∷ xs) ys = ground (arith, find-append p xs ys)

  pub any-of-count : (p : A → Bool) (xs : List A) → count p xs ≡ 0 → any p xs ≡ false
  any-of-count p [] h = refl
  any-of-count p (x ∷ xs) h = ground (arith, any-of-count p xs)

module _ {ℓ κ} {A : Type ℓ} where
  abbrev pub All : (A → Type κ) → List A → Type κ
  All P [] = Unit
  All P (x ∷ xs) = P x × All P xs

  pub All-append : (P : A → Type κ) (xs ys : List A) → All P xs → All P ys → All P (xs ++ ys)
  All-append P [] ys h k = k
  All-append P (x ∷ xs) ys (p, h) k = (p, All-append P xs ys h k)

  pub All-imp : (P Q : A → Type κ) (xs : List A) → ((x : A) → P x → Q x) → All P xs → All Q xs
  All-imp P Q [] f h = tt
  All-imp P Q (x ∷ xs) f (p, h) = (f x p, All-imp P Q xs f h)

  -- A property that the update keeps of every row.
  pub All-update_where :
      (P : A → Type κ) (q : A → Bool) (f : A → A) (xs : List A)
      → ((x : A) → q x ≡ true → P x → P (f x))
      → All P xs
      → All P (update_where q f xs)
  All-update_where P q f [] k h = tt
  All-update_where P q f (x ∷ xs) k (p, h) = elim (Bool-cases (q x)) [
    | inl passes ↦ (rw passes (k x passes p), All-update_where P q f xs k h)
    | inr fails ↦ (rw fails p, All-update_where P q f xs k h)
  ]

  pub All-find :
      (P : A → Type κ) (p : A → Bool) (xs : List A) (x : A) → All P xs → find p xs ≡ some x → P x
  All-find P p [] x h e = absurd (ground arith)
  All-find P p (y ∷ ys) x (k, h) e = elim (Bool-cases (p y)) [
    | inl passes ↦ let same : y ≡ x = ground arith in subst P same k
    | inr fails ↦ All-find P p ys x h (ground arith)
  ]

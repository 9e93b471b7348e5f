-- ===== src/Common/Arranged.antt =====
-- Lists with the same items in another order.
use mathlib.Core.Path.{◌≡◌, refl, ◌∙◌}
use mathlib.Core.Logic.{inl, inr}
use mathlib.Core.Bool.{Bool}
use mathlib.Core.List.{List, ◌∷◌, Permᴰ}
use mathlib.Core.List.Permᴰ.{nil, cons, swap, trans}
use mathlib.Core.List.Permᴰ as Permᴰ
use native.Mathlib.Omega.{arith}
use content_approval.Common.Tests.{Bool-cases, if◌then◌else◌}
use content_approval.Common.Lists.{count, filter, any}

pub count-Perm {ℓ} :
    {A : Type ℓ} (p : A → Bool) {xs ys : List A} → Permᴰ xs ys → count p xs ≡ count p ys
count-Perm p nil = refl
count-Perm p (cons e d) = rw (e, count-Perm p d) refl
count-Perm p (swap {l = l} e f) = rw (e, f) (omega arith)
count-Perm p (trans d e) = count-Perm p d ∙ count-Perm p e

pub any-Perm {ℓ} : {A : Type ℓ} (p : A → Bool) {xs ys : List A} → Permᴰ xs ys → any p xs ≡ any p ys
any-Perm p nil = refl
any-Perm p (cons e d) = rw (e, any-Perm p d) refl
any-Perm p (swap {a'} {b'} {l} e f) = elim (Bool-cases (p a')) [
  | inl first ↦ rw (e, f, first) (grind arith)
  | inr other ↦ rw (e, f, other) refl
]
any-Perm p (trans d e) = any-Perm p d ∙ any-Perm p e

pub filter-Perm {ℓ} :
    {A : Type ℓ} (p : A → Bool) {xs ys : List A} → Permᴰ xs ys → Permᴰ (filter p xs) (filter p ys)
filter-Perm p nil = nil
filter-Perm p (cons {b} e d) = elim (Bool-cases (p b)) [
  | inl kept ↦ rw (e, kept) (cons refl (filter-Perm p d))
  | inr left ↦ rw (e, left) (filter-Perm p d)
]
filter-Perm p (swap {a'} {b'} {l} e f) = elim (Bool-cases (p a')) [
  | inl first ↦ elim (Bool-cases (p b')) [
    | inl second ↦ rw (e, f, first, second) (swap refl refl)
    | inr left ↦ rw (e, f, first, left) (Permᴰ.refl (a' ∷ filter p l))
  ]
  | inr left ↦ rw (e, f, left) (Permᴰ.refl (if p b' then b' ∷ filter p l else filter p l))
]
filter-Perm p (trans d e) = trans (filter-Perm p d) (filter-Perm p e)

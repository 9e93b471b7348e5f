-- ===== src/Db/Repository/Page/Order.antt =====
-- The ORDER BY of `list` in app/db/repository.py puts rows in one order, whatever order the table has.
use mathlib.Core.List.{Permᴰ}
use mathlib.Core.List.Permᴰ.{nil, cons, swap, trans}
use content_approval.Common.{
  ◌≤◌, String, ◌≡◌, refl, sym, ap, ◌∙◌, true, false, ◌==◌, ◌⊎◌, eq_iff, eq_refl, List, [], ◌∷◌,
  count, Bool-cases, inl, inr, arith, count-Perm, text_ge, lexical, lexical_trans, lexical_total,
  lexical-eq, text_ge_trans, text_ge_total, text_ge_antisym,
}
use content_approval.Db.Models.{ApprovalRequestRow}
use content_approval.Db.Repository.Page.{precedes, insert_newest, newest_first}
use content_approval.Db.Repository.Page.Sorted.{time}

precedes_lem :
    (a b : ApprovalRequestRow) → precedes a b ≡ lexical (time a) (time b) (text_ge a.id b.id)
precedes_lem a b = ground arith

precedes_trans :
    (a b c : ApprovalRequestRow) → precedes a b ≡ true → precedes b c ≡ true → precedes a c ≡ true
precedes_trans a b c ab bc =
    precedes_lem a c
    ∙ lexical_trans (time a) (time b) (time c) _ _ _ (text_ge_trans a.id b.id c.id)
        (sym (precedes_lem a b) ∙ ab) (sym (precedes_lem b c) ∙ bc)

precedes_total : (a b : ApprovalRequestRow) → precedes a b ≡ false → precedes b a ≡ true
precedes_total a b ab =
    precedes_lem b a
    ∙ lexical_total (time a) (time b) _ _ (text_ge_total a.id b.id) (sym (precedes_lem a b) ∙ ab)

precedes_antisym :
    (a b : ApprovalRequestRow) → precedes a b ≡ true → precedes b a ≡ true → a.id ≡ b.id
precedes_antisym a b ab ba =
    let (_, further, back) =
      lexical-eq (time a) (time b) (text_ge a.id b.id) (text_ge b.id a.id)
        (sym (precedes_lem a b) ∙ ab) (sym (precedes_lem b a) ∙ ba) in
    text_ge_antisym a.id b.id further back

-- Of two rows with other identifiers one comes first.
one_first :
    (a b : ApprovalRequestRow)
    → (a.id == b.id) ≡ false
    → ((precedes a b ≡ true) × (precedes b a ≡ false))
      ⊎ ((precedes a b ≡ false) × (precedes b a ≡ true))
one_first a b apart = elim (Bool-cases (precedes a b)) [
  | inr ab ↦ inr (ab, precedes_total a b ab)
  | inl ab ↦ elim (Bool-cases (precedes b a)) [
    | inr ba ↦ inl (ab, ba)
    | inl ba ↦ absurd (cc ((eq_iff a.id b.id).1 (precedes_antisym a b ab ba), apart))
  ]
]

-- A row that stands after `x` does not come before one that stands before it.
no_cycle :
    (a b x : ApprovalRequestRow) → precedes b x ≡ true → precedes a x ≡ false → precedes a b ≡ false
no_cycle a b x bx ax = elim (Bool-cases (precedes a b)) [
  | inr ab ↦ ab
  | inl ab ↦ absurd (cc (precedes_trans a b x ab bx, ax))
]

-- Two rows with other identifiers can be inserted in either order.
insert-insert :
    (a b : ApprovalRequestRow) (xs : List ApprovalRequestRow)
    → (a.id == b.id) ≡ false
    → insert_newest a (insert_newest b xs) ≡ insert_newest b (insert_newest a xs)
unfolding insert_newest
insert-insert a b [] apart = elim (one_first a b apart) [
  | inl (ab, ba) ↦ rw (ab, ba) refl
  | inr (ab, ba) ↦ rw (ab, ba) refl
]
insert-insert a b (x ∷ xs) apart =
    let rest = insert-insert a b xs apart in
    elim (Bool-cases (precedes a x)) [
      | inl ax ↦ elim (Bool-cases (precedes b x)) [
        | inl bx ↦ elim (one_first a b apart) [
          | inl (ab, ba) ↦ rw (ax, bx, ab, ba) refl
          | inr (ab, ba) ↦ rw (ax, bx, ab, ba, ax) refl
        ]
        | inr bx ↦ rw (ax, bx, no_cycle b a x ax bx, ax) refl
      ]
      | inr ax ↦ elim (Bool-cases (precedes b x)) [
        | inl bx ↦ rw (ax, bx, no_cycle a b x bx ax, ax) refl
        | inr bx ↦ rw (ax, bx, ax) (ap (λ r. x ∷ r) rest)
      ]
    ]

-- No two rows with one identifier.
abbrev pub IsUnique : List ApprovalRequestRow → Type 0
IsUnique xs = (id : String) → count (λ r. r.id == id) xs ≤ 1

apart :
    (a b : ApprovalRequestRow) (xs : List ApprovalRequestRow)
    → IsUnique (a ∷ b ∷ xs)
    → (a.id == b.id) ≡ false
apart a b xs unique = ground (arith, unique a.id, eq_refl a.id, eq_iff a.id b.id, eq_iff b.id a.id)

pub newest_first-Perm :
    {xs ys : List ApprovalRequestRow}
    → Permᴰ xs ys
    → IsUnique xs
    → newest_first xs ≡ newest_first ys
unfolding newest_first
newest_first-Perm nil unique = refl
newest_first-Perm (cons {b} e d) unique =
    rw e (ap (insert_newest b) (newest_first-Perm d (λ id. omega (arith, unique id))))
newest_first-Perm (swap {a'} {b'} {l} e f) unique =
    rw (e, f) (insert-insert b' a' (newest_first l) (apart b' a' l (λ id. rw (e, f) at unique id)))
newest_first-Perm (trans d e) unique =
    newest_first-Perm d unique
    ∙ newest_first-Perm e (λ id. omega (arith, unique id, count-Perm (λ r. r.id == id) d))

-- ===== src/Api/Schemas/Accepted.antt =====
-- Which bodies the validators of app/schemas/approval_request.py let through.
use Prim.Native.String.{count}
use content_approval.Common.{
  ℕ, zero, suc, ◌≤◌, String, ◌≡◌, refl, sym, ap, ◌∙◌, ◌↔◌, true, false, ◌==◌, eq_iff, Option, none,
  some, List, map, any, leb, arith,
}
use content_approval.Api.Schemas.Validation.{
  strip, within, strip_non_blank, has_duplicate, validate_reviewer_ids, ◌>>=◌, optional_within,
  ApprovalRequestCreate, validate_create,
}
use content_approval.Api.Schemas.Laws.{
  IsText, IsValid, length_of, strip-shorter, validate_create-IsValid,
}
use text.Mathlib.TextLemmas.{length-eq-zero_iff}

told : (s : String) → (s == "") ≡ false → 1 ≤ count s
told s inked = by_count (count s) refl
  where
    by_count : (n : ℕ) → count s ≡ n → 1 ≤ count s
    by_count zero none_left = absurd (cc (inked, (eq_iff s "").1 (length-eq-zero_iff.0 none_left)))
    by_count (suc n) some_left = omega (arith, some_left)

within-holds :
    (most : ℕ) (raw : String) → 1 ≤ count raw → count raw ≤ most → within 1 most raw ≡ some raw
within-holds most raw low high = ground arith

strip_non_blank-holds :
    (raw s : String) → s ≡ strip raw → (s == "") ≡ false → strip_non_blank raw ≡ some s
unfolding strip_non_blank
strip_non_blank-holds raw s same inked =
    let inked_raw : (strip raw == "") ≡ false = ap (λ x. x == "") (sym same) ∙ inked in
    rw inked_raw (ap some (sym same))

IsText-holds :
    (most : ℕ) (raw s : String)
    → IsText most raw s
    → (within 1 most raw >>= strip_non_blank) ≡ some s
IsText-holds most raw s h =
    let long : 1 ≤ count raw =
      omega (arith, told s h.not_blank, strip-shorter raw, ap count h.stripped) in
    rw (within-holds most raw long h.came) (strip_non_blank-holds raw s h.stripped h.not_blank)

optional_within-holds :
    (most : ℕ) (s t : Option String) → t ≡ s → length_of s ≤ most → optional_within most s ≡ some t
optional_within-holds most none t same short = ap some (sym same)
optional_within-holds most (some s) t same short =
    let fits : leb (count s) most ≡ true = ground arith in rw fits (ap some (sym same))

reviewers-hold :
    (ids kept : List String)
    → kept ≡ map strip ids
    → any (λ v. v == "") kept ≡ false
    → has_duplicate kept ≡ false
    → validate_reviewer_ids ids ≡ some kept
unfolding validate_reviewer_ids
reviewers-hold ids kept same inked distinct = rw (sym same, inked, distinct) refl

-- A creation body is let through as another one exactly when: the source identifier and the title are
-- the stripped ones that came, not blank, and came with at most 200 and 300 characters; the source
-- type is the one that came; the description is the one that came and has at most 10000 characters;
-- and the reviewers are the stripped ones that came, none blank and none twice.
pub validate_create_iff : (p q : ApprovalRequestCreate) → (validate_create p ≡ some q) ↔ IsValid p q
unfolding validate_create
validate_create_iff p q = (
  validate_create-IsValid p q,
  λ h.
      rw
        (
          IsText-holds 200 p.source_id q.source_id h.source_id,
          IsText-holds 300 p.title q.title h.title,
          optional_within-holds 10000 p.description q.description h.description.0 h.description.1,
          reviewers-hold p.reviewer_user_ids q.reviewer_user_ids h.reviewers h.no_blank
              h.no_duplicate,
        )
        (ap (λ t. some (record q { source_type = t })) (sym h.source_type)),
)

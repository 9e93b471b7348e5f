-- ===== src/Api/Schemas/Laws.antt =====
-- What the validators of app/schemas/approval_request.py let through.
use Prim.Native.Char.{Char, code}
use Prim.Native.String.{count}
use text.Mathlib.TextLemmas.{length-cons}
use content_approval.Common.{
  ℕ, suc, ◌≤◌, String, ◌≡◌, refl, sym, ap, ◌∙◌, Bool, true, false, ◌==◌, ◌||◌, Option, none, some,
  List, map, any, Bool-cases, inl, inr, arith, if◌then◌else◌,
}
use content_approval.Domain.Enums.{SourceType}
use content_approval.Api.Schemas.Validation.{
  is_space, lstrip, keep, rstrip, strip, within, strip_non_blank, has_duplicate,
  validate_reviewer_ids, ◌>>=◌, optional_within, ApprovalRequestCreate, validate_create,
}

lstrip-shorter : (s : String) → count (lstrip s) ≤ count s
unfolding lstrip
lstrip-shorter String.[] = omega arith
lstrip-shorter (String.◌∷◌ c s) = elim (Bool-cases (is_space (code c))) [
  | inl blank ↦ rw (blank, length-cons c s) (omega (arith, lstrip-shorter s))
  | inr ink ↦ rw ink (omega arith)
]

keep-longer : (c : Char) (s : String) → count (keep c s) ≤ suc (count s)
keep-longer c String.[] = elim (Bool-cases (is_space (code c))) [
  | inl blank ↦ rw blank (omega arith)
  | inr ink ↦ rw (ink, length-cons c "") (omega arith)
]
keep-longer c (String.◌∷◌ d s) = rw (length-cons c (String.◌∷◌ d s)) (omega arith)

rstrip-shorter : (s : String) → count (rstrip s) ≤ count s
unfolding rstrip
rstrip-shorter String.[] = omega arith
rstrip-shorter (String.◌∷◌ c s) =
    let shorter = rstrip-shorter s in
    let longer = keep-longer c (rstrip s) in rw (length-cons c s) (omega (arith, shorter, longer))

pub strip-shorter : (s : String) → count (strip s) ≤ count s
unfolding strip
strip-shorter s = omega (arith, rstrip-shorter (lstrip s), lstrip-shorter s)

-- A text that came stripped, not blank, and within its bound.
pub record IsText (most : ℕ) (raw s : String) : Type 0 where
  pub stripped : s ≡ strip raw
  pub not_blank : (s == "") ≡ false
  pub bounded : count s ≤ most
  pub came : count raw ≤ most

bind-some {ℓ κ} :
    {A : Type ℓ} {B : Type κ} (o : Option A) (k : A → Option B) (b : B)
    → (o >>= k) ≡ some b
    → (a : A) × (o ≡ some a) × (k a ≡ some b)
bind-some none k b h = cc
bind-some (some a) k b h = (a, refl, h)

within-some :
    (least most : ℕ) (s t : String) → within least most s ≡ some t → (t ≡ s) × (count s ≤ most)
within-some least most s t h = ground arith

strip_non_blank-some :
    (s t : String) → strip_non_blank s ≡ some t → (t ≡ strip s) × ((t == "") ≡ false)
unfolding strip_non_blank
strip_non_blank-some s t h = ground arith

within-IsText :
    (most : ℕ) (s t : String) → (within 1 most s >>= strip_non_blank) ≡ some t → IsText most s t
within-IsText most s t h =
    let (u, inside, rest) = bind-some (within 1 most s) strip_non_blank t h in
    let (same, bound) = within-some 1 most s u inside in
    let (stripped, inked) = strip_non_blank-some u t rest in
    record {
      stripped = stripped ∙ ap strip same;
      not_blank = inked;
      bounded = rw (stripped, same) (omega (arith, strip-shorter s, bound));
      came = bound;
    }

-- The length of an optional text, 0 where there is none.
abbrev pub length_of : Option String → ℕ
length_of none = 0
length_of (some s) = count s

optional_within-some :
    (most : ℕ) (s t : Option String)
    → optional_within most s ≡ some t
    → (t ≡ s) × (length_of s ≤ most)
optional_within-some most none t h = (ground arith, omega arith)
optional_within-some most (some s) t h = (ground arith, ground arith)

validate_reviewer_ids-some :
    (ids kept : List String)
    → validate_reviewer_ids ids ≡ some kept
    → (kept ≡ map strip ids) × (any (λ v. v == "") kept ≡ false) × (has_duplicate kept ≡ false)
unfolding validate_reviewer_ids
validate_reviewer_ids-some ids kept h =
    of_tests (any (λ v. v == "") (map strip ids)) (has_duplicate (map strip ids)) refl refl h
  where
    of_tests :
        (b c : Bool)
        → any (λ v. v == "") (map strip ids) ≡ b
        → has_duplicate (map strip ids) ≡ c
        → (if b || c then none else some (map strip ids)) ≡ some kept
        → (kept ≡ map strip ids) × (any (λ v. v == "") kept ≡ false) × (has_duplicate kept ≡ false)
    of_tests true c blank twice e = cc
    of_tests false true blank twice e = cc
    of_tests false false blank twice e =
        let same : map strip ids ≡ kept = ground arith in
        (sym same, rw (sym same) blank, rw (sym same) twice)

-- What a body that was let through looks like, beside the one that came.
pub record IsValid (p q : ApprovalRequestCreate) : Type 0 where
  pub source_type : q.source_type ≡ p.source_type
  pub source_id : IsText 200 p.source_id q.source_id
  pub title : IsText 300 p.title q.title
  pub description : (q.description ≡ p.description) × (length_of p.description ≤ 10000)
  pub reviewers : q.reviewer_user_ids ≡ map strip p.reviewer_user_ids
  pub no_blank : any (λ v. v == "") q.reviewer_user_ids ≡ false
  pub no_duplicate : has_duplicate q.reviewer_user_ids ≡ false

-- The body that four validated fields make.
parts :
    (t : SourceType) (a b : Option String) (c : Option (Option String)) (e : Option (List String))
    (q : ApprovalRequestCreate)
    → (do
      source_id ← a
      title ← b
      description ← c
      reviewer_user_ids ← e
      some (record {
        source_type = t;
        source_id = source_id;
        title = title;
        description = description;
        reviewer_user_ids = reviewer_user_ids;
      }))
      ≡ some q
    → (q.source_type ≡ t)
      × (a ≡ some q.source_id)
      × (b ≡ some q.title)
      × (c ≡ some q.description)
      × (e ≡ some q.reviewer_user_ids)
parts t none b c e q h = cc
parts t (some x) none c e q h = cc
parts t (some x) (some y) none e q h = cc
parts t (some x) (some y) (some z) none q h = cc
parts t (some x) (some y) (some z) (some v) q h =
    (ground arith, ground arith, ground arith, ground arith, ground arith)

pub validate_create-IsValid :
    (p q : ApprovalRequestCreate) → validate_create p ≡ some q → IsValid p q
unfolding validate_create
validate_create-IsValid p q h =
    let (kind, source, title, description, reviewers) =
      parts p.source_type (within 1 200 p.source_id >>= strip_non_blank)
        (within 1 300 p.title >>= strip_non_blank) (optional_within 10000 p.description)
        (validate_reviewer_ids p.reviewer_user_ids) q h in
    let (listed, inked, distinct) =
      validate_reviewer_ids-some p.reviewer_user_ids q.reviewer_user_ids reviewers in
    record {
      source_type = kind;
      source_id = within-IsText 200 p.source_id q.source_id source;
      title = within-IsText 300 p.title q.title title;
      description = optional_within-some 10000 p.description q.description description;
      reviewers = listed;
      no_blank = inked;
      no_duplicate = distinct;
    }

-- ===== src/Api/Schemas/Validation.antt =====
-- The fields and validators of app/schemas/approval_request.py, on values that already have their types.
use Prim.Native.Char.{Char, code}
use Prim.Native.String.{count}
use content_approval.Common.{
  ℕ, String, Bool, false, ◌||◌, ◌&&◌, ◌==◌, leb, nat_eq, Option, none, some, List, [], ◌∷◌, map,
  any, if◌then◌else◌,
}
use content_approval.Domain.Enums.{SourceType}

-- `str.isspace` of one character.
abbrev pub is_space : ℕ → Bool
is_space c =
    leb 9 c && leb c 13
    || leb 28 c && leb c 32
    || nat_eq c 0x85
    || nat_eq c 0xa0
    || nat_eq c 0x1680
    || leb 0x2000 c && leb c 0x200a
    || nat_eq c 0x2028
    || nat_eq c 0x2029
    || nat_eq c 0x202f
    || nat_eq c 0x205f
    || nat_eq c 0x3000

unfoldable pub lstrip : String → String
lstrip String.[] = ""
lstrip (String.◌∷◌ c s) = let rest = lstrip s in if is_space (code c) then rest else String.◌∷◌ c s

-- A character, before what is left of the text after it.
abbrev pub keep : Char → String → String
keep c String.[] = if is_space (code c) then "" else String.◌∷◌ c ""
keep c (String.◌∷◌ d s) = String.◌∷◌ c (String.◌∷◌ d s)

unfoldable pub rstrip : String → String
rstrip String.[] = ""
rstrip (String.◌∷◌ c s) = keep c (rstrip s)

-- `str.strip`
unfoldable pub strip : String → String
unfolding lstrip rstrip
strip s = rstrip (lstrip s)

-- `Field(min_length=…, max_length=…)`; a length counts code points.
abbrev pub within : ℕ → ℕ → String → Option String
within least most s = if leb least (count s) && leb (count s) most then some s else none

-- `_strip_and_require_non_blank`
unfoldable pub strip_non_blank : String → Option String
unfolding strip
strip_non_blank value = let stripped = strip value in if stripped == "" then none else some stripped

infixl 5 ◌>>=◌
abbrev pub ◌>>=◌ {ℓ κ} : {A : Type ℓ} {B : Type κ} → Option A → (A → Option B) → Option B
none >>= k = none
some a >>= k = k a

-- `len(stripped) != len(set(stripped))`
abbrev pub has_duplicate : List String → Bool
has_duplicate [] = false
has_duplicate (x ∷ xs) = any (λ y. y == x) xs || has_duplicate xs

-- `_validate_reviewer_ids`
unfoldable pub validate_reviewer_ids : List String → Option (List String)
unfolding strip
validate_reviewer_ids value =
    let stripped = map strip value in
    if any (λ v. v == "") stripped || has_duplicate stripped then none else some stripped

abbrev pub optional_within : ℕ → Option String → Option (Option String)
optional_within most none = some none
optional_within most (some s) = if leb (count s) most then some (some s) else none

pub record ApprovalRequestCreate : Type 0 where
  pub source_type : SourceType
  pub source_id : String
  pub title : String
  pub description : Option String
  pub reviewer_user_ids : List String

-- The declared bounds are checked on the text that came, the validators run after them.
unfoldable pub validate_create : ApprovalRequestCreate → Option ApprovalRequestCreate
unfolding strip_non_blank validate_reviewer_ids
validate_create p = do
  source_id ← within 1 200 p.source_id >>= strip_non_blank
  title ← within 1 300 p.title >>= strip_non_blank
  description ← optional_within 10000 p.description
  reviewer_user_ids ← validate_reviewer_ids p.reviewer_user_ids
  some (record {
    source_type = p.source_type;
    source_id = source_id;
    title = title;
    description = description;
    reviewer_user_ids = reviewer_user_ids;
  })

-- `ApproveRequest.comment`
unfoldable pub validate_comment : Option String → Option (Option String)
validate_comment = optional_within 2000

-- `DecisionReasonRequest.reason`
unfoldable pub validate_reason : String → Option String
unfolding strip_non_blank
validate_reason reason = within 1 2000 reason >>= strip_non_blank

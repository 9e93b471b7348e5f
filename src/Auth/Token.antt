-- ===== src/Auth/Token.antt =====
-- app/auth/stub.py: `encode_bearer_token`, and the header that it makes read by the stub provider.
use Prim.Native.Char.{code}
use Prim.Native.String
use Prim.Native.String.{count}
use text.Mathlib.TextLemmas.{length-append, cons-append, nil-append}
use content_approval.Common.{
  ℕ, suc, ◌+◌, ◌-◌, ◌%◌, ◌≤◌, String, ◌≡◌, refl, sym, ap, ◌∙◌, Bool, true, false, ◌&&◌, ◌||◌,
  Bool-cases, inl, inr, ◌==◌, eq_iff, nat_eq, leb, Option, none, some, List, [], ◌∷◌, if◌then◌else◌,
  map, arith,
}
use content_approval.Auth.{Action, action_value, valid}
use content_approval.Auth.Stub.{
  TokenLibrary, fields, padded, equal_signs, partition_space, authenticate,
}
use content_approval.Auth.Laws.{count-equal_signs}

-- `Action(a)`, where a member of the enumeration is the same as its text.
abbrev pub action_of : String → Option Action
action_of a =
    if a == "approval:read"
    then some Action.read
    else if a == "approval:create"
    then some Action.create
    else if a == "approval:decide"
    then some Action.decide
    else if a == "approval:cancel"
    then some Action.cancel
    else none

-- `Action(a) for a in actions`; `none` is the `ValueError` of a text that is no action.
abbrev pub with_action : Option Action → Option (List Action) → Option (List Action)
with_action (some action) (some actions) = some (action ∷ actions)
with_action _ _ = none

unfoldable pub actions_of : List String → Option (List Action)
actions_of [] = some []
actions_of (a ∷ actions) = with_action (action_of a) (actions_of actions)

-- `rstrip("=")`
unfoldable pub rstrip_equals : String → String
rstrip_equals String.[] = ""
rstrip_equals (String.◌∷◌ c s) =
    let rest = rstrip_equals s in
    if String.◌∷◌ c "" == "=" && rest == "" then "" else String.◌∷◌ c rest

-- `json.dumps` of the payload in UTF-8, and `base64.urlsafe_b64encode` in ASCII.
pub record TokenWriter : Type 0 where
  pub dumps : String → String → List String → List ℕ
  pub urlsafe_b64encode : List ℕ → String

abbrev pub bearer : TokenWriter → String → String → Option (List Action) → Option String
bearer writer workspace_id user_id none = none
bearer writer workspace_id user_id (some actions) = some (
    String.◌++◌ "Bearer " (
      rstrip_equals
        (writer.urlsafe_b64encode (writer.dumps workspace_id user_id (map action_value actions)))))

unfoldable pub encode_bearer_token : TokenWriter → String → String → List String → Option String
unfolding actions_of rstrip_equals
encode_bearer_token writer workspace_id user_id actions =
    bearer writer workspace_id user_id (actions_of actions)

-- A text is what `rstrip` leaves and the signs that it takes away.
rstrip-append : (e : String) → (k : ℕ) × (e ≡ String.◌++◌ (rstrip_equals e) (equal_signs k))
unfolding rstrip_equals
rstrip-append String.[] = (0, refl)
rstrip-append (String.◌∷◌ c s) =
    let (k, e) = rstrip-append s in
    elim (Bool-cases (String.◌∷◌ c "" == "=" && rstrip_equals s == "")) [
      | inr kept ↦ (
        k,
        rw kept
            (ap (λ r. String.◌∷◌ c r) e ∙ sym (cons-append c (rstrip_equals s) (equal_signs k))),
      )
      | inl gone ↦
          let sign : (String.◌∷◌ c "" == "=") ≡ true = ground arith in
          let bare : (rstrip_equals s == "") ≡ true = ground arith in
          (
            suc k,
            rw gone (
                ap (λ r. String.◌∷◌ c r)
                  (e
                    ∙ ap (λ r. String.◌++◌ r (equal_signs k))
                        ((eq_iff (rstrip_equals s) "").0 bare))
                ∙ sym (cons-append c "" (equal_signs k))
                ∙ ap (λ r. String.◌++◌ r (equal_signs k)) ((eq_iff (String.◌∷◌ c "") "=").0 sign)
                ∙ sym (nil-append (equal_signs (suc k)))),
          )
    ]

-- A space stands in the text.
abbrev has_space : String → Bool
has_space String.[] = false
has_space (String.◌∷◌ c s) = nat_eq (code c) 32 || has_space s

partition-append :
    (s t : String)
    → has_space s ≡ true
    → partition_space (String.◌++◌ s t)
      ≡ ((partition_space s).0, String.◌++◌ (partition_space s).1 t)
unfolding partition_space
partition-append String.[] t h = cc
partition-append (String.◌∷◌ c s) t h = elim (Bool-cases (nat_eq (code c) 32)) [
  | inl space ↦ rw (cons-append c s t, space)
  | inr other ↦ rw (cons-append c s t, other, partition-append s t (ground arith))
]

bearer-partition : (t : String) → partition_space (String.◌++◌ "Bearer " t) ≡ ("Bearer", t)
unfolding partition_space
bearer-partition t = partition-append "Bearer " t refl ∙ ap (λ r. ("Bearer", r)) (nil-append t)

padding : (n k : ℕ) → (n + k) % 4 ≡ 0 → k ≤ 3 → (4 - n % 4) % 4 ≡ k
padding n k whole few = omega (arith, whole, few)

-- What base64 promises of the token of some bytes: whole groups of four signs, at most three of padding, at
-- least a sign that is no padding, and that it is decoded to the bytes.
pub record IsBase64 (lib : TokenLibrary) (raw : List ℕ) (e : String) : Type 0 where
  pub groups : count e % 4 ≡ 0
  pub few : count e ≤ count (rstrip_equals e) + 3
  pub told : 1 ≤ count (rstrip_equals e)
  pub decodes : lib.urlsafe_b64decode e ≡ some raw

padded-rstrip :
    (e : String)
    → count e % 4 ≡ 0
    → count e ≤ count (rstrip_equals e) + 3
    → padded (rstrip_equals e) ≡ e
unfolding padded
padded-rstrip e groups few =
    let (k, parts) = rstrip-append e in
    let size : count e ≡ count (rstrip_equals e) + k =
      ap count parts
      ∙ length-append (rstrip_equals e) (equal_signs k)
      ∙ ap (λ n. count (rstrip_equals e) + n) (count-equal_signs k) in
    let signs =
      padding (count (rstrip_equals e)) k (ap (λ n. n % 4) (sym size) ∙ groups)
        (omega (arith, size, few)) in
    ap (λ n. String.◌++◌ (rstrip_equals e) (equal_signs n)) signs ∙ sym parts

-- A token with a sign is not empty.
not_empty : (t : String) → 1 ≤ count t → (t == "") ≡ false
not_empty t told = elim (Bool-cases (t == "")) [
  | inr other ↦ other
  | inl same ↦ absurd (omega (arith, told, ap count ((eq_iff t "").0 same)))
]

leb_of : (n : ℕ) → 1 ≤ n → leb 1 n ≡ true
leb_of n h = ground arith

module _ (lib : TokenLibrary) (writer : TokenWriter) (ws user : String) (texts : List String) where
  -- For texts that name actions, and a workspace and a user that are not empty: the header that
  -- encode_bearer_token makes is authenticated by the stub provider as that principal. It is assumed
  -- of base64 that the token has whole groups of four signs, at most three of padding and one that is
  -- none, and is decoded to the bytes; of json that the bytes are read back; and of casefold that
  -- Bearer becomes bearer.
  pub authenticate-encode_bearer_token :
      (actions : List Action)
      → actions_of texts ≡ some actions
      → lib.casefold "Bearer" ≡ "bearer"
      → IsBase64 lib
          (writer.dumps ws user (map action_value actions))
          (writer.urlsafe_b64encode (writer.dumps ws user (map action_value actions)))
      → lib.load (writer.dumps ws user (map action_value actions)) ≡ fields ws user actions
      → 1 ≤ count ws
      → 1 ≤ count user
      → (header : String) × (encode_bearer_token writer ws user texts ≡ some header)
        × (authenticate lib (some header)
            ≡ valid (record { workspace_id = ws; user_id = user; actions = actions }))
  unfolding encode_bearer_token authenticate
  authenticate-encode_bearer_token actions known folds encoded loads named owned =
      let e = writer.urlsafe_b64encode (writer.dumps ws user (map action_value actions)) in
      (
        String.◌++◌ "Bearer " (rstrip_equals e),
        rw known,
        rw
            (
              bearer-partition (rstrip_equals e),
              folds,
              not_empty (rstrip_equals e) encoded.told,
              padded-rstrip e encoded.groups encoded.few,
              encoded.decodes,
              loads,
            )
            (rw (leb_of (count ws) named, leb_of (count user) owned)),
      )

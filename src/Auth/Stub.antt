-- ===== src/Auth/Stub.antt =====
-- app/auth/stub.py: `StubAuthProvider.authenticate`.
use Prim.Native.Char.{code}
use Prim.Native.String
use Prim.Native.String.{count}
use content_approval.Common.{
  ℕ, zero, suc, ◌-◌, ◌%◌, String, not, ◌||◌, ◌==◌, nat_eq, leb, Option, none, some, List,
  if◌then◌else◌,
}
use content_approval.Auth.{Action, Principal, Credentials, valid, invalid, AuthProvider}

-- `partition(" ")`: what stands before the first space and what stands after it.
unfoldable pub partition_space : String → String × String
partition_space String.[] = ("", "")
partition_space (String.◌∷◌ c s) =
    let (before, after) = partition_space s in
    if nat_eq (code c) 32 then ("", s) else (String.◌∷◌ c before, after)

abbrev pub equal_signs : ℕ → String
equal_signs zero = ""
equal_signs (suc n) = String.◌++◌ "=" (equal_signs n)

-- `token + "=" * (-len(token) % 4)`
unfoldable pub padded : String → String
padded token = String.◌++◌ token (equal_signs ((4 - count token % 4) % 4))

-- What `json.loads` and pydantic's typing make of the decoded bytes.
pub data Loaded : Type 0 where
  malformed mistyped : Loaded
  fields : String → String → List Action → Loaded

-- `str.casefold`, `base64.urlsafe_b64decode` of the ASCII text, where a `ValueError` is `none`, and
-- the reading of the bytes.
pub record TokenLibrary : Type 0 where
  pub casefold : String → String
  pub urlsafe_b64decode : String → Option (List ℕ)
  pub load : List ℕ → Loaded

-- `Field(min_length=1)` of app/auth/models.py
abbrev pub model_validate : Loaded → Option Principal
model_validate (fields workspace_id user_id actions) =
    if leb 1 (count workspace_id)
    then if leb 1 (count user_id)
      then some (record { workspace_id = workspace_id; user_id = user_id; actions = actions })
      else none
    else none
model_validate _ = none

abbrev pub or_malformed : Option Principal → Credentials
or_malformed none = invalid "Malformed bearer token"
or_malformed (some p) = valid p

abbrev pub load_token : TokenLibrary → Option (List ℕ) → Credentials
load_token lib none = invalid "Malformed bearer token"
load_token lib (some bytes) = or_malformed (model_validate (lib.load bytes))

unfoldable pub authenticate : TokenLibrary → Option String → Credentials
unfolding partition_space padded
authenticate lib none = invalid "Missing Authorization header"
authenticate lib (some header) =
    let (scheme, token) = partition_space header in
    if not (lib.casefold scheme == "bearer") || token == ""
    then invalid "Authorization header must be 'Bearer <token>'"
    else load_token lib (lib.urlsafe_b64decode (padded token))

abbrev pub stub_provider : TokenLibrary → AuthProvider
stub_provider lib = record { authenticate = authenticate lib }

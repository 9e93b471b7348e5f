-- ===== src/Tests/Tokens.antt =====
-- A bearer token made and read: the theorem of Auth/Token at work.
use content_approval.Common.{String, ◌==◌, ◌≡◌, refl, some, none, [], ◌∷◌, if◌then◌else◌, arith}
use content_approval.Auth.{Action, valid}
use content_approval.Auth.Stub.{TokenLibrary, fields, authenticate}
use content_approval.Auth.Token.{
  TokenWriter, encode_bearer_token, rstrip_equals, actions_of, IsBase64,
  authenticate-encode_bearer_token,
}

abbrev reader : TokenLibrary
reader = record {
  casefold = λ s. if s == "Bearer" then "bearer" else s;
  urlsafe_b64decode = λ s. if s == "e30=" then some (123 ∷ 125 ∷ []) else none;
  load = λ bytes. fields "acme" "ann" (Action.read ∷ Action.decide ∷ []);
}

abbrev writer : TokenWriter
writer = record { dumps = λ ws user values. 123 ∷ 125 ∷ []; urlsafe_b64encode = λ bytes. "e30=" }

e30-IsBase64 : IsBase64 reader (123 ∷ 125 ∷ []) "e30="
unfolding rstrip_equals
e30-IsBase64 = record { groups = refl; few = omega arith; told = omega arith; decodes = refl }

known :
    actions_of ("approval:read" ∷ "approval:decide" ∷ []) ≡ some (Action.read ∷ Action.decide ∷ [])
unfolding actions_of
known = refl

authenticate-encode_bearer_token_example :
    (header : String) × (encode_bearer_token writer "acme" "ann"
        ("approval:read" ∷ "approval:decide" ∷ [])
      ≡ some header)
    × (authenticate reader (some header)
        ≡ valid (record {
          workspace_id = "acme";
          user_id = "ann";
          actions = Action.read ∷ Action.decide ∷ [];
        }))
authenticate-encode_bearer_token_example =
    authenticate-encode_bearer_token reader writer "acme" "ann"
      ("approval:read" ∷ "approval:decide" ∷ []) (Action.read ∷ Action.decide ∷ []) known refl
      e30-IsBase64 refl (omega arith) (omega arith)

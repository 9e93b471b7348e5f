-- ===== src/Auth.antt =====
-- app/auth: the principal, the provider interface and the checks in front of every route.
pub mod Stub
pub mod Token
pub mod Laws
use content_approval.Common.{
  String, Bool, true, false, not, ◌==◌, Option, List, [], ◌∷◌, any, if◌then◌else◌,
}
use Prim.Native.String
use content_approval.Domain.Exceptions.{http_exception}
use content_approval.Db.Session.{Exec, ◌>>=◌, ◌>>◌, pure, raise, logger_info}

pub data Action : Type 0 where
  read create decide cancel : Action

abbrev pub action_value : Action → String
action_value read = "approval:read"
action_value create = "approval:create"
action_value decide = "approval:decide"
action_value cancel = "approval:cancel"

abbrev pub same_action : Action → Action → Bool
same_action read read = true
same_action create create = true
same_action decide decide = true
same_action cancel cancel = true
same_action _ _ = false

pub record Principal : Type 0 where
  pub workspace_id : String
  pub user_id : String
  pub actions : List Action

abbrev pub has_action : Principal → Action → Bool
has_action p action = any (λ a. same_action a action) p.actions

-- What `authenticate` gives: a principal, or the text of an `InvalidCredentialsError`.
pub data Credentials : Type 0 where
  valid : Principal → Credentials
  invalid : String → Credentials

pub record AuthProvider : Type 0 where
  pub authenticate : Option String → Credentials

abbrev pub or_unauthorized : Credentials → Exec Principal
or_unauthorized (valid p) = pure p
or_unauthorized (invalid reason) = do
  logger_info "authentication failed" (("reason", reason) ∷ [])
  raise (http_exception 401 reason)

unfoldable pub get_principal : AuthProvider → Option String → Exec Principal
get_principal provider authorization = or_unauthorized (provider.authenticate authorization)

abbrev pub denial_context : Action → String → Principal → List (String × String)
denial_context action workspace_id p =
    ("workspace_id", workspace_id)
    ∷ ("actor_user_id", p.user_id)
    ∷ ("required_action", action_value action)
    ∷ []

-- The dependency that `require_action(action)` returns.
unfoldable pub require_action : Action → String → Principal → Exec Principal
require_action action workspace_id p =
    if not (p.workspace_id == workspace_id)
    then (do
      logger_info "workspace mismatch" (denial_context action workspace_id p)
      raise (http_exception 403 "Not authorized for this workspace"))
    else if not (has_action p action)
    then (do
      logger_info "missing required action" (denial_context action workspace_id p)
      raise (http_exception 403 (String.◌++◌ "Missing required action: " (action_value action))))
    else pure p

-- `Depends(require_…)` with the provider behind it.
unfoldable pub authorize : AuthProvider → Action → String → Option String → Exec Principal
authorize provider action workspace_id authorization = do
  p ← get_principal provider authorization
  require_action action workspace_id p

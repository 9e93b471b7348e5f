-- ===== src/App/Authorized/Checks.antt =====
-- What get_principal and require_action of app/auth/dependencies.py make of a header: who is allowed, and the
-- exception of everybody else.
use Prim.Native.String
use content_approval.Common.{
  String, ◌≡◌, refl, ◌⊎◌, true, false, ◌==◌, eq_iff, Bool-cases, inl, inr, Option, [], ◌∷◌, ◌++◌,
}
use content_approval.Domain.Exceptions.{Failure, http_exception}
use content_approval.Db.Session.{World, LogRecord, raised, Exec}
use content_approval.Auth.{
  Action, Principal, has_action, action_value, Credentials, valid, invalid, AuthProvider, authorize,
  get_principal, require_action, denial_context,
}
use content_approval.App.{is_registered}

-- Why a request is refused, by what the provider makes of its header.
pub data Denied (ws : String) (action : Action) (c : Credentials) : Failure → Type 0 where
  unauthenticated :
      (reason : String) → c ≡ invalid reason → Denied ws action c (http_exception 401 reason)
  other_workspace :
      (who : Principal)
      → c ≡ valid who
      → (who.workspace_id == ws) ≡ false
      → Denied ws action c (http_exception 403 "Not authorized for this workspace")
  not_held :
      (who : Principal)
      → c ≡ valid who
      → who.workspace_id ≡ ws
      → has_action who action ≡ false
      → Denied ws action c
          (http_exception 403 (String.◌++◌ "Missing required action: " (action_value action)))

pub Denied-registered :
    {ws : String} {action : Action} {c : Credentials} {e : Failure}
    → Denied ws action c e
    → is_registered e ≡ true
Denied-registered (unauthenticated reason h) = refl
Denied-registered (other_workspace who h other) = refl
Denied-registered (not_held who h own missing) = refl

-- A principal of the workspace who holds the action.
pub record Allowed (ws : String) (action : Action) (c : Credentials) : Type 0 where
  pub who : Principal
  pub authenticated : c ≡ valid who
  pub own : who.workspace_id ≡ ws
  pub held : has_action who action ≡ true

-- In every world the run raises this, with the database as it was.
abbrev pub Stops {ℓ} : {A : Type ℓ} → Failure → Exec A → Type ℓ
Stops e m = (w : World) → (later : World) × (m w ≡ raised e later) × (later.db ≡ w.db)

abbrev pub Checked {ℓ} : {A : Type ℓ} → String → Action → Credentials → Exec A → Type ℓ
Checked ws action c m = Allowed ws action c ⊎ ((e : Failure) × Denied ws action c e × Stops e m)

noted : LogRecord → World → World
noted line w = record w { log = w.log ++ line ∷ [] }

require_action-Checked :
    (action : Action) (ws : String) (who : Principal)
    → Checked ws action (valid who) (require_action action ws who)
unfolding require_action noted
require_action-Checked action ws who = elim (Bool-cases (who.workspace_id == ws)) [
  | inr other ↦ inr (
    _,
    other_workspace who refl other,
    λ w. (
      noted (record { message = "workspace mismatch"; context = denial_context action ws who }) w,
      rw other refl,
      refl,
    ),
  )
  | inl same ↦ elim (Bool-cases (has_action who action)) [
    | inr missing ↦ inr (
      _,
      not_held who refl ((eq_iff who.workspace_id ws).0 same) missing,
      λ w. (
        noted
            (record { message = "missing required action"; context = denial_context action ws who })
            w,
        rw (same, missing) refl,
        refl,
      ),
    )
    | inl held ↦ inl (record {
      who = who;
      authenticated = refl;
      own = (eq_iff who.workspace_id ws).0 same;
      held = held;
    })
  ]
]

pub authorize-Checked :
    (provider : AuthProvider) (action : Action) (ws : String) (authorization : Option String)
    (c : Credentials)
    → provider.authenticate authorization ≡ c
    → Checked ws action c (authorize provider action ws authorization)
unfolding authorize get_principal noted
authorize-Checked provider action ws authorization (invalid reason) e = inr (
  _,
  unauthenticated reason refl,
  λ w. (
    noted (record { message = "authentication failed"; context = ("reason", reason) ∷ [] }) w,
    rw e refl,
    refl,
  ),
)
authorize-Checked provider action ws authorization (valid who) e =
    elim (require_action-Checked action ws who) [
      | inl allowed ↦ inl allowed
      | inr (f, denied, stops) ↦ inr (f, denied, λ w. ((stops w).0, rw e (stops w).1, (stops w).2))
    ]

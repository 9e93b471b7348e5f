-- ===== src/Auth/Laws.antt =====
-- Who passes the checks of app/auth.
use Prim.Native.String.{count}
use text.Mathlib.TextLemmas.{length-append}
use content_approval.Common.{
  ℕ, zero, suc, ◌+◌, ◌-◌, ◌%◌, ◌≤◌, String, ◌≡◌, refl, sym, ap, ◌∙◌, ◌↔◌, true, ◌==◌, eq_iff,
  Option, some, arith, Bool-cases, inl, inr,
}
use content_approval.Db.Session.{World, ok, answer, ◌>>=◌}
use content_approval.Auth.{
  Action, Principal, has_action, Credentials, valid, invalid, AuthProvider, or_unauthorized,
  get_principal, require_action, authorize,
}
use content_approval.Auth.Stub.{
  equal_signs, padded, Loaded, malformed, mistyped, fields, model_validate,
}

returned_same : (p q : Principal) → ok p ≡ ok q → p ≡ q
returned_same p q h = ground arith

require_action_iff :
    (action : Action) (workspace_id : String) (p q : Principal) (w : World)
    → (answer (require_action action workspace_id p w) ≡ ok q)
      ↔ ((p ≡ q) × (q.workspace_id ≡ workspace_id) × (has_action q action ≡ true))
unfolding require_action
require_action_iff action workspace_id p q w = elim (Bool-cases (p.workspace_id == workspace_id)) [
  | inr other ↦ (
    λ h. cc (rw other at h),
    λ g. cc (other, (eq_iff p.workspace_id workspace_id).1 (ap (λ x. x.workspace_id) g.0 ∙ g.1)),
  )
  | inl own ↦ elim (Bool-cases (has_action p action)) [
    | inr missing ↦ (
      λ h. cc (rw (own, missing) at h),
      λ g. cc (missing, ap (λ x. has_action x action) g.0, g.2),
    )
    | inl held ↦ (
      λ h.
          let same : p ≡ q = returned_same p q (rw (own, held) at h) in
          (
            same,
            ap (λ x. x.workspace_id) (sym same) ∙ (eq_iff p.workspace_id workspace_id).0 own,
            ap (λ x. has_action x action) (sym same) ∙ held,
          ),
      λ g. rw (own, held) (ap ok g.0),
    )
  ]
]

valid_same : (p q : Principal) → valid p ≡ valid q → p ≡ q
valid_same p q h = ground arith

authorize-credentials :
    (c : Credentials) (action : Action) (workspace_id : String) (q : Principal) (w : World)
    → (answer ((or_unauthorized c >>= require_action action workspace_id) w) ≡ ok q)
      ↔ ((c ≡ valid q) × (q.workspace_id ≡ workspace_id) × (has_action q action ≡ true))
authorize-credentials (valid p) action workspace_id q w =
    let (to, from) = require_action_iff action workspace_id p q w in
    (λ h. let g = to h in (ap valid g.0, g.1, g.2), λ g. from (valid_same p q g.0, g.1, g.2))
authorize-credentials (invalid reason) action workspace_id q w = (λ h. cc, λ h. cc)

-- A request passes the checks of a route, with a principal, exactly when the provider authenticates
-- its header as that principal, who is of the route's workspace and holds the route's action.
pub authorize_iff :
    (provider : AuthProvider) (action : Action) (workspace_id : String)
    (authorization : Option String) (p : Principal) (w : World)
    → (answer (authorize provider action workspace_id authorization w) ≡ ok p) ↔ (
        (provider.authenticate authorization ≡ valid p)
        × (p.workspace_id ≡ workspace_id)
        × (has_action p action ≡ true))
unfolding authorize get_principal
authorize_iff provider action workspace_id authorization p w =
    authorize-credentials (provider.authenticate authorization) action workspace_id p w

pub count-equal_signs : (n : ℕ) → count (equal_signs n) ≡ n
count-equal_signs zero = refl
count-equal_signs (suc n) =
    rw (length-append "=" (equal_signs n)) (omega (arith, count-equal_signs n))

-- The padding of a token makes its length a multiple of four, with at most three signs.
pub padded_length :
    (token : String) → (count (padded token) % 4 ≡ 0) × (count (padded token) ≤ count token + 3)
unfolding padded
padded_length token =
    rw
      (
        length-append token (equal_signs ((4 - count token % 4) % 4)),
        count-equal_signs ((4 - count token % 4) % 4),
      )
      (omega arith, omega arith)

loaded-named :
    (l : Loaded) (p : Principal)
    → model_validate l ≡ some p
    → (1 ≤ count p.workspace_id) × (1 ≤ count p.user_id)
loaded-named (fields ws user actions) p h = ground arith
loaded-named malformed p h = cc
loaded-named mistyped p h = cc

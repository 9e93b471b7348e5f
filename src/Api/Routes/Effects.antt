-- ===== src/Api/Routes/Effects.antt =====
-- The operations behind the routes of app/api/v1/approval_requests.py as changes of Domain/Changes.
use content_approval.Common.{
  ℕ, String, ◌≡◌, refl, sym, ap, ◌∙◌, subst, ◌==◌, Bool-cases, Option-cases, inl, inr, Option, none,
  some, [], ◌∷◌, ◌++◌,
}
use content_approval.Domain.Entities.{ApprovalRequest}
use content_approval.Domain.Exceptions.{Failure, http_exception}
use Prim.Native.String
use content_approval.Db.Models.{JsonObject}
use content_approval.Db.Session.{World, returned, raised, Exec, ◌>>=◌, pure, world_of}
use content_approval.Db.Session.Transaction.{get_db}
use content_approval.Db.Session.Atomic.{map_result, get_db-map}
use content_approval.Auth.{
  Action, has_action, Credentials, valid, invalid, AuthProvider, require_action, denial_context,
  action_value, get_principal, authorize,
}
use content_approval.Api.Schemas.{Libraries, out_of}
use content_approval.Api.Idempotency.{Reply, key_row, run_idempotent}
use content_approval.Api.Idempotency.Replay.{find_key, first-run, first-run_fails, later-run}
use content_approval.Domain.Changes.Done.{Done, changed, failed}
use content_approval.Domain.Changes.{idempotency_record}
use content_approval.Domain.Changes.Within.{ReachesIn, nothing, and}

-- A handler makes the service's result into a reply.
pub replied-Done :
    (ws : String) (m : Exec ApprovalRequest) (code : ℕ) (w : World)
    → Done ws m w
    → Done ws {A = Reply} (do request ← m; pure (out_of request, code)) w
replied-Done ws m code w (changed a db e same change own) =
    changed (out_of a, code) db
      (get_db-map (λ request. (out_of request, code)) m w
        ∙ ap (λ x. (map_result (λ request. (out_of request, code)) x.0, x.1)) e)
      same change own
replied-Done ws m code w (failed f e) = failed f (
    get_db-map (λ request. (out_of request, code)) m w
    ∙ ap (λ x. (map_result (λ request. (out_of request, code)) x.0, x.1)) e)

abbrev pub ReachesAfter {ℓ} : {A : Type ℓ} → String → Exec A → World → Type 0
ReachesAfter ws m w = ReachesIn ws w.db (world_of (get_db m w)).db

pub stays {ℓ} :
    {ws : String} {A : Type ℓ} (m : Exec A) (w : World)
    → (world_of (get_db m w)).db ≡ w.db
    → ReachesAfter ws m w
stays {ws} m w same = subst (ReachesIn ws w.db) (sym same) nothing

module _ (lib : Libraries) (ws route : String) (payload : JsonObject) (handler : Exec Reply)
    (w : World) where
  keyed-Reaches :
      (key : String)
      → Done ws handler w
      → ReachesAfter ws (run_idempotent lib ws route (some key) payload handler) w
  keyed-Reaches key done = elim (Option-cases (find_key ws route key w.db)) [
    | inr (k, found) ↦
        stays _ w (ap (λ x. x.1) (later-run lib ws route key payload handler w k found))
    | inl missing ↦ fresh missing done
  ]
    where
      fresh :
          find_key ws route key w.db ≡ none
          → Done ws handler w
          → ReachesAfter ws (run_idempotent lib ws route (some key) payload handler) w
      fresh missing (changed reply db e same change own) =
          let (t, first) = first-run lib ws route key payload handler w reply db missing same e in
          subst (ReachesIn ws w.db) (sym (ap (λ x. x.1) first)) (
            and (and nothing change own)
              (idempotency_record (key_row lib ws route key payload reply t) refl) refl)
      fresh missing (failed f e) =
          stays _ w
            (ap (λ x. x.1) (first-run_fails lib ws route key payload handler w f missing e).1)

  pub run-Reaches :
      (key : Option String)
      → Done ws handler w
      → ReachesAfter ws (run_idempotent lib ws route key payload handler) w
  unfolding run_idempotent
  run-Reaches none (changed reply db e same change own) =
      subst (ReachesIn ws w.db) (sym (ap (λ x. x.1) e)) (and nothing change own)
  run-Reaches none (failed f e) = stays handler w (ap (λ x. x.1) e)
  run-Reaches (some key) done = keyed-Reaches key done

-- A step that reads nothing of the database and changes nothing in it: it returns in the same world, or
-- raises.
pub data Gate {ℓ} {A : Type ℓ} (m : Exec A) (w : World) : Type ℓ where
  passes : (a : A) → m w ≡ returned a w → Gate m w
  stops : (e : Failure) (w' : World) → m w ≡ raised e w' → Gate m w

pub gated {ℓ κ} :
    {ws : String} {A : Type ℓ} {B : Type κ} (m : Exec A) (f : A → Exec B) (w : World)
    → Gate m (record w { new = [] })
    → ((a : A) → ReachesAfter ws (f a) w)
    → ReachesAfter ws (m >>= f) w
unfolding get_db
gated m f w (passes a e) k = rw e (k a)
gated m f w (stops e w' h) k = rw h nothing

pub authorize-Gate :
    (provider : AuthProvider) (action : Action) (ws : String) (authorization : Option String)
    (w : World)
    → Gate (authorize provider action ws authorization) w
unfolding authorize get_principal require_action
authorize-Gate provider action ws authorization w =
    credentials (provider.authenticate authorization) refl
  where
    credentials :
        (c : Credentials)
        → provider.authenticate authorization ≡ c
        → Gate (authorize provider action ws authorization) w
    credentials (invalid reason) e =
        stops (http_exception 401 reason)
          (record w {
            log =
                w.log
                ++ record { message = "authentication failed"; context = ("reason", reason) ∷ [] }
                  ∷ [];
          })
          (rw e refl)
    credentials (valid p) e = elim (Bool-cases (p.workspace_id == ws)) [
      | inr other ↦
          stops (http_exception 403 "Not authorized for this workspace")
            (record w {
              log =
                  w.log
                  ++ record { message = "workspace mismatch"; context = denial_context action ws p }
                    ∷ [];
            })
            (rw (e, other) refl)
      | inl own ↦ elim (Bool-cases (has_action p action)) [
        | inr missing ↦
            stops
              (http_exception 403 (String.◌++◌ "Missing required action: " (action_value action)))
              (record w {
                log =
                    w.log
                    ++ record {
                      message = "missing required action";
                      context = denial_context action ws p;
                    }
                      ∷ [];
              })
              (rw (e, own, missing) refl)
        | inl held ↦ passes p (rw (e, own, held) refl)
      ]
    ]

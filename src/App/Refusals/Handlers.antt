-- ===== src/App/Refusals/Handlers.antt =====
-- The handlers under their idempotency keys, by the status with which a transaction returns.
use content_approval.Common.{
  ℕ, ◌≤◌, ◌<◌, String, ◌≡◌, refl, sym, ap, ◌∙◌, Option, none, some, [], Option-cases, inl, inr,
  arith,
}
use content_approval.Domain.Entities.{ApprovalRequest}
use content_approval.Domain.Changes.Done.{Done, changed, failed}
use content_approval.Db.Models.{JsonObject}
use content_approval.Db.Session.{World, Exec, ◌>>=◌, pure, answer, world_of, Result, ok, err}
use content_approval.Db.Session.Transaction.{get_db}
use content_approval.Db.Session.Atomic.{get_db-map, map_result}
use content_approval.Api.Schemas.{Libraries, out_of}
use content_approval.Api.Idempotency.{Reply, run_idempotent}
use content_approval.Api.Idempotency.Replay.{find_key, first-run, first-run_fails, later-run}
use content_approval.Api.Routes.Effects.{Gate, passes, stops}

-- A transaction that returns a value with an error's status keeps the database as it was.
abbrev pub Refuses {ℓ} : {A : Type ℓ} → (A → ℕ) → Exec A → World → Type ℓ
Refuses {A = A} code m w =
    (a : A) → answer (get_db m w) ≡ ok a → 400 ≤ code a → (world_of (get_db m w)).db ≡ w.db

pub gated-Refuses {ℓ κ} :
    {A : Type ℓ} {B : Type κ} (code : B → ℕ) (m : Exec A) (f : A → Exec B) (w : World)
    → Gate m (record w { new = [] })
    → ((a : A) → Refuses code (f a) w)
    → Refuses code (m >>= f) w
unfolding get_db
gated-Refuses code m f w (passes a e) k b = rw e (k a b)
gated-Refuses code m f w (stops e w' h) k b = rw h (λ _ _. refl)

ok_same {ℓ} : {A : Type ℓ} (a b : A) → ok a ≡ ok b → a ≡ b
ok_same a b h = cc

mapped-code :
    (m : Exec ApprovalRequest) (code : ℕ) (reply : Reply) (r : Result ApprovalRequest)
    → map_result (λ request. (out_of request, code)) r ≡ ok reply
    → code ≡ reply.1
mapped-code m code reply (ok a) h = ap (λ (x : Reply). x.1) (ok_same _ _ h)
mapped-code m code reply (err e) h = cc

-- A handler answers with its own status only.
abbrev pub IsCoded : ℕ → Exec Reply → World → Type 0
IsCoded code handler w = (reply : Reply) → answer (get_db handler w) ≡ ok reply → code ≡ reply.1

pub replied-IsCoded :
    (m : Exec ApprovalRequest) (code : ℕ) (w : World)
    → IsCoded code (do request ← m; pure (out_of request, code)) w
replied-IsCoded m code w reply h =
    mapped-code m code reply (answer (get_db m w))
      (sym (ap (λ x. x.0) (get_db-map (λ request. (out_of request, code)) m w)) ∙ h)

module _ (lib : Libraries) (ws route : String) (payload : JsonObject) (handler : Exec Reply)
    (code : ℕ) (small : code < 400) (w : World) where
  handler-Refuses : IsCoded code handler w → Refuses (λ r. r.1) handler w
  handler-Refuses coded reply h large = absurd (omega (arith, coded reply h))

  keyed-Refuses :
      (key : String)
      → IsCoded code handler w
      → Done ws handler w
      → Refuses (λ r. r.1) (run_idempotent lib ws route (some key) payload handler) w
  keyed-Refuses key coded done reply h large = elim (Option-cases (find_key ws route key w.db)) [
    | inr (k, found) ↦ ap (λ x. x.1) (later-run lib ws route key payload handler w k found)
    | inl missing ↦ fresh missing done
  ]
    where
      fresh :
          find_key ws route key w.db ≡ none
          → Done ws handler w
          → (world_of (get_db (run_idempotent lib ws route (some key) payload handler) w)).db ≡ w.db
      fresh missing (changed own db e same change _) =
          let (t, first) = first-run lib ws route key payload handler w own db missing same e in
          let there : own ≡ reply = ok_same own reply (sym (ap (λ x. x.0) first) ∙ h) in
          let status : code ≡ own.1 = coded own (ap (λ x. x.0) e) in
          absurd (omega (arith, status ∙ ap (λ (x : Reply). x.1) there))
      fresh missing (failed f e) =
          ap (λ x. x.1) (first-run_fails lib ws route key payload handler w f missing e).1

  pub run-Refuses :
      (key : Option String)
      → IsCoded code handler w
      → Done ws handler w
      → Refuses (λ r. r.1) (run_idempotent lib ws route key payload handler) w
  unfolding run_idempotent
  run-Refuses none coded done = handler-Refuses coded
  run-Refuses (some key) coded done = keyed-Refuses key coded done

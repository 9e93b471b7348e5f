-- ===== src/Domain/Interleaved/Keyed.antt =====
-- A handler under a key of app/api/idempotency.py whose transaction overlaps with others.
use content_approval.Common.{String, sym, ap, ◌∙◌, subst, some, inl, inr}
use content_approval.Db.Models.{JsonObject, Db}
use content_approval.Db.Session.{World, Exec}
use content_approval.Db.Session.Keeps.{Keeps, Keeps-get_db}
use content_approval.Db.Integrity.{IsSound}
use content_approval.Domain.Service.Sound.{flush-IsSound}
use content_approval.Domain.Changes.{Reaches, start}
use content_approval.Domain.Changes.Done.{Done, changed, failed}
use content_approval.Domain.Changes.Within.{forget}
use content_approval.Api.Schemas.{Libraries}
use content_approval.Api.Idempotency.{Reply, fingerprint}
use content_approval.Api.Idempotency.Replay.{find_key}
use content_approval.Api.Idempotency.Race.{late_run, late_run-cases, IsKeyless}
use content_approval.Api.Routes.Effects.{run-Reaches}
use content_approval.Api.Routes.Sound.{replay_or_run-IsSound, run_and_store-IsSound}

-- What an event does to the committed database.
abbrev pub Kept : Db → Db → Type 0
Kept db db' = IsSound db' × Reaches db db'

module _ (lib : Libraries) (ws route key : String) (payload : JsonObject) (handler : Exec Reply)
    (before now : World) where
  keyless : Done ws handler now → IsKeyless lib ws route key payload handler now
  keyless (changed a db e same change own) reply db' e' =
      ap (λ x. x.1.idempotency_keys) (sym e' ∙ e) ∙ same
  keyless (failed f e) reply db' e' = cc

  run-Reaches_late :
      Done ws handler now → Reaches now.db (late_run lib ws route key payload handler before now).1
  run-Reaches_late done =
      elim (late_run-cases lib ws route key payload handler before now (keyless done)) [
        | inl same ↦ subst (Reaches now.db) (sym same) start
        | inr same ↦
            subst (Reaches now.db) (sym same)
              (forget (run-Reaches lib ws route payload handler now (some key) done))
      ]

  run-IsSound_late :
      Keeps IsSound handler
      → IsSound now.db
      → IsSound (late_run lib ws route key payload handler before now).1
  unfolding late_run
  run-IsSound_late kept =
      (Keeps-get_db _ flush-IsSound (
          replay_or_run-IsSound lib (find_key ws route key before.db) (fingerprint lib payload) _
            (run_and_store-IsSound lib ws route key payload _ kept))).run
        now

  -- A late run of a handler that can do one change of its workspace.
  pub late_run-Kept :
      Done ws handler now
      → Keeps IsSound handler
      → IsSound now.db
      → Kept now.db (late_run lib ws route key payload handler before now).1
  late_run-Kept done kept sound = (run-IsSound_late kept sound, run-Reaches_late done)

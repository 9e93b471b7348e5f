-- ===== src/Domain/Interleaved/Decisions.antt =====
-- Decisions of app/domain/service.py whose reading is old, alone and under a key of app/api/idempotency.py.
use Prim.Native.String
use content_approval.Common.{String, ◌≡◌, refl, sym, ap, ◌∙◌, subst, Option-cases, inl, inr}
use content_approval.Domain.Entities.{ApprovalRequest}
use content_approval.Db.Models.{JsonObject, Db}
use content_approval.Db.Session.{World, Exec, ◌>>=◌, pure, raise, Result, ok, err, answer, effect}
use content_approval.Db.Session.Transaction.{get_db}
use content_approval.Db.Session.Keeps.{Keeps, Keeps-get_db, Keeps-raised}
use content_approval.Db.Integrity.{IsSound}
use content_approval.Db.Repository.Lookup.{find_request}
use content_approval.Domain.Service.Sound.{flush-IsSound, decide-IsSound}
use content_approval.Domain.Changes.{Choice, approve, reject, cancel, Reaches, start, step}
use content_approval.Domain.Changes.Done.{
  Done, changed, failed, approve-Done, reject-Done, cancel-Done,
}
use content_approval.Domain.Interleaved.{perform, read, write, late, after_read}
use content_approval.Domain.Interleaved.Keyed.{Kept, late_run-Kept}
use content_approval.Domain.Interleaved.Late.{late-perform, late-missing}
use content_approval.Api.Schemas.{Libraries, out_of}
use content_approval.Api.Idempotency.{Reply}
use content_approval.Api.Idempotency.Race.{late_run}
use content_approval.Api.Routes.Effects.{replied-Done}
use content_approval.Api.Routes.Sound.{replied-IsSound}

-- The route under which a decision's key is stored.
abbrev pub route_of : Choice → String → String
route_of (approve _) id = String.◌++◌ "approve:" id
route_of (reject _) id = String.◌++◌ "reject:" id
route_of (cancel _) id = String.◌++◌ "cancel:" id

-- The exception of a reading, or what follows it.
abbrev pub or_raise : Result (Unit {0}) → Exec ApprovalRequest → Exec ApprovalRequest
or_raise (err e) m = raise e
or_raise (ok _) m = m

or_raise_lem :
    (r : Result (Unit {0})) (m : Exec ApprovalRequest) (now : World)
    → effect (get_db (or_raise r m) now) ≡ after_read r m now
unfolding get_db
or_raise_lem (err e) m now = refl
or_raise_lem (ok _) m now = refl

or_raise-IsSound :
    (r : Result (Unit {0})) (m : Exec ApprovalRequest)
    → Keeps IsSound m
    → Keeps IsSound (or_raise r m)
or_raise-IsSound (err e) m kept = Keeps-raised e
or_raise-IsSound (ok _) m kept = kept

module _ (ws id actor : String) where
  perform-Done : (c : Choice) (w : World) → IsSound w.db → Done ws (perform ws id actor c) w
  unfolding perform
  perform-Done (approve comment) w sound = approve-Done ws id actor w sound comment
  perform-Done (reject reason) w sound = reject-Done ws id actor w sound reason
  perform-Done (cancel reason) w sound = cancel-Done ws id actor w sound reason

pub Done-Reaches :
    {ws : String} {A : Type 0} {m : Exec A} {w : World}
    → Done ws m w
    → Reaches w.db (effect (get_db m w)).1
Done-Reaches {w = w} (changed a db e same change own) =
    subst (Reaches w.db) (sym (ap (λ x. x.1) e)) (step start change)
Done-Reaches {w = w} (failed f e) = subst (Reaches w.db) (sym (ap (λ x. x.1) e)) start

-- What an operation can do is a matter of its answer and its effect.
Done-same :
    {ws : String} {A : Type 0} (m n : Exec A) (w : World)
    → effect (get_db m w) ≡ effect (get_db n w)
    → Done ws n w
    → Done ws m w
Done-same m n w same (changed a db e keys change own) = changed a db (same ∙ e) keys change own
Done-same m n w same (failed f e) = failed f (same ∙ e)

module _ (ws id actor : String) (c : Choice) (before : World) where
  -- The method with the reading of before.
  abbrev pub late_method : Exec ApprovalRequest
  late_method = or_raise (answer (read ws id actor c before)) (write ws id actor c)

  pub late_method-IsSound : Keeps IsSound late_method
  late_method-IsSound =
      or_raise-IsSound (answer (read ws id actor c before)) _ (decide-IsSound ws id _ _ _)

  module _ (now : World) where
    late_method_lem : effect (get_db late_method now) ≡ late ws id actor c before now
    unfolding late
    late_method_lem = or_raise_lem (answer (read ws id actor c before)) (write ws id actor c) now

    pub late_method-Done :
        IsSound before.db → IsSound now.db → Reaches before.db now.db → Done ws late_method now
    late_method-Done sound sound' reached = elim (Option-cases (find_request ws id before.db)) [
      | inl missing ↦
          failed _ (late_method_lem ∙ late-missing ws id actor c before now sound missing)
      | inr (row, found) ↦
          Done-same late_method (perform ws id actor c) now
            (late_method_lem ∙ late-perform ws id actor c before now row sound sound' reached found)
            (perform-Done ws id actor c now sound')
    ]

    pub late-Kept :
        IsSound before.db
        → IsSound now.db
        → Reaches before.db now.db
        → Kept now.db (late ws id actor c before now).1
    late-Kept sound sound' reached = subst (Kept now.db) (ap (λ x. x.1) late_method_lem) (
      (Keeps-get_db _ flush-IsSound late_method-IsSound).run now sound',
      Done-Reaches (late_method-Done sound sound' reached),
    )

-- The handler of a decision with the reading of before.
abbrev pub late_handler : String → String → String → Choice → World → Exec Reply
late_handler ws id actor c before = do
  request ← late_method ws id actor c before
  pure (out_of request, 200)

-- A decision under a key: the look for the key, the reading, and the writing with its commit, each in a
-- world of its own.
module _ (lib : Libraries) (ws id actor key : String) (c : Choice) (payload : JsonObject)
    (looked before now : World) where
  unfoldable pub late_decision : Db
  late_decision =
      (late_run lib ws (route_of c id) key payload (late_handler ws id actor c before) looked now).1

  pub late_decision-Kept :
      IsSound before.db → IsSound now.db → Reaches before.db now.db → Kept now.db late_decision
  unfolding late_decision
  late_decision-Kept sound sound' reached =
      late_run-Kept lib ws (route_of c id) key payload (late_handler ws id actor c before) looked
        now
        (replied-Done ws _ 200 now (late_method-Done ws id actor c before now sound sound' reached))
        (replied-IsSound lib _ 200 (late_method-IsSound ws id actor c before)) sound'

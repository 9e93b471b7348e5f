-- ===== src/Db/Session/Transaction.antt =====
-- `get_db` of app/db/session.py: one transaction per request.
use content_approval.Common.{[]}
use content_approval.Db.Models.{Db}
use content_approval.Db.Session.{Outcome, returned, raised, Exec, ◌>>=◌, ◌>>◌, pure}
use content_approval.Db.Session.Flush.{flush}

-- What the exit of `session.begin()` does with the outcome of the body: the changes of a body that
-- returned stay, those of one that raised are undone, and no row is left waiting.
abbrev pub finish {ℓ} : {A : Type ℓ} → Db → Outcome A → Outcome A
finish before (returned a w) = returned a w
finish before (raised e w) = raised e (record w { db = before; new = [] })

-- The commit flushes first.
unfoldable pub get_db {ℓ} : {A : Type ℓ} → Exec A → Exec A
unfolding flush
get_db body w = finish w.db ((do a ← body; flush; pure a) (record w { new = [] }))

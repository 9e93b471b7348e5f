-- ===== src/Api/Idempotency/Again.antt =====
-- A request that is sent again with its key: run_idempotent of app/api/idempotency.py twice.
use content_approval.Common.{
  String, ◌≡◌, sym, ap, ◌∙◌, eq_refl, none, some, [], ◌∷◌, find, find-append,
}
use content_approval.Domain.DateTime.{DateTime}
use content_approval.Db.Models.{JsonObject, IdempotencyKey, Db}
use content_approval.Db.Session.{World, Exec, ok, effect}
use content_approval.Db.Session.Flush.{is_entry}
use content_approval.Db.Session.Transaction.{get_db}
use content_approval.Api.Schemas.{Libraries}
use content_approval.Api.Idempotency.{Reply, fingerprint, key_row, run_idempotent}
use content_approval.Api.Idempotency.Replay.{find_key, with_key, first-run, later-run}

-- The row that a first run stores is the one that the key finds.
pub find_key-stored :
    (lib : Libraries) (ws route key : String) (payload : JsonObject) (reply : Reply) (t : DateTime)
    (db : Db)
    → find_key ws route key db ≡ none
    → find_key ws route key (with_key db (key_row lib ws route key payload reply t))
      ≡ some (key_row lib ws route key payload reply t)
find_key-stored lib ws route key payload reply t db missing = rw (
  find-append (is_entry ws route key) db.idempotency_keys
      (key_row lib ws route key payload reply t ∷ []),
  missing,
  eq_refl ws,
  eq_refl route,
  eq_refl key,
)

-- Where a key was not stored and a handler that stores no key itself succeeded under it, a request
-- that is sent again with the key and the same body, to the database that the first run left, has the
-- same answer and leaves that database as it is, whatever the handler would do the second time.
pub run-again :
    (lib : Libraries) (ws route key : String) (payload : JsonObject) (handler again : Exec Reply)
    (w w' : World) (reply : Reply) (db : Db)
    → find_key ws route key w.db ≡ none
    → db.idempotency_keys ≡ w.db.idempotency_keys
    → effect (get_db handler w) ≡ (ok reply, db)
    → w'.db ≡ (effect (get_db (run_idempotent lib ws route (some key) payload handler) w)).1
    → effect (get_db (run_idempotent lib ws route (some key) payload again) w')
      ≡ effect (get_db (run_idempotent lib ws route (some key) payload handler) w)
run-again lib ws route key payload handler again w w' reply db missing same h left =
    let (t, first) = first-run lib ws route key payload handler w reply db missing same h in
    let row : IdempotencyKey = key_row lib ws route key payload reply t in
    let here : w'.db ≡ with_key db row = left ∙ ap (λ x. x.1) first in
    let found : find_key ws route key w'.db ≡ some row =
      ap (find_key ws route key) here
      ∙ find_key-stored lib ws route key payload reply t db
          (ap (find (is_entry ws route key)) same ∙ missing) in
    later-run lib ws route key payload again w' row found
    ∙ rw (eq_refl (fingerprint lib payload), lib.validate-dump reply.0, here) (sym first)

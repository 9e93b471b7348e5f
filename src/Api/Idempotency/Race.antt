-- ===== src/Api/Idempotency/Race.antt =====
-- Two requests with one key that overlap: run_idempotent of app/api/idempotency.py, where the look for the
-- key is older than the run of the handler and another transaction commits in between.
use content_approval.Common.{
  String, ◌≡◌, refl, sym, ap, ◌∙◌, ◌⊎◌, inl, inr, ◌==◌, Bool-cases, Option-cases, none, some, [],
  any-of-some, find,
}
use content_approval.Domain.DateTime.{DateTime}
use content_approval.Db.Models.{JsonObject, IdempotencyKey, Db}
use content_approval.Db.Session.{World, returned, Exec, Result, ok, err, effect, new_key}
use content_approval.Db.Session.Flush.{is_entry, flush, insert_row, insert_key}
use content_approval.Db.Session.Transaction.{get_db}
use content_approval.Db.Session.Atomic.{Ended, body_raised, flush_raised, kept, ended}
use content_approval.Db.Repository.Transition.{next_now}
use content_approval.Api.Schemas.{Libraries}
use content_approval.Api.Idempotency.{
  Reply, being_processed, fingerprint, key_row, replay_or_run, run_and_store, run_idempotent,
}
use content_approval.Api.Idempotency.Replay.{find_key, body_ok, or_conflict-raised}
use content_approval.Api.Idempotency.Split.{flush-one_refused, flush-raised}

module _ (lib : Libraries) (ws route key : String) (payload : JsonObject)
    (handler : Exec Reply) where
  -- What a run does in one world after its look for the key in another.
  unfoldable pub late_run : World → World → Result Reply × Db
  late_run before now = effect (
      get_db
        (replay_or_run lib (find_key ws route key before.db) (fingerprint lib payload)
          (run_and_store lib ws route key payload handler))
        now)

  refused :
      (reply : Reply) (t : DateTime) (k : IdempotencyKey) (db : Db)
      → find_key ws route key db ≡ some k
      → insert_row (new_key (key_row lib ws route key payload reply)) t db ≡ none
  unfolding insert_row insert_key
  refused reply t k db found = rw (any-of-some (is_entry ws route key) db.idempotency_keys k found)

  raced_from :
      (before now mid end : World) (reply : Reply)
      → find_key ws route key before.db ≡ none
      → handler (record now { new = [] }) ≡ returned reply mid
      → flush mid ≡ returned tt end
      → insert_row (new_key (key_row lib ws route key payload reply)) (next_now end) end.db ≡ none
      → late_run before now ≡ (err being_processed, now.db)
  unfolding late_run get_db run_and_store
  raced_from before now mid end reply missing returns flushes taken =
      let (e, raises) =
        flush-one_refused mid end (new_key (key_row lib ws route key payload reply)) flushes
          taken in
      rw (missing, returns, raises)

  -- Where the look for a key found none, and a run with that key was committed before the handler,
  -- which stores no key itself, succeeded: the answer is the conflict of a key in use, and nothing
  -- that the handler did stays.
  pub late_run-raced :
      (before now : World) (k : IdempotencyKey) (reply : Reply) (db : Db)
      → find_key ws route key before.db ≡ none
      → find_key ws route key now.db ≡ some k
      → effect (get_db handler now) ≡ (ok reply, db)
      → db.idempotency_keys ≡ now.db.idempotency_keys
      → late_run before now ≡ (err being_processed, now.db)
  unfolding get_db
  late_run-raced before now k reply db missing found h same =
      let (mid, end, returns, flushes, leaves) =
        body_ok now.db reply (handler (record now { new = [] })) db h in
      let there : find_key ws route key end.db ≡ some k =
        ap (λ (x : Db). find_key ws route key x) leaves
        ∙ ap (find (is_entry ws route key)) same
        ∙ found in
      raced_from before now mid end reply missing returns flushes
        (refused reply (next_now end) k end.db there)

  -- Where the look for a key found what is stored when the handler runs, the run has the answer and
  -- the effect of run_idempotent made at once.
  pub late_run-run_idempotent :
      (before now : World)
      → find_key ws route key before.db ≡ find_key ws route key now.db
      → late_run before now
        ≡ effect (get_db (run_idempotent lib ws route (some key) payload handler) now)
  unfolding late_run get_db run_idempotent
  late_run-run_idempotent before now same = rw same refl

  replay_stays :
      (before now : World) (k : IdempotencyKey)
      → find_key ws route key before.db ≡ some k
      → (late_run before now).1 ≡ now.db
  unfolding late_run get_db
  replay_stays before now k found =
      elim (Bool-cases (k.request_fingerprint == fingerprint lib payload)) [
        | inr other ↦ rw (found, other) refl
        | inl same ↦ elim (Option-cases (lib.model_validate k.response_body)) [
          | inl invalid ↦ rw (found, same, invalid) refl
          | inr (response, valid) ↦ rw (found, same, valid) refl
        ]
      ]

  -- The handler stores no key itself.
  abbrev pub IsKeyless : World → Type 0
  IsKeyless now =
      (reply : Reply) (db : Db)
      → effect (get_db handler now) ≡ (ok reply, db)
      → db.idempotency_keys ≡ now.db.idempotency_keys

  taken_stays :
      (before now : World) (k : IdempotencyKey)
      → find_key ws route key before.db ≡ none
      → find_key ws route key now.db ≡ some k
      → IsKeyless now
      → Ended handler now
      → (late_run before now).1 ≡ now.db
  unfolding late_run get_db run_and_store
  taken_stays before now k missing found keyless (body_raised e w' raises) =
      rw (missing, raises) refl
  taken_stays before now k missing found keyless (flush_raised a mid f w' returns raises) =
      let (g, caught) = or_conflict-raised lib ws route key payload handler now f w' in
      rw
        (
          missing,
          returns,
          flush-raised mid w' f (new_key (key_row lib ws route key payload a)) raises,
          caught,
        )
        refl
  taken_stays before now k missing found keyless (kept a mid end returns flushes) =
      let succeeds : effect (get_db handler now) ≡ (ok a, end.db) = rw (returns, flushes) refl in
      ap (λ x. x.1)
        (late_run-raced before now k a end.db missing found succeeds (keyless a end.db succeeds))

  -- Whatever the look for the key found: a run leaves the database as it is when the handler runs, or as
  -- run_idempotent made at once leaves it.
  pub late_run-cases :
      (before now : World)
      → IsKeyless now
      → ((late_run before now).1 ≡ now.db)
        ⊎ ((late_run before now).1
            ≡ (effect (get_db (run_idempotent lib ws route (some key) payload handler) now)).1)
  late_run-cases before now keyless = elim (Option-cases (find_key ws route key before.db)) [
    | inr (k, found) ↦ inl (replay_stays before now k found)
    | inl missing ↦ elim (Option-cases (find_key ws route key now.db)) [
      | inl absent ↦ inr (ap (λ x. x.1) (late_run-run_idempotent before now (missing ∙ sym absent)))
      | inr (k, found) ↦ inl (taken_stays before now k missing found keyless (ended handler now))
    ]
  ]

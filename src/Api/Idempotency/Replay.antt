-- ===== src/Api/Idempotency/Replay.antt =====
-- The runs of a handler under a key of app/api/idempotency.py: the first one, and one with a stored key.
use content_approval.Common.{
  ℕ, String, ◌≡◌, refl, ap, ◌∙◌, ◌==◌, Option, none, some, [], ◌∷◌, ◌++◌, find, any-of-count,
  count-of-none, if◌then◌else◌, Bool-cases, Option-cases, inl, inr, arith,
}
use content_approval.Domain.Exceptions.{Failure, integrity_error, validation_error}
use content_approval.Domain.DateTime.{DateTime}
use content_approval.Db.Models.{JsonObject, IdempotencyKey, Db}
use content_approval.Db.Session.{
  World, Outcome, returned, raised, Exec, ◌>>◌, and_then, pure, Result, ok, err, effect, new_key,
}
use content_approval.Db.Session.Flush.{is_entry, flush, insert_row}
use content_approval.Db.Session.Transaction.{get_db, finish}
use content_approval.Db.Session.Atomic.{Ended, body_raised, flush_raised, kept, ended}
use content_approval.Db.Repository.Transition.{next_now}
use content_approval.Api.Schemas.{ApprovalRequestOut, Libraries}
use content_approval.Api.Idempotency.{
  Reply, used_with_another_body, being_processed, or_conflict, fingerprint, key_row, run_and_store,
  run_idempotent,
}
use content_approval.Api.Idempotency.Split.{
  after_row, flush-raised, flush-one_more, flush-idle, new-flush,
}

abbrev pub find_key : String → String → String → Db → Option IdempotencyKey
find_key workspace_id route key db = find (is_entry workspace_id route key) db.idempotency_keys

abbrev pub with_key : Db → IdempotencyKey → Db
with_key db k = record db { idempotency_keys = db.idempotency_keys ++ k ∷ [] }

flushed_ok :
    (before : Db) (a b : Reply) (o : Outcome (Unit {0})) (db : Db)
    → effect (finish before (and_then o (λ _. pure a))) ≡ (ok b, db)
    → (w' : World) × (o ≡ returned tt w') × (a ≡ b) × (w'.db ≡ db)
flushed_ok before a b (returned tt w') db h = (w', ground arith, ground arith, ground arith)
flushed_ok before a b (raised e w') db h = cc

pub body_ok :
    (before : Db) (b : Reply) (o : Outcome Reply) (db : Db)
    → effect (finish before (and_then o (λ a. flush >> pure a))) ≡ (ok b, db)
    → (mid end : World) × (o ≡ returned b mid) × (flush mid ≡ returned tt end) × (end.db ≡ db)
body_ok before b (returned a mid) db h =
    let (end, flushes, same, leaves) = flushed_ok before a b (flush mid) db h in
    (mid, end, ap (λ x. returned x mid) same, flushes, leaves)
body_ok before b (raised e mid) db h = cc

insert_key-new :
    (lib : Libraries) (ws route key : String) (payload : JsonObject) (reply : Reply) (t : DateTime)
    (db : Db)
    → find_key ws route key db ≡ none
    → insert_row (new_key (key_row lib ws route key payload reply)) t db
      ≡ some (with_key db (key_row lib ws route key payload reply t))
unfolding insert_row
insert_key-new lib ws route key payload reply t db missing = rw (
    any-of-count (is_entry ws route key) db.idempotency_keys
      (count-of-none (is_entry ws route key) db.idempotency_keys missing))

-- The answer that a stored response gives.
abbrev pub stored_reply : Option ApprovalRequestOut → ℕ → Result Reply
stored_reply none status_code = err validation_error
stored_reply (some response) status_code = ok (response, status_code)

module _ (lib : Libraries) (ws route key : String) (payload : JsonObject) (handler : Exec Reply)
    (w : World) where
  first-run_from :
      (reply : Reply) (mid end : World) (db' : Db)
      → find_key ws route key w.db ≡ none
      → handler (record w { new = [] }) ≡ returned reply mid
      → flush mid ≡ returned tt end
      → insert_row (new_key (key_row lib ws route key payload reply)) (next_now end) end.db
        ≡ some db'
      → effect (get_db (run_idempotent lib ws route (some key) payload handler) w) ≡ (ok reply, db')
  unfolding get_db run_idempotent run_and_store
  first-run_from reply mid end db' missing returns flushes stored = rw (
    missing,
    returns,
    flush-one_more mid end (new_key (key_row lib ws route key payload reply)) db' flushes stored,
    flush-idle (after_row end db') (new-flush mid end flushes),
  )

  -- Where a key is not stored, the first run under it of a handler that succeeds and stores no key
  -- itself answers and does what the handler does, and stores the fingerprint of the body and the
  -- reply beside it.
  pub first-run :
      (reply : Reply) (db : Db)
      → find_key ws route key w.db ≡ none
      → db.idempotency_keys ≡ w.db.idempotency_keys
      → effect (get_db handler w) ≡ (ok reply, db)
      → (t : DateTime) × (effect (get_db (run_idempotent lib ws route (some key) payload handler) w)
          ≡ (ok reply, with_key db (key_row lib ws route key payload reply t)))
  unfolding get_db
  first-run reply db missing same h =
      let (mid, end, returns, flushes, leaves) =
        body_ok w.db reply (handler (record w { new = [] })) db h in
      let missing' : find_key ws route key end.db ≡ none =
        ap (λ (x : Db). find_key ws route key x) leaves
        ∙ ap (find (is_entry ws route key)) same
        ∙ missing in
      let stored = insert_key-new lib ws route key payload reply (next_now end) end.db missing' in
      (
        next_now end,
        first-run_from reply mid end
              (with_key end.db (key_row lib ws route key payload reply (next_now end))) missing
              returns flushes stored
            ∙ ap
                (λ (x : Db).
                  (ok reply, with_key x (key_row lib ws route key payload reply (next_now end))))
                leaves,
      )

  run_raised :
      (f : Failure) (w' : World)
      → find_key ws route key w.db ≡ none
      → handler (record w { new = [] }) ≡ raised f w'
      → effect (get_db (run_idempotent lib ws route (some key) payload handler) w) ≡ (err f, w.db)
  unfolding get_db run_idempotent run_and_store
  run_raised f w' missing raises = rw (missing, raises)

  pub or_conflict-raised :
      (f : Failure) (w' : World) → (g : Failure) × (or_conflict (raised f w') ≡ raised g w')
  or_conflict-raised integrity_error w' = (being_processed, refl)
  or_conflict-raised f w' = (f, refl)

  run_flush_raised :
      (a : Reply) (mid : World) (f : Failure) (w' : World)
      → find_key ws route key w.db ≡ none
      → handler (record w { new = [] }) ≡ returned a mid
      → flush mid ≡ raised f w'
      → (g : Failure) × (effect (get_db (run_idempotent lib ws route (some key) payload handler) w)
          ≡ (err g, w.db))
  unfolding get_db run_idempotent run_and_store
  run_flush_raised a mid f w' missing returns raises =
      let (g, caught) = or_conflict-raised f w' in
      (
        g,
        rw (
          missing,
          returns,
          flush-raised mid w' f (new_key (key_row lib ws route key payload a)) raises,
          caught,
        ),
      )

  kept_is_ok :
      (a : Reply) (mid end : World) (e : Failure)
      → handler (record w { new = [] }) ≡ returned a mid
      → flush mid ≡ returned tt end
      → effect (get_db handler w) ≡ (err e, w.db)
      → ⊥
  unfolding get_db
  kept_is_ok a mid end e returns flushes h = cc (rw (returns, flushes) at h)

  -- A first run whose handler cannot be committed raises too, and leaves the database alone.
  pub first-run_fails :
      (e : Failure)
      → find_key ws route key w.db ≡ none
      → effect (get_db handler w) ≡ (err e, w.db)
      → (f : Failure) × (effect (get_db (run_idempotent lib ws route (some key) payload handler) w)
          ≡ (err f, w.db))
  first-run_fails e missing h = of_Ended (ended handler w)
    where
      of_Ended :
          Ended handler w
          → (f : Failure) × (effect
                (get_db (run_idempotent lib ws route (some key) payload handler) w)
              ≡ (err f, w.db))
      of_Ended (body_raised f w' raises) = (f, run_raised f w' missing raises)
      of_Ended (flush_raised a mid f w' returns raises) =
          run_flush_raised a mid f w' missing returns raises
      of_Ended (kept a mid end returns flushes) = absurd (kept_is_ok a mid end e returns flushes h)

  -- With a key that is stored, the handler does not run: a body of the stored fingerprint has the stored
  -- reply again, one of another fingerprint is a conflict, and the database stays as it is.
  pub later-run :
      (k : IdempotencyKey)
      → find_key ws route key w.db ≡ some k
      → effect (get_db (run_idempotent lib ws route (some key) payload handler) w) ≡ (
        if k.request_fingerprint == fingerprint lib payload
            then stored_reply (lib.model_validate k.response_body) k.response_status
            else err used_with_another_body,
        w.db,
      )
  unfolding get_db run_idempotent
  later-run k found = elim (Bool-cases (k.request_fingerprint == fingerprint lib payload)) [
    | inr other ↦ rw (found, other)
    | inl same ↦ elim (Option-cases (lib.model_validate k.response_body)) [
      | inl invalid ↦ rw (found, same, invalid)
      | inr (response, valid) ↦ rw (found, same, valid)
    ]
  ]

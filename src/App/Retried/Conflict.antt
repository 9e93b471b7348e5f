-- ===== src/App/Retried/Conflict.antt =====
-- A request with the Idempotency-Key of another one, sent to the application of app/main.py.
use content_approval.Common.{
  String, ◌≡◌, refl, ap, ◌∙◌, false, ◌==◌, Option, none, some, find, if◌then◌else◌,
}
use content_approval.Db.Models.{Db, IdempotencyKey, JsonObject}
use content_approval.Db.Integrity.{IsSound}
use content_approval.Db.Session.{Exec, ok, err, effect}
use content_approval.Db.Session.Flush.{is_entry}
use content_approval.Db.Session.Transaction.{get_db}
use content_approval.Db.Session.Atomic.{map_result}
use content_approval.Auth.{Principal, AuthProvider}
use content_approval.Api.Schemas.{Libraries}
use content_approval.Api.Idempotency.{Reply, fingerprint, key_row, used_with_another_body}
use content_approval.Api.Idempotency.Replay.{find_key, stored_reply, first-run, later-run}
use content_approval.Api.Idempotency.Again.{find_key-stored}
use content_approval.Api.Routes.{Request}
use content_approval.App.{Process, Response, replied}
use content_approval.App.Decided.{respond, application-respond}
use content_approval.App.Refusals.{application-world}
use content_approval.App.Retried.{
  Sent, Sent-Done, IsKey, May, route-run, entered, keeps-keys, handled, answers,
}

module _ (provider : AuthProvider) (lib : Libraries) (ws key : String) (auth : Option String)
    (who : Principal) (lower : String → String) (method path : String) (r r' : Request)
    (rt : String) (payload payload' : JsonObject) (handler handler' : Exec Reply)
    (sent : Sent provider lib ws who.user_id key auth r rt payload handler)
    (sent' : Sent provider lib ws who.user_id key auth r' rt payload' handler')
    (may : May provider lib ws key auth who r) (may' : May provider lib ws key auth who r')
    (fits : IsKey key) where
  abbrev pub first : Option String → String → Process → Response × Process
  first = handled provider lib ws key auth who lower method path r rt payload handler sent may fits

  abbrev pub second : Option String → String → Process → Response × Process
  second =
      handled provider lib ws key auth who lower method path r' rt payload' handler' sent' may' fits

  refused :
      (header : Option String) (uuid : String) (p : Process) (k : IdempotencyKey)
      → find_key ws rt key p.world.db ≡ some k
      → (k.request_fingerprint == fingerprint lib payload') ≡ false
      → ((second header uuid p).0 ≡ respond lower header uuid (err used_with_another_body))
        × ((second header uuid p).1.world.db ≡ p.world.db)
  refused header uuid p k found other =
      let conflict =
        later-run lib ws rt key payload' handler' (entered provider lib ws key auth who p) k
          found in
      let replaced : (
        if k.request_fingerprint == fingerprint lib payload'
            then stored_reply (lib.model_validate k.response_body) k.response_status
            else err used_with_another_body,
        p.world.db,
      )
          ≡ (err used_with_another_body, p.world.db) =
        rw other refl in
      let both =
        route-run provider lib ws key auth who r' rt payload' handler' sent' may' fits
          (entered provider lib ws key auth who p)
        ∙ ap (λ x. (map_result replied x.0, x.1)) (conflict ∙ replaced) in
      (
        application-respond lower header uuid method path _ p (err used_with_another_body)
            (ap (λ x. x.0) both) refl,
        ap (λ x. x.db) (application-world lower method path header uuid _ p _ refl)
            ∙ ap (λ x. x.1) both,
      )

  -- A request to create, approve, reject or cancel, with a key that was not stored, of a principal who
  -- is allowed, with a body that its validation lets through, from a database that meets its
  -- constraints, where its handler succeeds; then, to the database that it left, a request to the same
  -- route with the same key, with a valid body of another fingerprint: whatever its handler would do,
  -- its response is the problem that the key was used with another body, and the database stays as it
  -- is.
  pub application-conflict :
      (header header' : Option String) (uuid uuid' : String) (p p' : Process) (reply : Reply)
      (db : Db)
      → IsSound p.world.db
      → find_key ws rt key p.world.db ≡ none
      → effect (get_db handler (entered provider lib ws key auth who p)) ≡ (ok reply, db)
      → p'.world.db ≡ (first header uuid p).1.world.db
      → (fingerprint lib payload == fingerprint lib payload') ≡ false
      → ((second header' uuid' p').0 ≡ respond lower header' uuid' (err used_with_another_body))
        × ((second header' uuid' p').1.world.db ≡ p'.world.db)
  application-conflict header header' uuid uuid' p p' reply db sound missing h left other =
      let w = entered provider lib ws key auth who p in
      let same =
        keeps-keys provider lib ws key auth who
          (Sent-Done provider lib ws who.user_id key auth w sent sound) h in
      let (t, runs) = first-run lib ws rt key payload handler w reply db missing same h in
      let (shown, kept) =
        answers provider lib ws key auth who lower method path r rt payload handler sent may fits
          header uuid p reply _ runs in
      let found : find_key ws rt key p'.world.db ≡ some (key_row lib ws rt key payload reply t) =
        ap (find_key ws rt key) (left ∙ kept)
        ∙ find_key-stored lib ws rt key payload reply t db
            (ap (find (is_entry ws rt key)) same ∙ missing) in
      refused header' uuid' p' (key_row lib ws rt key payload reply t) found other

-- ===== src/Tests/Overlaps.antt =====
-- Decisions and keyed requests whose transactions overlap: the theorems of Domain/Interleaved and of
-- Api/Idempotency/Race at work.
use content_approval.Common.{◌≡◌, refl, none, some, List, [], ◌∷◌}
use content_approval.Domain.DateTime.{aware, utc}
use content_approval.Domain.Changes.{Choice, approve, reject, Reaches}
use content_approval.Domain.Interleaved.{late, perform}
use content_approval.Domain.Interleaved.Late.{late-perform}
use content_approval.Domain.Interleaved.Schedule.{
  Pending, Runs, idle, then_step, reads, writes, keyed_writes, posts, Runs-Reaches,
}
use content_approval.Domain.Interleaved.Posts.{late_post}
use content_approval.Domain.Interleaved.Decisions.{late_decision}
use content_approval.Tests.Data.{creation_body}
use content_approval.Db.Models.{Db, IdempotencyKey}
use content_approval.Db.Integrity.{IsSound}
use content_approval.Db.Repository.Lookup.{find_request}
use content_approval.Db.Session.{World, effect, err, ok}
use content_approval.Db.Session.Transaction.{get_db}
use content_approval.Db.Session.Flush.{flush, flush_rows}
use content_approval.Api.Idempotency.{key_row, being_processed}
use content_approval.Api.Idempotency.Replay.{with_key}
use content_approval.Api.Idempotency.Race.{late_run, late_run-raced}
use content_approval.Api.Routes.{serve_all, Request}
use content_approval.Api.Routes.Sound.{serve_all-IsSound}
use content_approval.Api.Routes.Histories.{serve_all-Reaches}
use content_approval.Tests.Data.{
  world_with, one_request, one_request-IsSound, pending_row, provider, libraries,
}
use content_approval.Tests.Replays.{reply, handler}

-- Somebody approves the request after it was read.
abbrev approvals : List Request
approvals = Request.approve "acme" "ar_9" (some "Bearer x") none (some "fine") ∷ []

abbrev afterwards : World
afterwards = serve_all provider libraries (world_with one_request) approvals

late-perform_example :
    late "acme" "ar_9" "bob" (reject "off topic") (world_with one_request) afterwards
    ≡ effect (get_db (perform "acme" "ar_9" "bob" (reject "off topic")) afterwards)
unfolding find_request
late-perform_example =
    late-perform "acme" "ar_9" "bob" (reject "off topic") (world_with one_request) afterwards
      pending_row one_request-IsSound
      (serve_all-IsSound provider libraries (world_with one_request) approvals one_request-IsSound)
      (serve_all-Reaches provider libraries (world_with one_request) approvals one_request-IsSound)
      refl

abbrev waiting : Choice → Pending
waiting choice = record {
  workspace_id = "acme";
  request_id = "ar_9";
  actor_user_id = "bob";
  choice = choice;
  read_at = world_with one_request;
}

-- Both read the pending request before either writes.
abbrev both : List Pending
both = waiting (reject "off topic") ∷ waiting (approve none) ∷ []

abbrev first_written : Db
first_written =
    (late "acme" "ar_9" "bob" (approve none) (world_with one_request) (world_with one_request)).1

-- The second under a key, which was looked for before both.
abbrev second_written : Db
second_written =
    late_decision libraries "acme" "ar_9" "bob" "key-2" (reject "off topic") []
      (world_with one_request) (world_with one_request) (world_with first_written)

overlapping :
    Runs (record { db = one_request; pending = [] }) (record { db = second_written; pending = [] })
overlapping =
    then_step {mid = record { db = first_written; pending = waiting (reject "off topic") ∷ [] }}
      (then_step {mid = record { db = one_request; pending = both }}
        (then_step {mid = record { db = one_request; pending = waiting (approve none) ∷ [] }}
          (then_step idle (reads (waiting (approve none)) refl refl))
          (reads (waiting (reject "off topic")) refl refl))
        (writes (waiting (reject "off topic") ∷ []) (waiting (approve none)) []
          (world_with one_request) refl refl refl))
      (keyed_writes [] (waiting (reject "off topic")) [] libraries "key-2" []
        (world_with one_request) (world_with first_written) refl refl refl)

-- A creation whose look for its key is as old as the readings.
abbrev third_written : Db
third_written =
    late_post provider libraries "acme" "ann" "key-1" [] creation_body (world_with one_request)
      (world_with second_written)

with_creation :
    Runs (record { db = one_request; pending = [] }) (record { db = third_written; pending = [] })
with_creation = then_step overlapping (
    posts provider libraries "acme" "ann" "key-1" [] creation_body (world_with one_request)
      (world_with second_written) refl refl)

Runs-Reaches_example : IsSound third_written × Reaches one_request third_written
Runs-Reaches_example = Runs-Reaches one_request-IsSound with_creation

abbrev taken : IdempotencyKey
taken = key_row libraries "acme" "create" "key-1" [] reply (aware 4 utc)

replied_there :
    effect (get_db handler (world_with (with_key one_request taken)))
    ≡ (ok reply, with_key one_request taken)
unfolding get_db flush flush_rows
replied_there = refl

late_run-raced_example :
    late_run libraries "acme" "create" "key-1" [] handler
      (world_with one_request)
      (world_with (with_key one_request taken))
    ≡ (err being_processed, with_key one_request taken)
late_run-raced_example =
    late_run-raced libraries "acme" "create" "key-1" [] handler (world_with one_request)
      (world_with (with_key one_request taken)) taken reply (with_key one_request taken) refl refl
      replied_there refl

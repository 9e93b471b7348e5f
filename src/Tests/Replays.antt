-- ===== src/Tests/Replays.antt =====
-- A handler that runs under an idempotency key of app/api/idempotency.py.
use content_approval.Common.{[], ◌∷◌}
use content_approval.Db.Repository.Rows.{to_entity}
use content_approval.Db.Session.{Exec, pure}
use content_approval.Api.Schemas.{out_of}
use content_approval.Api.Idempotency.{Reply}
use content_approval.Tests.Data.{pending_row}

-- A handler that keeps what it does and answers with a fixed reply.
abbrev pub reply : Reply
reply = (out_of (to_entity pending_row ("bob" ∷ [])), 201)

abbrev pub handler : Exec Reply
handler = pure reply

-- ===== src/Tests/Codec.antt =====
-- A form of a response in JSON that can be read back: a reader and a writer for app/schemas, with which
-- the parameter that stands for pydantic can be given.
use content_approval.Common.{
  ℕ, zero, suc, String, ◌≡◌, refl, ap, ◌==◌, Option, none, some, List, [], ◌∷◌, if◌then◌else◌,
  length,
}
use content_approval.Domain.Enums.{SourceType, ApprovalStatus, source_type_value, status_value}
use content_approval.Domain.DateTime.{east, west, DateTime, naive, aware}
use content_approval.Db.Models.{Json, JsonObject, null, str, strs}
use content_approval.Api.Schemas.{ApprovalRequestOut}

abbrev copies : ℕ → List String
copies zero = []
copies (suc n) = "" ∷ copies n

length-copies : (n : ℕ) → length (copies n) ≡ n
length-copies zero = refl
length-copies (suc n) = ap suc (length-copies n)

abbrev zone : DateTime → Json
zone (naive t) = str "naive"
zone (aware t (east o)) = str "east"
zone (aware t (west o)) = str "west"

abbrev ticks : DateTime → Json
ticks (naive t) = strs (copies t)
ticks (aware t o) = strs (copies t)

abbrev offset : DateTime → Json
offset (naive t) = strs []
offset (aware t (east o)) = strs (copies o)
offset (aware t (west o)) = strs (copies o)

abbrev as_time : Json → Json → Json → Option DateTime
as_time (str kind) (strs t) (strs o) =
    if kind == "naive"
    then some (naive (length t))
    else if kind == "east"
    then some (aware (length t) (east (length o)))
    else some (aware (length t) (west (length o)))
as_time _ _ _ = none

as_time-parts : (t : DateTime) → as_time (zone t) (ticks t) (offset t) ≡ some t
as_time-parts (naive t) = rw (length-copies t)
as_time-parts (aware t (east o)) = rw (length-copies t, length-copies o)
as_time-parts (aware t (west o)) = rw (length-copies t, length-copies o)

abbrev or_null : (DateTime → Json) → Option DateTime → Json
or_null part none = null
or_null part (some t) = part t

abbrev as_some : Option DateTime → Option (Option DateTime)
as_some none = none
as_some (some t) = some (some t)

abbrev as_time_or_none : Json → Json → Json → Option (Option DateTime)
as_time_or_none null _ _ = some none
as_time_or_none kind t o = as_some (as_time kind t o)

as_time_or_none-parts :
    (t : Option DateTime)
    → as_time_or_none (or_null zone t) (or_null ticks t) (or_null offset t) ≡ some t
as_time_or_none-parts none = refl
as_time_or_none-parts (some (naive t)) = rw (length-copies t)
as_time_or_none-parts (some (aware t (east o))) = rw (length-copies t, length-copies o)
as_time_or_none-parts (some (aware t (west o))) = rw (length-copies t, length-copies o)

abbrev as_text : Json → Option String
as_text (str s) = some s
as_text _ = none

abbrev as_texts : Json → Option (List String)
as_texts (strs s) = some s
as_texts _ = none

abbrev text_or_null : Option String → Json
text_or_null none = null
text_or_null (some s) = str s

abbrev as_text_or_none : Json → Option (Option String)
as_text_or_none null = some none
as_text_or_none (str s) = some (some s)
as_text_or_none (strs s) = none

as_text_or_none-text : (o : Option String) → as_text_or_none (text_or_null o) ≡ some o
as_text_or_none-text none = refl
as_text_or_none-text (some s) = refl

abbrev as_status : Json → Option ApprovalStatus
as_status (str s) =
    if s == "pending"
    then some ApprovalStatus.pending
    else if s == "approved"
    then some ApprovalStatus.approved
    else if s == "rejected"
    then some ApprovalStatus.rejected
    else some ApprovalStatus.cancelled
as_status _ = none

as_status-value : (s : ApprovalStatus) → as_status (str (status_value s)) ≡ some s
as_status-value ApprovalStatus.pending = refl
as_status-value ApprovalStatus.approved = refl
as_status-value ApprovalStatus.rejected = refl
as_status-value ApprovalStatus.cancelled = refl

abbrev as_source : Json → Option SourceType
as_source (str s) =
    if s == "publication"
    then some SourceType.publication
    else if s == "scenario"
    then some SourceType.scenario
    else if s == "edit"
    then some SourceType.edit
    else some SourceType.external
as_source _ = none

as_source-value : (s : SourceType) → as_source (str (source_type_value s)) ≡ some s
as_source-value SourceType.publication = refl
as_source-value SourceType.scenario = refl
as_source-value SourceType.edit = refl
as_source-value SourceType.external = refl

abbrev pub written : ApprovalRequestOut → JsonObject
written r =
    ("id", str r.id)
    ∷ ("workspace_id", str r.workspace_id)
    ∷ ("source_type", str (source_type_value r.source_type))
    ∷ ("source_id", str r.source_id)
    ∷ ("title", str r.title)
    ∷ ("description", text_or_null r.description)
    ∷ ("reviewer_user_ids", strs r.reviewer_user_ids)
    ∷ ("status", str (status_value r.status))
    ∷ ("created_by_user_id", str r.created_by_user_id)
    ∷ ("created_at", zone r.created_at)
    ∷ ("created_at_ticks", ticks r.created_at)
    ∷ ("created_at_offset", offset r.created_at)
    ∷ ("updated_at", zone r.updated_at)
    ∷ ("updated_at_ticks", ticks r.updated_at)
    ∷ ("updated_at_offset", offset r.updated_at)
    ∷ ("decided_by_user_id", text_or_null r.decided_by_user_id)
    ∷ ("decided_at", or_null zone r.decided_at)
    ∷ ("decided_at_ticks", or_null ticks r.decided_at)
    ∷ ("decided_at_offset", or_null offset r.decided_at)
    ∷ ("decision_comment", text_or_null r.decision_comment)
    ∷ ("decision_reason", text_or_null r.decision_reason)
    ∷ []

abbrev item : ℕ → JsonObject → Json
item n [] = null
item zero ((k, v) ∷ rest) = v
item (suc n) ((k, v) ∷ rest) = item n rest

infixl 5 ◌>>=◌
abbrev ◌>>=◌ {ℓ κ} : {A : Type ℓ} {B : Type κ} → Option A → (A → Option B) → Option B
none >>= k = none
some a >>= k = k a

abbrev pub read_back : JsonObject → Option ApprovalRequestOut
read_back o = do
  id ← as_text (item 0 o)
  workspace_id ← as_text (item 1 o)
  source_type ← as_source (item 2 o)
  source_id ← as_text (item 3 o)
  title ← as_text (item 4 o)
  description ← as_text_or_none (item 5 o)
  reviewer_user_ids ← as_texts (item 6 o)
  status ← as_status (item 7 o)
  created_by_user_id ← as_text (item 8 o)
  created_at ← as_time (item 9 o) (item 10 o) (item 11 o)
  updated_at ← as_time (item 12 o) (item 13 o) (item 14 o)
  decided_by_user_id ← as_text_or_none (item 15 o)
  decided_at ← as_time_or_none (item 16 o) (item 17 o) (item 18 o)
  decision_comment ← as_text_or_none (item 19 o)
  decision_reason ← as_text_or_none (item 20 o)
  some (record {
    id = id;
    workspace_id = workspace_id;
    source_type = source_type;
    source_id = source_id;
    title = title;
    description = description;
    reviewer_user_ids = reviewer_user_ids;
    status = status;
    created_by_user_id = created_by_user_id;
    created_at = created_at;
    updated_at = updated_at;
    decided_by_user_id = decided_by_user_id;
    decided_at = decided_at;
    decision_comment = decision_comment;
    decision_reason = decision_reason;
  })

pub read_back-written : (r : ApprovalRequestOut) → read_back (written r) ≡ some r
read_back-written r = rw (
  as_source-value r.source_type,
  as_text_or_none-text r.description,
  as_status-value r.status,
  as_time-parts r.created_at,
  as_time-parts r.updated_at,
  as_text_or_none-text r.decided_by_user_id,
  as_time_or_none-parts r.decided_at,
  as_text_or_none-text r.decision_comment,
  as_text_or_none-text r.decision_reason,
)

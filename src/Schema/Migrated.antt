-- ===== src/Schema/Migrated.antt =====
-- The initial migration beside the models: what upgrade makes, and what downgrade leaves.
use content_approval.Common.{
  String, ◌≡◌, refl, sym, ap, subst, ◌∙◌, false, ◌==◌, eq_iff, some, List, [], ◌∷◌, ◌++◌, find,
  find-append, or_else, Bool-cases, inl, inr, All,
}
use content_approval.Schema.{Table}
use content_approval.Schema.Declared.{metadata}
use content_approval.Schema.Initial.{
  upgrade, downgrade, created_requests, created_keys, created_reviewers, created_audit,
  created_outbox,
}
use mathlib.Core.List.{append-nil}
use content_approval.Schema.Beside.{IsFree, beside, execute_all-beside}
use content_approval.Schema.Run.{Catalog, is_table, execute_all, ◌>>=◌, with_index}

abbrev indexed : String → List String → Table → Table
indexed name columns = with_index (record { name = name; columns = columns })

-- The tables that the migration makes, in its order.
abbrev pub migrated : Catalog
migrated =
    indexed "ix_approval_requests_workspace_status" ("workspace_id" ∷ "status" ∷ []) (
      indexed "ix_approval_requests_workspace_created" ("workspace_id" ∷ "created_at" ∷ [])
        created_requests)
    ∷ created_keys
    ∷ created_reviewers
    ∷ indexed "ix_audit_log_entries_workspace_request"
        ("workspace_id" ∷ "approval_request_id" ∷ "created_at" ∷ []) created_audit
    ∷ indexed "ix_outbox_events_unpublished" ("published_at" ∷ "created_at" ∷ []) created_outbox
    ∷ []

upgrade-empty : execute_all upgrade [] ≡ some migrated
unfolding execute_all
upgrade-empty = refl

downgrade-migrated : execute_all downgrade migrated ≡ some []
unfolding execute_all
downgrade-migrated = refl

-- No table of the catalog and no index has a name of the service's tables and indexes, and none refers to one.
unfoldable pub IsBare : Catalog → Type 0
IsBare c = All (IsFree c) (
    "approval_requests" ∷ "idempotency_keys" ∷ "approval_request_reviewers" ∷ "audit_log_entries"
    ∷ "outbox_events" ∷ "ix_approval_requests_workspace_created"
    ∷ "ix_approval_requests_workspace_status" ∷ "ix_audit_log_entries_workspace_request"
    ∷ "ix_outbox_events_unpublished" ∷ [])

pub upgrade-adds : (c : Catalog) → IsBare c → execute_all upgrade c ≡ some (c ++ migrated)
unfolding IsBare
upgrade-adds c (r, (k, (v, (a, (o, (rc, (rs, (ar, (ou, _))))))))) =
    ap (execute_all upgrade) (sym (append-nil c))
    ∙ execute_all-beside c upgrade [] (
      (r, tt),
      (
        (r, (rc, tt)),
        (
          (r, (rs, tt)),
          (
            (k, tt),
            ((v, (r, tt)), ((a, (r, tt)), ((a, (ar, tt)), ((o, (r, tt)), ((o, (ou, tt)), tt))))),
          ),
        ),
      ),
    )
    ∙ ap (beside c) upgrade-empty

downgrade-removes : (c : Catalog) → IsBare c → execute_all downgrade (c ++ migrated) ≡ some c
unfolding IsBare
downgrade-removes c (r, (k, (v, (a, (o, (rc, (rs, (ar, (ou, _))))))))) =
    execute_all-beside c downgrade migrated (
      (o, tt),
      ((o, tt), ((a, tt), ((a, tt), ((v, tt), ((k, tt), ((r, tt), ((r, tt), ((r, tt), tt)))))))),
    )
    ∙ ap (beside c) downgrade-migrated
    ∙ ap some (append-nil c)

-- Two catalogs in which the tables of these names are found alike and no others are there.
at_name :
    (known name : String) (c d : Catalog)
    → find (is_table known) c ≡ find (is_table known) d
    → ((known == name) ≡ false → find (is_table name) c ≡ find (is_table name) d)
    → find (is_table name) c ≡ find (is_table name) d
at_name known name c d here elsewhere = elim (Bool-cases (known == name)) [
  | inl same ↦
      subst (λ n. find (is_table n) c ≡ find (is_table n) d) ((eq_iff known name).0 same) here
  | inr other ↦ elsewhere other
]

is_declared : (name : String) → find (is_table name) migrated ≡ find (is_table name) metadata
is_declared name = at_name "approval_requests" name migrated metadata refl (λ r.
    at_name "idempotency_keys" name migrated metadata refl (λ k.
      at_name "approval_request_reviewers" name migrated metadata refl (λ v.
        at_name "audit_log_entries" name migrated metadata refl (λ a.
          at_name "outbox_events" name migrated metadata refl (λ o. rw (r, k, v, a, o) refl)))))

-- In a database whose tables and indexes have none of the names of the service and do not refer to its
-- tables, the migration succeeds, and each table that is found afterwards by its name is the one that
-- was there, or the one that the models declare: columns, types, keys, foreign keys and indexes.
pub upgrade-declared :
    (c : Catalog)
    → IsBare c
    → (name : String)
    → (execute_all upgrade c >>= (λ d. some (find (is_table name) d)))
      ≡ some (or_else (find (is_table name) c) (find (is_table name) metadata))
upgrade-declared c bare name =
    rw (upgrade-adds c bare, find-append (is_table name) c migrated, is_declared name) refl

-- In a database whose tables and indexes have none of the names of the service and do not refer to its
-- tables, the migration and then its downgrade succeed, and leave the tables that were there.
pub downgrade-upgrade :
    (c : Catalog) → IsBare c → (execute_all upgrade c >>= execute_all downgrade) ≡ some c
downgrade-upgrade c bare = rw (upgrade-adds c bare) (downgrade-removes c bare)

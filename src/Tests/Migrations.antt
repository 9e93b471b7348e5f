-- ===== src/Tests/Migrations.antt =====
-- The migration run beside a table of somebody else, and undone: the theorems of Schema/Migrated at work.
use content_approval.Common.{◌≡◌, refl, some, [], ◌∷◌, find}
use content_approval.Schema.{Table, string}
use content_approval.Schema.Declared.{required, audit_table}
use content_approval.Schema.Initial.{upgrade, downgrade}
use content_approval.Schema.Run.{Catalog, execute_all, ◌>>=◌, is_table}
use content_approval.Schema.Rows.{request, appended}
use content_approval.Schema.Enforced.{insert, insert-permits}
use content_approval.Tests.Data.{one_request, rejected_row}
use content_approval.Schema.Migrated.{IsBare, upgrade-declared, downgrade-upgrade}

-- The table in which alembic keeps the revision.
abbrev pub version_table : Table
version_table = record {
  name = "alembic_version";
  columns = required "version_num" string ∷ [];
  primary_key = record { name = "alembic_version_pkc"; columns = "version_num" ∷ [] };
  unique = [];
  foreign_keys = [];
  indexes = [];
}

abbrev pub versions : Catalog
versions = version_table ∷ []

pub versions-IsBare : IsBare versions
unfolding IsBare
versions-IsBare = (
  (refl, refl, refl),
  (
    (refl, refl, refl),
    (
      (refl, refl, refl),
      (
        (refl, refl, refl),
        (
          (refl, refl, refl),
          (
            (refl, refl, refl),
            ((refl, refl, refl), ((refl, refl, refl), ((refl, refl, refl), tt))),
          ),
        ),
      ),
    ),
  ),
)

upgrade-declared_example :
    (execute_all upgrade versions >>= (λ d. some (find (is_table "audit_log_entries") d)))
    ≡ some (some audit_table)
upgrade-declared_example = upgrade-declared versions versions-IsBare "audit_log_entries"

downgrade-upgrade_example : (execute_all upgrade versions >>= execute_all downgrade) ≡ some versions
downgrade-upgrade_example = downgrade-upgrade versions versions-IsBare

insert-permits_example :
    insert (request rejected_row) one_request ≡ some (appended (request rejected_row) one_request)
insert-permits_example = insert-permits (request rejected_row) one_request

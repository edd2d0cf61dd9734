-- ===== src/Tests/NewMigration.antt =====
-- Example of the files of a new migration.
use kamu_llm_gateway.Prelude.{◌≡◌, refl, some, List, [], ◌∷◌, Text, codes, text_eq}
use kamu_llm_gateway.Migrate.{Entry}
use kamu_llm_gateway.NewMigration.{timestamp, file_of, new_migration, write_file}
use kamu_llm_gateway.NewMigration.Found.{IsFound, new_migration-IsFound}
use kamu_llm_gateway.Tests.Migrate.{before_or_same, first_file}

abbrev iso : Text
iso = codes "2026-11-25T22:31:45.123Z"

abbrev name : Text
name = codes "add_link"

abbrev written : List Entry
written =
    first_file
    ∷ file_of (codes "20261125223145_add_link.up.sql")
    ∷ file_of (codes "20261125223145_add_link.down.sql")
    ∷ []

wrote : new_migration iso (some name) (first_file ∷ []) ≡ some written
unfolding new_migration write_file timestamp text_eq
wrote = refl

new_migration-IsFound_example : IsFound before_or_same iso name written
unfolding timestamp
new_migration-IsFound_example =
    new_migration-IsFound before_or_same iso name (first_file ∷ []) written wrote refl refl

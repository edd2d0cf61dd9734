-- ===== src/NewMigration.antt =====
-- database/new-migration.ts: the pair of files of a new migration. `iso` is what `toISOString` gives,
-- the directory is the one of the migrations, in which the name names a file, and the script exits
-- with 1 and writes nothing where there is no name.
pub mod Found
use kamu_llm_gateway.Prelude.{
  ℕ, Bool, not, ◌||◌, true, Option, none, some, List, [], ◌∷◌, ◌++◌, Text, codes, text_eq, is_empty,
  select, take, ◌==◌, if◌then◌else◌,
}
use kamu_llm_gateway.Migrate.{Entry}

-- `/[-:T]/`
abbrev pub is_mark : ℕ → Bool
is_mark c = c == b'-' || (c == b':' || c == b'T')

-- `iso.replace(/[-:T]/g, "").slice(0, 14)`
unfoldable pub timestamp : Text → Text
timestamp iso = take 14 (select (λ c. not (is_mark c)) iso)

abbrev pub base_of : Text → Text → Text
base_of iso name = timestamp iso ++ b'_' ∷ name

-- `-- ${timestamp}_${name}.up.sql\n\n`
abbrev pub file_of : Text → Entry
file_of filename = record {
  name = filename;
  is_file = true;
  content = codes "-- " ++ (filename ++ 10 ∷ 10 ∷ []);
}

-- `Deno.writeTextFile`, which writes over a file of the name; no subdirectory has the name.
unfoldable pub write_file : Entry → List Entry → List Entry
write_file e [] = e ∷ []
write_file e (f ∷ dir) = if text_eq f.name e.name then e ∷ dir else f ∷ write_file e dir

abbrev pub up_file : Text → Text → Text
up_file iso name = base_of iso name ++ codes ".up.sql"

abbrev pub down_file : Text → Text → Text
down_file iso name = base_of iso name ++ codes ".down.sql"

write_pair : Text → Text → List Entry → List Entry
unfolding write_file
write_pair iso name dir =
    write_file (file_of (down_file iso name)) (write_file (file_of (up_file iso name)) dir)

unfoldable pub new_migration : Text → Option Text → List Entry → Option (List Entry)
unfolding write_pair
new_migration iso none dir = none
new_migration iso (some name) dir = if is_empty name then none else some (write_pair iso name dir)

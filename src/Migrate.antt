-- ===== src/Migrate.antt =====
-- database/migrate.ts: the migrations of a directory are applied once each and rolled back one by
-- one, under the bookkeeping of migrations.schema_migrations. The schema that a migration changes is
-- `Schema`; `execute` runs the text of a file on it in a transaction under MIGRATE_ROLE, `none` where
-- it fails; `locale_le` is the order of `localeCompare`, and `compute_hash` is `computeHash`, which
-- `file_hash` gives for a UTF-8 encoder and a SHA-256.
pub mod Up
pub mod Rows
pub mod Again
pub mod Down
use kamu_llm_gateway.Prelude.{
  ℕ, Bool, true, false, not, ◌&&◌, ◌||◌, Option, none, some, List, [], ◌∷◌, ◌++◌, Text, codes,
  text_eq, is_empty, starts_with, ends_with, any, all, find, select, map, sort_by, drop, length,
  ltb, leb, ◌==◌, ◌-◌, if◌then◌else◌,
}
use kamu_llm_gateway.Credentials.{hash_key}

-- A row of migrations.schema_migrations.
pub record Applied : Type 0 where
  pub filename : Text
  pub hash : Option Text

-- An entry of the directory.
pub record Entry : Type 0 where
  pub name : Text
  pub is_file : Bool
  pub content : Text

pub record Migration : Type 0 where
  pub filename : Text
  pub content : Text

-- The database, whose tracking table may be missing.
pub record Store (Schema : Type 0) : Type 0 where
  pub schema : Schema
  pub applied : Option (List Applied)

-- How a command ends: well, with an exception at a statement, or by `Deno.exit(1)`.
pub data Outcome : Type 0 where
  done failed exited : Outcome

-- `includes` of a text.
unfoldable pub includes_text : Text → Text → Bool
includes_text [] t = is_empty t
includes_text (c ∷ s) t = starts_with (c ∷ s) t || includes_text s t

-- `<` on texts, as `sort()` compares them.
unfoldable pub text_lt : Text → Text → Bool
text_lt [] [] = false
text_lt [] (c ∷ t) = true
text_lt (c ∷ s) [] = false
text_lt (c ∷ s) (d ∷ t) = ltb c d || (c == d && text_lt s t)

-- `/^[a-z_][a-z0-9_]*$/`
is_lower : ℕ → Bool
is_lower c = (leb b'a' c && leb c b'z') || c == b'_'

is_role_char : ℕ → Bool
unfolding is_lower
is_role_char c = is_lower c || (leb b'0' c && leb c b'9')

unfoldable pub is_role : Text → Bool
unfolding is_lower is_role_char
is_role [] = false
is_role (c ∷ s) = is_lower c && all is_role_char s

-- `sql`CREATE TABLE IF NOT EXISTS …``
abbrev pub ensure_table : Option (List Applied) → List Applied
ensure_table none = []
ensure_table (some rows) = rows

abbrev pub is_applied : List Applied → Migration → Bool
is_applied rows m = any (λ r. text_eq r.filename m.filename) rows

abbrev pub has_filename : Text → Migration → Bool
has_filename f m = text_eq m.filename f

abbrev pub filename_le : (Text → Text → Bool) → Migration → Migration → Bool
filename_le le m n = le m.filename n.filename

unfoldable pub to_migration : Entry → Migration
to_migration e = record { filename = e.name; content = e.content }

abbrev pub is_migration : Text → Entry → Bool
is_migration suffix e = e.is_file && ends_with e.name suffix

unfoldable pub read_migrations : (Text → Text → Bool) → Text → List Entry → List Migration
unfolding to_migration
read_migrations le suffix dir =
    sort_by (filename_le le) (map to_migration (select (is_migration suffix) dir))

-- The greatest file name, as `[...applied].sort().pop()` finds it.
unfoldable pub last_applied : Text → List Applied → Text
last_applied best [] = best
last_applied best (r ∷ rows) =
    last_applied (if text_lt best r.filename then r.filename else best) rows

-- `s.replace(t, "")`
unfoldable pub remove_text : Text → Text → Text
remove_text t [] = []
remove_text t (c ∷ s) =
    let rest = remove_text t s in
    if starts_with (c ∷ s) t then drop (length t) (c ∷ s) else c ∷ rest

unfoldable pub down_filename : Text → Text
down_filename last = remove_text (codes ".up.sql") last ++ codes ".down.sql"

unfoldable pub file_hash : (Text → List ℕ) → (List ℕ → List ℕ) → Text → Text
unfolding hash_key
file_hash encode sha256 content = hash_key encode sha256 content

module _ (compute_hash : Text → Text) where
  -- Whether the file of an applied migration, if it is there, has another hash than the stored one.
  abbrev pub file_changed : Option Migration → Text → Bool
  file_changed none h = false
  file_changed (some m) h = not (is_empty h) && not (text_eq (compute_hash m.content) h)

  abbrev pub hash_differs : Option Migration → Option Text → Bool
  hash_differs migration none = false
  hash_differs migration (some h) = file_changed migration h

  abbrev pub is_changed : List Migration → Applied → Bool
  is_changed migrations row = hash_differs (find (has_filename row.filename) migrations) row.hash

  unfoldable pub verify_integrity : List Migration → List Applied → Bool
  verify_integrity migrations rows = not (any (is_changed migrations) rows)

  abbrev pub fill : Option Migration → Applied → Applied
  fill none row = row
  fill (some m) row = record row { hash = some (compute_hash m.content) }

  abbrev pub backfill_by : List Migration → Option Text → Applied → Applied
  backfill_by migrations (some h) row = row
  backfill_by migrations none row = fill (find (has_filename row.filename) migrations) row

  abbrev pub backfill : List Migration → Applied → Applied
  backfill migrations row = backfill_by migrations row.hash row

  unfoldable pub backfill_hashes : List Migration → List Applied → List Applied
  backfill_hashes migrations rows = map (backfill migrations) rows

  abbrev pub tracked : Migration → Applied
  tracked m = record { filename = m.filename; hash = some (compute_hash m.content) }

  module _ {Schema : Type 0} (execute : Text → Schema → Option Schema) where
    -- The transactions of the pending migrations: the first that fails ends the command.
    unfoldable pub apply_all :
        List Migration → Schema → List Applied → Outcome × (Schema × List Applied)
    apply_all [] schema rows = (done, (schema, rows))
    apply_all (m ∷ pending) schema rows = elim (execute m.content schema) [
      | none ↦ (failed, (schema, rows))
      | some later ↦ apply_all pending later (tracked m ∷ rows)
    ]

    unfoldable pub apply_pending : List Migration → Schema → List Applied → Outcome × Store Schema
    apply_pending migrations schema rows =
        let pending = select (λ m. not (is_applied rows m)) migrations in
        let (outcome, (later, rows')) =
          apply_all pending schema (backfill_hashes migrations rows) in
        (outcome, record { schema = later; applied = some rows' })

    unfoldable pub roll_back : Text → Migration → Schema → List Applied → Outcome × Store Schema
    roll_back last m schema rows = elim (execute m.content schema) [
      | none ↦ (failed, record { schema = schema; applied = some rows })
      | some later ↦ (
        done,
        record {
          schema = later;
          applied = some (select (λ r. not (text_eq r.filename last)) rows);
        },
      )
    ]

    module _ (locale_le : Text → Text → Bool) (dir : List Entry) where
      unfoldable pub up : Store Schema → Outcome × Store Schema
      up store =
          let rows = ensure_table store.applied in
          let migrations = read_migrations locale_le (codes ".up.sql") dir in
          if verify_integrity migrations rows
          then apply_pending migrations store.schema rows
          else (exited, record { schema = store.schema; applied = some rows })

      unfoldable pub down_last : Schema → Applied → List Applied → Outcome × Store Schema
      unfolding roll_back
      down_last schema row rows =
          let last = last_applied row.filename rows in
          elim (find (has_filename (down_filename last))
            (read_migrations locale_le (codes ".down.sql") dir)) [
              | none ↦ (exited, record { schema = schema; applied = some (row ∷ rows) })
              | some m ↦ roll_back last m schema (row ∷ rows)
            ]

      unfoldable pub down_rows : Schema → List Applied → Outcome × Store Schema
      unfolding down_last
      down_rows schema [] = (done, record { schema = schema; applied = some [] })
      down_rows schema (row ∷ rows) = down_last schema row rows

      unfoldable pub down : Store Schema → Outcome × Store Schema
      unfolding down_rows
      down store = down_rows store.schema (ensure_table store.applied)

      -- `read_file` gives the text of a file, `none` where there is no such file; `run_sql` runs a
      -- text as the login role.
      module _ (read_file : Text → Option Text) (run_sql : Text → Schema → Option Schema) where
        run_seed : Option Text → Store Schema → Outcome × Store Schema
        run_seed none store = (exited, store)
        run_seed (some content) store = elim (run_sql content store.schema) [
          | none ↦ (failed, store)
          | some later ↦ (done, record store { schema = later })
        ]

        unfoldable pub seed : Option Text → Store Schema → Outcome × Store Schema
        unfolding run_seed
        seed file store =
            run_seed (read_file (elim file [ none ↦ codes "seeds/development.sql" | some f ↦ f ]))
              store

        seed_after : Bool → Outcome × Store Schema → Outcome × Store Schema
        seed_after with_seed (done, store) = if with_seed then seed none store else (done, store)
        seed_after with_seed other = other

        -- `drop_schemas` drops the llm schema; the tracking table goes with its own.
        unfoldable pub reset :
            (Schema → Schema) → Text → Bool → Store Schema → Outcome × Store Schema
        unfolding seed_after
        reset drop_schemas url with_seed store =
            let fresh : Store Schema = record {
              schema = drop_schemas store.schema;
              applied = none;
            } in
            if includes_text url (codes "localhost") || includes_text url (codes "127.0.0.1")
            then seed_after with_seed (up fresh)
            else (exited, store)

        -- The whole command; `argument` is what follows `seed`.
        unfoldable pub run_command :
            (Schema → Schema)
            → Option Text
            → Text
            → Bool
            → Text
            → Option Text
            → Store Schema
            → Outcome × Store Schema
        run_command drop_schemas url role with_seed command argument store =
            let is = λ (name : Text). text_eq command name in
            let known =
              is (codes "up") || is (codes "down") || is (codes "reset") || is (codes "seed") in
            if not known || not (is_role role) then (exited, store) else elim url [
              | none ↦ (exited, store)
              | some u ↦
                  if is (codes "up")
                  then up store
                  else if is (codes "down")
                  then down store
                  else if is (codes "seed")
                  then seed argument store
                  else reset drop_schemas u with_seed store
            ]

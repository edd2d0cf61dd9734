-- ===== src/Migrate/Again.antt =====
-- The command `up` as a whole: what a second run, a failing file and a changed file do.
use kamu_llm_gateway.Prelude.{
  ◌≡◌, refl, sym, ap, ap₂, subst, ◌∙◌, inl, inr, Bool, true, false, not, Option, some, List, [],
  Text, codes, text_eq, text_eq_iff, is_empty, find, find-eq-some, find-eq-none, All-In, any_of_In,
  select, map, In, In_of_select, any-eq-false, select-eq-nil, map-eq_self, In_of_map, In_of_sort_by,
  Bool-cases, Option-cases,
}
use kamu_llm_gateway.Migrate.{
  Applied, Entry, Migration, Store, Outcome, done, failed, exited, is_applied, ensure_table,
  read_migrations, is_changed, has_filename, hash_differs, file_changed, verify_integrity, backfill,
  filename_le, to_migration, is_migration, backfill_hashes, apply_all, apply_pending, up,
}
use kamu_llm_gateway.Migrate.Up.{track_all, StoppedAt, apply_all-failed, apply_all-done}
use kamu_llm_gateway.Migrate.Rows.{NamesDiffer, IsSettled, run-IsSettled, run_tracks}

-- No two entries of a directory have the same name.
abbrev pub EntriesDiffer : List Entry → Type 0
EntriesDiffer dir = (d e : Entry) → In d dir → In e dir → d.name ≡ e.name → d ≡ e

module _ (le : Text → Text → Bool) where
  -- The entry that a file which is read comes from.
  read_from :
      (suffix : Text) (dir : List Entry) (m : Migration)
      → In m (read_migrations le suffix dir)
      → (e : Entry) × In e dir × (m ≡ to_migration e)
  unfolding read_migrations
  read_from suffix dir m h =
      let there =
        In_of_sort_by (filename_le le) m (map to_migration (select (is_migration suffix) dir)) h in
      let (e, chosen, same) = In_of_map to_migration m (select (is_migration suffix) dir) there in
      (e, (In_of_select (is_migration suffix) e dir chosen).0, same)

  read_migrations-NamesDiffer :
      (suffix : Text) (dir : List Entry)
      → EntriesDiffer dir
      → NamesDiffer (read_migrations le suffix dir)
  unfolding to_migration
  read_migrations-NamesDiffer suffix dir differ m n mh nh same =
      let (d, dh, md) = read_from suffix dir m mh in
      let (e, eh, ne) = read_from suffix dir n nh in
      let names : d.name ≡ e.name =
        sym (ap (λ (x : Migration). x.filename) md)
        ∙ (same ∙ ap (λ (x : Migration). x.filename) ne) in
      md ∙ (ap to_migration (differ d e dh eh names) ∙ sym ne)

find_named :
    (ms : List Migration)
    → NamesDiffer ms
    → (m : Migration) (r : Applied) → In m ms
    → m.filename ≡ r.filename
    → find (has_filename r.filename) ms ≡ some m
find_named ms differ m r here named = elim (Option-cases (find (has_filename r.filename) ms)) [
  | inl missing ↦
      let other =
        All-In (λ n. has_filename r.filename n ≡ false) m ms
          (find-eq-none (has_filename r.filename) ms missing) here in
      absurd (cc (other, (text_eq_iff m.filename r.filename).1 named))
  | inr (n, found) ↦
      let (there, same) = find-eq-some (has_filename r.filename) ms found in
      found
      ∙ ap some (differ n m there here ((text_eq_iff n.filename r.filename).0 same ∙ sym named))
]

module _ (compute_hash : Text → Text) {Schema : Type 0} (execute : Text → Schema → Option Schema)
    (le : Text → Text → Bool) (dir : List Entry) where
  -- The migrations of the directory, the ones that have no row, and what `up` makes of a database.
  abbrev pub files : List Migration
  files = read_migrations le (codes ".up.sql") dir

  abbrev pub pending : List Applied → List Migration
  pending rows = select (λ m. not (is_applied rows m)) files

  abbrev migrate : Schema → List Applied → Outcome × (Schema × List Applied)
  migrate schema rows =
      apply_all compute_hash execute (pending rows) schema (backfill_hashes compute_hash files rows)

  abbrev saved : Outcome × (Schema × List Applied) → Outcome × Store Schema
  saved (outcome, (schema, rows)) = (outcome, record { schema = schema; applied = some rows })

  up-intact :
      (store : Store Schema)
      → verify_integrity compute_hash files (ensure_table store.applied) ≡ true
      → up compute_hash execute le dir store
        ≡ saved (migrate store.schema (ensure_table store.applied))
  unfolding up apply_pending
  up-intact store intact = rw intact

  -- A database whose rows are all settled and cover the directory stays as it is.
  up-settled :
      (schema : Schema) (rows : List Applied)
      → ((r : Applied) → In r rows → IsSettled compute_hash files r)
      → ((m : Migration) → In m files → is_applied rows m ≡ true)
      → up compute_hash execute le dir (record { schema = schema; applied = some rows })
        ≡ (done, record { schema = schema; applied = some rows })
  unfolding verify_integrity backfill_hashes apply_all
  up-settled schema rows settled covered =
      let store : Store Schema = record { schema = schema; applied = some rows } in
      let intact : verify_integrity compute_hash files rows ≡ true =
        ap not (any-eq-false (is_changed compute_hash files) rows (λ r h. (settled r h).intact)) in
      let nothing : pending rows ≡ [] =
        select-eq-nil (λ m. not (is_applied rows m)) files (λ m h. ap not (covered m h)) in
      let same : backfill_hashes compute_hash files rows ≡ rows =
        map-eq_self (backfill compute_hash files) rows (λ r h. (settled r h).filled) in
      up-intact store intact
      ∙ ap₂
          (λ (p : List Migration) (q : List Applied).
            saved (apply_all compute_hash execute p schema q))
          nothing same

  up-changed :
      (store : Store Schema)
      → verify_integrity compute_hash files (ensure_table store.applied) ≡ false
      → up compute_hash execute le dir store
        ≡ (exited, record { schema = store.schema; applied = some (ensure_table store.applied) })
  unfolding up
  up-changed store changed = rw changed

  up-done :
      (store : Store Schema)
      → (up compute_hash execute le dir store).0 ≡ done
      → verify_integrity compute_hash files (ensure_table store.applied) ≡ true
  up-done store e =
      elim (Bool-cases (verify_integrity compute_hash files (ensure_table store.applied))) [
        | inl intact ↦ intact
        | inr changed ↦ absurd (cc (e, up-changed store changed))
      ]

  -- After an `up` that ends well, another `up` ends well too and changes nothing: neither the schema
  -- nor a row of the tracking table.
  pub up_again :
      (store : Store Schema)
      → EntriesDiffer dir
      → (up compute_hash execute le dir store).0 ≡ done
      → up compute_hash execute le dir (up compute_hash execute le dir store).1
        ≡ (done, (up compute_hash execute le dir store).1)
  up_again store differ ends =
      let rows = ensure_table store.applied in
      let intact = up-done store ends in
      let first = up-intact store intact in
      let result = migrate store.schema rows in
      let went : result.0 ≡ done = sym (ap (λ (o : Outcome × Store Schema). o.0) first) ∙ ends in
      let tracks : result.1.1
          ≡ track_all compute_hash (pending rows) (backfill_hashes compute_hash files rows) =
        apply_all-done compute_hash execute (pending rows) store.schema
          (backfill_hashes compute_hash files rows) went in
      let names = read_migrations-NamesDiffer le (codes ".up.sql") dir differ in
      rw first (
        up-settled result.1.0 result.1.1
          (λ r h.
            run-IsSettled compute_hash files names (pending rows) rows
              (λ m here. (In_of_select (λ n. not (is_applied rows n)) m files here).0) intact r
              (subst (In r) tracks h))
          (λ m h. ap (λ l. is_applied l m) tracks ∙ run_tracks compute_hash files names rows m h))

  -- A run that a migration's text fails: the schema and the rows are what the migrations before it
  -- leave, and a database that was intact has only gained their rows.
  pub up-failed :
      (store : Store Schema)
      → (up compute_hash execute le dir store).0 ≡ failed
      → (rows : List Applied) × ((up compute_hash execute le dir store).1.applied ≡ some rows)
        × StoppedAt compute_hash execute
            (pending (ensure_table store.applied))
            store.schema
            (backfill_hashes compute_hash files (ensure_table store.applied))
            ((up compute_hash execute le dir store).1.schema, rows)
  up-failed store ends =
      let rows = ensure_table store.applied in
      elim (Bool-cases (verify_integrity compute_hash files rows)) [
        | inl intact ↦
            let first = up-intact store intact in
            let result = migrate store.schema rows in
            let broke : result.0 ≡ failed =
              sym (ap (λ (o : Outcome × Store Schema). o.0) first) ∙ ends in
            rw first (
              result.1.1,
              refl,
              apply_all-failed compute_hash execute (pending rows) store.schema
                  (backfill_hashes compute_hash files rows) broke,
            )
        | inr changed ↦ absurd (cc (ends, up-changed store changed))
      ]

  -- A row whose stored hash is not that of its file stops `up` with exit code 1 before any migration
  -- runs: the schema and the rows are the ones from before.
  pub up-tampered :
      (store : Store Schema) (r : Applied) (h : Text) (m : Migration)
      → EntriesDiffer dir
      → In r (ensure_table store.applied)
      → r.hash ≡ some h
      → is_empty h ≡ false
      → In m files
      → m.filename ≡ r.filename
      → text_eq (compute_hash m.content) h ≡ false
      → up compute_hash execute le dir store
        ≡ (exited, record { schema = store.schema; applied = some (ensure_table store.applied) })
  unfolding verify_integrity
  up-tampered store r h m differ here stored full there named other =
      let names = read_migrations-NamesDiffer le (codes ".up.sql") dir differ in
      let by_file : file_changed compute_hash (some m) h ≡ true = rw (full, other) in
      let changed : is_changed compute_hash files r ≡ true =
        ap₂ (λ (o : Option Migration) (k : Option Text). hash_differs compute_hash o k)
          (find_named files names m r there named) stored
        ∙ by_file in
      up-changed store (
        ap not
          (any_of_In (is_changed compute_hash files) r (ensure_table store.applied) here changed))

-- ===== src/NewMigration/Found.antt =====
-- The files of a new migration are a migration of database/migrate.ts and its way back.
use kamu_llm_gateway.Prelude.{
  ◌≡◌, Bool, refl, ap, subst, inl, inr, true, false, some, List, [], ◌∷◌, ◌++◌, Text, codes,
  starts_with, text_eq, In, In-select, In-map, In-sort_by, arith, is_empty, Bool-cases, ◌==◌,
}
use kamu_llm_gateway.Prelude.Splitting.{Lacks, Lacks-append}
use kamu_llm_gateway.Prelude.Suffixes.{ends_with-append}
use kamu_llm_gateway.Migrate.{
  Entry, to_migration, is_migration, filename_le, read_migrations, remove_text, down_filename,
}
use kamu_llm_gateway.NewMigration.{
  timestamp, base_of, file_of, write_file, up_file, down_file, write_pair, new_migration,
}

In-write_file : (e : Entry) (dir : List Entry) → In e (write_file e dir)
unfolding write_file
In-write_file e [] = inl refl
In-write_file e (f ∷ dir) = elim (Bool-cases (text_eq f.name e.name)) [
  | inl same ↦ rw same (inl refl)
  | inr other ↦ rw other (inr (In-write_file e dir))
]

In-write_other :
    (e x : Entry) (dir : List Entry)
    → text_eq x.name e.name ≡ false
    → In x dir
    → In x (write_file e dir)
unfolding write_file
In-write_other e x [] differ m = absurd m
In-write_other e x (f ∷ dir) differ (inl same) = rw (← same, differ) (inl refl)
In-write_other e x (f ∷ dir) differ (inr m) = elim (Bool-cases (text_eq f.name e.name)) [
  | inl hit ↦ rw hit (inr m)
  | inr miss ↦ rw miss (inr (In-write_other e x dir differ m))
]

read-In :
    (le : Text → Text → Bool) (suffix : Text) (e : Entry) (dir : List Entry)
    → In e dir
    → is_migration suffix e ≡ true
    → In (to_migration e) (read_migrations le suffix dir)
unfolding read_migrations
read-In le suffix e dir m is =
    In-sort_by (filename_le le) (to_migration e) _
      (In-map to_migration e _ (In-select (is_migration suffix) e dir m is))

-- The suffix of a text without a period is cut off.
remove_suffix : (s : Text) → Lacks b'.' s → remove_text (codes ".up.sql") (s ++ codes ".up.sql") ≡ s
unfolding remove_text starts_with
remove_suffix [] lacks = refl
remove_suffix (c ∷ s) lacks = elim (Bool-cases (c == b'.')) [
  | inl period ↦ cc (rw period at lacks)
  | inr other ↦ rw other (ap (λ (t : Text). c ∷ t) (remove_suffix s (rw other at lacks)))
]

differ_by_suffix : (s : Text) → text_eq (s ++ codes ".up.sql") (s ++ codes ".down.sql") ≡ false
unfolding text_eq
differ_by_suffix [] = refl
differ_by_suffix (c ∷ s) = ground (arith, differ_by_suffix s)

-- What the two files are to migrate.ts: a migration that `up` reads, and the file that `down` looks
-- for when it takes this migration back.
pub record IsFound (le : Text → Text → Bool) (iso name : Text) (dir : List Entry) : Type 0 where
  pub applied :
      In (to_migration (file_of (up_file iso name))) (read_migrations le (codes ".up.sql") dir)
  pub taken_back :
      In (to_migration (file_of (down_file iso name))) (read_migrations le (codes ".down.sql") dir)
  pub paired : down_filename (up_file iso name) ≡ down_file iso name

-- The pair of files that the script writes, for a time and a name without a period, is one that
-- migrate.ts finds: `up` reads the one, and `down` looks for the other when it takes the one back;
-- whatever the directory held, and in whatever order its names come.
pub new_migration-IsFound :
    (le : Text → Text → Bool) (iso name : Text) (dir dir' : List Entry)
    → new_migration iso (some name) dir ≡ some dir'
    → Lacks b'.' (timestamp iso)
    → Lacks b'.' name
    → IsFound le iso name dir'
unfolding new_migration write_pair down_filename
new_migration-IsFound le iso name dir dir' e timed named = elim (Bool-cases (is_empty name)) [
  | inl blank ↦ absurd (cc (rw blank at e))
  | inr given ↦
      let written : write_pair iso name dir ≡ dir' = cc (rw given at e) in
      let base : Lacks b'.' (base_of iso name) =
        Lacks-append b'.' (timestamp iso) (b'_' ∷ name) timed named in
      let up_there : In (file_of (up_file iso name)) (write_pair iso name dir) =
        In-write_other (file_of (down_file iso name)) (file_of (up_file iso name)) _
          (differ_by_suffix (base_of iso name)) (In-write_file _ dir) in
      let down_there : In (file_of (down_file iso name)) (write_pair iso name dir) =
        In-write_file _ _ in
      record {
        applied =
            read-In le (codes ".up.sql") (file_of (up_file iso name)) dir'
              (subst (In (file_of (up_file iso name))) written up_there)
              (ends_with-append (base_of iso name) (codes ".up.sql"));
        taken_back =
            read-In le (codes ".down.sql") (file_of (down_file iso name)) dir'
              (subst (In (file_of (down_file iso name))) written down_there)
              (ends_with-append (base_of iso name) (codes ".down.sql"));
        paired = ap (λ (t : Text). t ++ codes ".down.sql") (remove_suffix (base_of iso name) base);
      }
]

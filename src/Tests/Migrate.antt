-- ===== src/Tests/Migrate.antt =====
-- Examples of the results on the migration runner.
use kamu_llm_gateway.Prelude.{
  ℕ, ◌≡◌, refl, sym, ap, ◌∙◌, ◌⊎◌, inl, inr, Bool, true, false, Option, none, some, List, [], ◌∷◌,
  Text, codes, text_eq, In, length, leb, ◌==◌, if◌then◌else◌,
}
use kamu_llm_gateway.Migrate.{
  Applied, Entry, Migration, Store, Outcome, done, failed, exited, up, down, ensure_table,
  read_migrations, verify_integrity, backfill_hashes, apply_all, apply_pending, text_lt,
}
use kamu_llm_gateway.Migrate.Up.{StoppedAt}
use kamu_llm_gateway.Migrate.Again.{EntriesDiffer, pending, files, up_again, up-failed}
use kamu_llm_gateway.Migrate.Down.{IsUndone, down-IsUndone}

-- A schema is the list of the texts run on it; a text that is `fail` fails.
abbrev run : Text → List Text → Option (List Text)
run content schema = if text_eq content (codes "fail") then none else some (content ∷ schema)

abbrev hash : Text → Text
hash content = codes "h"

abbrev pub before_or_same : Text → Text → Bool
before_or_same s t = leb (length s) (length t)

abbrev pub first_file : Entry
first_file = record { name = codes "1.up.sql"; is_file = true; content = codes "a" }

abbrev second_file : Entry
second_file = record { name = codes "20.up.sql"; is_file = true; content = codes "fail" }

abbrev undo_file : Entry
undo_file = record { name = codes "1.down.sql"; is_file = true; content = codes "b" }

abbrev one_row : Applied
one_row = record { filename = codes "1.up.sql"; hash = some (codes "other") }

abbrev empty_store : Store (List Text)
empty_store = record { schema = []; applied = none }

abbrev up_store : Store (List Text)
up_store = record { schema = codes "a" ∷ []; applied = some (one_row ∷ []) }

single-EntriesDiffer : (e : Entry) → EntriesDiffer (e ∷ [])
single-EntriesDiffer e d f (inl p) (inl q) same = p ∙ sym q
single-EntriesDiffer e d f (inl p) (inr h) same = absurd h
single-EntriesDiffer e d f (inr h) k same = absurd h

up_again_example :
    up hash run before_or_same
      (first_file ∷ [])
      (up hash run before_or_same (first_file ∷ []) empty_store).1
    ≡ (done, (up hash run before_or_same (first_file ∷ []) empty_store).1)
unfolding up verify_integrity apply_pending apply_all read_migrations
    kamu_llm_gateway.Prelude.ends_with text_eq kamu_llm_gateway.Prelude.sort_by
up_again_example =
    up_again hash run before_or_same (first_file ∷ []) empty_store (single-EntriesDiffer first_file)
      refl

up-failed_example :
    (rows : List Applied) × ((up hash run before_or_same
        (first_file ∷ second_file ∷ [])
        empty_store).1.applied
      ≡ some rows)
    × StoppedAt hash run
        (pending hash run before_or_same (first_file ∷ second_file ∷ []) [])
        []
        (backfill_hashes hash (files hash run before_or_same (first_file ∷ second_file ∷ [])) [])
        ((up hash run before_or_same (first_file ∷ second_file ∷ []) empty_store).1.schema, rows)
unfolding up verify_integrity apply_pending apply_all read_migrations
    kamu_llm_gateway.Prelude.ends_with text_eq kamu_llm_gateway.Prelude.sort_by
up-failed_example =
    up-failed hash run before_or_same (first_file ∷ second_file ∷ []) empty_store refl

down-IsUndone_example :
    IsUndone hash run before_or_same
      (undo_file ∷ [])
      (one_row ∷ [])
      up_store
      (down hash run before_or_same (undo_file ∷ []) up_store).1
unfolding down read_migrations kamu_llm_gateway.Prelude.ends_with text_eq
    kamu_llm_gateway.Migrate.down_filename kamu_llm_gateway.Migrate.remove_text
    kamu_llm_gateway.Migrate.last_applied kamu_llm_gateway.Prelude.starts_with
    kamu_llm_gateway.Prelude.sort_by
down-IsUndone_example =
    down-IsUndone hash run before_or_same (undo_file ∷ []) (codes "a" ∷ []) one_row [] refl

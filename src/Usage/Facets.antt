-- ===== src/Usage/Facets.antt =====
-- GET /usage/facets: the keys and the models that a user's visible rows have. `collate_le` is the
-- database's order of texts. The model column is never null in a row that pollOnce writes.
use kamu_llm_gateway.Prelude.{
  ℕ, ◌≡◌, ◌↔◌, Bool, true, List, Text, text_eq, text_eq_iff, text_eq_refl, text_eq_comm, arith,
  select, map, leb, sort_by, distinct, In, In-map, In_of_map, In_of_sort_by, In-sort_by,
  In_of_distinct, In-distinct, AllDiffer, distinct-AllDiffer, sort_by-AllDiffer, IsOrdered,
  sort_by-IsOrdered, ◌==◌,
}
use kamu_llm_gateway.Database.{Db, UsageLogRow}
use kamu_llm_gateway.Usage.{is_visible}

pub record Facets : Type 0 where
  pub keys : List ℕ
  pub models : List Text

abbrev pub same_number : ℕ → ℕ → Bool
same_number i j = i == j

-- `SELECT DISTINCT … ORDER BY …`, on one column of the rows.
unfoldable pub distinct_column :
    {A : Type 0} → (A → A → Bool) → (A → A → Bool) → (UsageLogRow → A) → List UsageLogRow → List A
distinct_column same le column rows = sort_by le (distinct same (map column rows))

unfoldable pub usage_facets : (Text → Text → Bool) → Text → Db → Facets
unfolding distinct_column
usage_facets collate_le user db =
    let rows = select (is_visible user db) db.usage_log in
    record {
      keys = distinct_column same_number leb (λ r. r.key_id) rows;
      models = distinct_column text_eq collate_le (λ r. r.model) rows;
    }

module _ {A : Type 0} (same le : A → A → Bool) (same_iff : (x y : A) → same x y ≡ true → x ≡ y)
    (same_refl : (x : A) → same x x ≡ true) (column : UsageLogRow → A)
    (rows : List UsageLogRow) where
  distinct_column_iff :
      (a : A)
      → In a (distinct_column same le column rows)
        ↔ ((r : UsageLogRow) × In r rows × (a ≡ column r))
  unfolding distinct_column
  distinct_column_iff a = (to, from)
    where
      to :
          In a (sort_by le (distinct same (map column rows)))
          → (r : UsageLogRow) × In r rows × (a ≡ column r)
      to m = In_of_map column a rows (
          In_of_distinct same a (map column rows)
            (In_of_sort_by le a (distinct same (map column rows)) m))

      from :
          (r : UsageLogRow) × In r rows × (a ≡ column r)
          → In a (sort_by le (distinct same (map column rows)))
      from (r, m, e) = rw e (
          In-sort_by le (column r) (distinct same (map column rows)) (
            In-distinct same same_iff same_refl (column r) (map column rows)
              (In-map column r rows m)))

module _ (collate_le : Text → Text → Bool) (user : Text) (db : Db) where
  abbrev pub seen_rows : List UsageLogRow
  seen_rows = select (is_visible user db) db.usage_log

  -- The facets are what they should be: exactly the keys and exactly the models of the rows that the
  -- user sees, the keys in ascending order, each key and each model once.
  pub record IsFacets (f : Facets) : Type 0 where
    pub keys_iff : (i : ℕ) → In i f.keys ↔ ((r : UsageLogRow) × In r seen_rows × (i ≡ r.key_id))
    pub models_iff :
        (m : Text) → In m f.models ↔ ((r : UsageLogRow) × In r seen_rows × (m ≡ r.model))
    pub keys_ascend : IsOrdered leb f.keys
    pub keys_differ : AllDiffer same_number f.keys
    pub models_differ : AllDiffer text_eq f.models

  usage_facets-IsFacets : IsFacets (usage_facets collate_le user db)
  unfolding usage_facets distinct_column
  usage_facets-IsFacets = record {
    keys_iff =
        distinct_column_iff same_number leb (λ i j h. ground (arith, h)) (λ i. ground arith)
          (λ r. r.key_id) seen_rows;
    models_iff =
        distinct_column_iff text_eq collate_le (λ s t h. (text_eq_iff s t).0 h) text_eq_refl
          (λ r. r.model) seen_rows;
    keys_ascend =
        sort_by-IsOrdered leb (λ i j h. ground (arith, h)) (λ i j k h l. ground (arith, h, l))
          (distinct same_number (map (λ r. r.key_id) seen_rows));
    keys_differ =
        sort_by-AllDiffer same_number leb (λ i j. ground arith)
          (distinct same_number (map (λ r. r.key_id) seen_rows))
          (distinct-AllDiffer same_number (map (λ r. r.key_id) seen_rows));
    models_differ =
        sort_by-AllDiffer text_eq collate_le text_eq_comm
          (distinct text_eq (map (λ r. r.model) seen_rows))
          (distinct-AllDiffer text_eq (map (λ r. r.model) seen_rows));
  }

-- ===== src/Admin/Usage/Spend.antt =====
-- The organisations' spend is the ledger's.
use kamu_llm_gateway.Prelude.{
  ℕ, ◌+◌, ◌≡◌, refl, ap, ◌∙◌, inl, inr, Bool, List, [], ◌∷◌, arith, map, select, length,
  count_where, sort_by, insert_by, In, Bool-cases, if◌then◌else◌,
}
use kamu_llm_gateway.Types.{Key}
use kamu_llm_gateway.Database.{Db, UsageLogRow, has_id, is_team}
use kamu_llm_gateway.Usage.{row_cost}
use kamu_llm_gateway.Usage.Totals.{sum_of, one_each}
use kamu_llm_gateway.Admin.Usage.{
  SpendByOrg, rows_of_key, team_sum, spend_of, dearer_first, spend_by_org,
}

module _ {A : Type 0} (f : A → ℕ) where
  sum_of-insert_by :
      (le : A → A → Bool) (x : A) (xs : List A) → sum_of f (insert_by le x xs) ≡ f x + sum_of f xs
  unfolding sum_of insert_by
  sum_of-insert_by le x [] = refl
  sum_of-insert_by le x (y ∷ ys) = elim (Bool-cases (le x y)) [
    | inl before ↦ rw (before, insert_by) refl
    | inr after ↦ rw (after, insert_by) (omega (arith, sum_of-insert_by le x ys))
  ]

  sum_of-sort_by : (le : A → A → Bool) (xs : List A) → sum_of f (sort_by le xs) ≡ sum_of f xs
  unfolding sum_of sort_by
  sum_of-sort_by le [] = refl
  sum_of-sort_by le (x ∷ xs) =
      omega (arith, sum_of-insert_by le x (sort_by le xs), sum_of-sort_by le xs)

  sum_of-map :
      {B : Type 0} (g : B → A) (xs : List B) → sum_of f (map g xs) ≡ sum_of (λ x. f (g x)) xs
  unfolding sum_of
  sum_of-map g [] = refl
  sum_of-map g (x ∷ xs) = ap (λ n. f (g x) + n) (sum_of-map g xs)

-- Items that each fall into one group are counted once by the groups.
module _ {Group Item : Type 0} (falls : Item → Group → Bool) (f : Item → ℕ) where
  none_falls :
      (y : Item) (gs : List Group)
      → count_where (falls y) gs ≡ 0
      → sum_of (λ g. if falls y g then f y else 0) gs ≡ 0
  unfolding sum_of
  none_falls y [] h = refl
  none_falls y (g ∷ gs) h = elim (Bool-cases (falls y g)) [
    | inl hit ↦ absurd (ground (arith, hit, h))
    | inr miss ↦
        let rest = none_falls y gs (ground (arith, miss, h)) in rw (miss) (omega (arith, rest))
  ]

  one_falls :
      (y : Item) (gs : List Group)
      → count_where (falls y) gs ≡ 1
      → sum_of (λ g. if falls y g then f y else 0) gs ≡ f y
  unfolding sum_of
  one_falls y [] h = absurd (omega (arith, h))
  one_falls y (g ∷ gs) h = elim (Bool-cases (falls y g)) [
    | inl hit ↦
        let rest = none_falls y gs (ground (arith, hit, h)) in rw (hit) (omega (arith, rest))
    | inr miss ↦
        let rest = one_falls y gs (ground (arith, miss, h)) in rw (miss) (omega (arith, rest))
  ]

  groups_of-cons :
      (y : Item) (ys : List Item) (gs : List Group)
      → sum_of (λ g. sum_of f (select (λ z. falls z g) (y ∷ ys))) gs
        ≡ sum_of (λ g. if falls y g then f y else 0) gs
          + sum_of (λ g. sum_of f (select (λ z. falls z g) ys)) gs
  unfolding sum_of
  groups_of-cons y ys [] = refl
  groups_of-cons y ys (g ∷ gs) = elim (Bool-cases (falls y g)) [
    | inl hit ↦ rw (hit, select) (omega (arith, groups_of-cons y ys gs))
    | inr miss ↦ rw (miss, select) (omega (arith, groups_of-cons y ys gs))
  ]

  groups_sum :
      (ys : List Item) (gs : List Group)
      → ((y : Item) → In y ys → count_where (falls y) gs ≡ 1)
      → sum_of (λ g. sum_of f (select (λ z. falls z g) ys)) gs ≡ sum_of f ys
  unfolding sum_of
  groups_sum [] gs h = nothing gs
    where
      nothing : (gs : List Group) → sum_of (λ (g : Group). 0) gs ≡ 0
      nothing [] = refl
      nothing (g ∷ gs) = omega (arith, nothing gs)
  groups_sum (y ∷ ys) gs h =
      let rest = groups_sum ys gs (λ z m. h z (inr m)) in
      let first = one_falls y gs (h y (inl refl)) in
      omega (arith, groups_of-cons y ys gs, rest, first)

-- The keys of the tables: every row of the ledger has one key, and every key one team.
pub record IsKeyed (db : Db) : Type 0 where
  pub one_key : (u : UsageLogRow) → In u db.usage_log → count_where (has_id u.key_id) db.keys ≡ 1
  pub one_team : (k : Key) → In k db.keys → count_where (is_team k.team_id) db.teams ≡ 1

team_sums :
    (figure : UsageLogRow → ℕ) (db : Db)
    → IsKeyed db
    → sum_of (team_sum figure db) db.teams ≡ sum_of figure db.usage_log
unfolding team_sum
team_sums figure db keyed =
    groups_sum (λ k t. is_team k.team_id t) (λ k. sum_of figure (rows_of_key db k)) db.keys db.teams
      keyed.one_team
    ∙ groups_sum (λ u k. has_id u.key_id k) figure db.usage_log db.keys keyed.one_key

-- The operators' page accounts for the whole ledger, each row once: the organisations' costs add up
-- to those of the rows, and their request counts to the number of rows.
pub spend_by_org_sums :
    (db : Db)
    → IsKeyed db
    → (sum_of (λ (s : SpendByOrg). s.total_cost_usd) (spend_by_org db)
        ≡ sum_of row_cost db.usage_log)
      × (sum_of (λ (s : SpendByOrg). s.request_count) (spend_by_org db) ≡ length db.usage_log)
unfolding spend_by_org spend_of
spend_by_org_sums db keyed = (
  sum_of-sort_by (λ s. s.total_cost_usd) dearer_first (map (spend_of db) db.teams)
      ∙ (sum_of-map (λ s. s.total_cost_usd) (spend_of db) db.teams ∙ team_sums row_cost db keyed),
  sum_of-sort_by (λ s. s.request_count) dearer_first (map (spend_of db) db.teams)
      ∙ (sum_of-map (λ s. s.request_count) (spend_of db) db.teams
          ∙ (team_sums (λ u. 1) db keyed ∙ one_each db.usage_log)),
)

-- ===== src/Usage/Totals.antt =====
-- Grouping loses and invents nothing.
use kamu_llm_gateway.Prelude.{
  ℕ, ◌+◌, ◌≡◌, refl, inl, inr, Bool, List, [], ◌∷◌, arith, Text, length, Bool-cases,
}
use kamu_llm_gateway.Database.{Db, UsageLogRow}
use kamu_llm_gateway.Usage.{
  Window, Group, row_cost, grow, add_to, group_by, same_day, visible_rows, usage_breakdown,
}

unfoldable pub sum_of : {A : Type 0} → (A → ℕ) → List A → ℕ
sum_of f [] = 0
sum_of f (x ∷ xs) = f x + sum_of f xs

-- A figure that a row adds to the group it falls in.
module _ (figure : Group → ℕ) (part : UsageLogRow → ℕ)
    (grows : (r : UsageLogRow) (g : Group) → figure (grow r g) ≡ figure g + part r)
    (starts : (r : UsageLogRow) (same : UsageLogRow → UsageLogRow → Bool)
      → sum_of figure (add_to same r []) ≡ part r)
    (same : UsageLogRow → UsageLogRow → Bool) where
  sum_of-add_to :
      (r : UsageLogRow) (groups : List Group)
      → sum_of figure (add_to same r groups) ≡ part r + sum_of figure groups
  unfolding sum_of add_to
  sum_of-add_to r [] = omega (arith, starts r same)
  sum_of-add_to r (g ∷ groups) = elim (Bool-cases (same g.first r)) [
    | inl hit ↦ rw hit (omega (arith, grows r g))
    | inr miss ↦ rw miss (omega (arith, sum_of-add_to r groups))
  ]

  sum_of-group_by :
      (rows : List UsageLogRow) (groups : List Group)
      → sum_of figure (group_by same rows groups) ≡ sum_of part rows + sum_of figure groups
  unfolding sum_of group_by
  sum_of-group_by [] groups = omega arith
  sum_of-group_by (r ∷ rows) groups =
      omega (arith, sum_of-group_by rows (add_to same r groups), sum_of-add_to r groups)

pub one_each : (rows : List UsageLogRow) → sum_of (λ (r : UsageLogRow). 1) rows ≡ length rows
unfolding sum_of
one_each [] = refl
one_each (r ∷ rows) = omega (arith, one_each rows)

-- The breakdown of a window accounts for every visible row of the window once: the groups' costs,
-- tokens and request counts add up to those of the rows.
pub usage_breakdown_sums :
    (user : Text) (w : Window) (db : Db)
    → (sum_of (λ (g : Group). g.cost_usd) (usage_breakdown user w db)
        ≡ sum_of row_cost (visible_rows user w db))
      × (sum_of (λ (g : Group). g.tokens_in) (usage_breakdown user w db)
          ≡ sum_of (λ (r : UsageLogRow). r.tokens_in) (visible_rows user w db))
      × (sum_of (λ (g : Group). g.request_count) (usage_breakdown user w db)
          ≡ length (visible_rows user w db))
unfolding usage_breakdown sum_of add_to
usage_breakdown_sums user w db =
    let rows = visible_rows user w db in
    let cost =
      sum_of-group_by (λ g. g.cost_usd) row_cost (λ r g. refl) (λ r same. omega arith) same_day rows
        [] in
    let tokens =
      sum_of-group_by (λ g. g.tokens_in) (λ r. r.tokens_in) (λ r g. refl) (λ r same. omega arith)
        same_day rows [] in
    let count =
      sum_of-group_by (λ g. g.request_count) (λ r. 1) (λ r g. refl) (λ r same. omega arith) same_day
        rows [] in
    (omega (arith, cost), omega (arith, tokens), omega (arith, count, one_each rows))

-- ===== src/Admin/Usage.antt =====
-- admin/src/routes/usage.tsx: the spend of all organisations, and the latest rows of the ledger.
pub mod Spend
use kamu_llm_gateway.Prelude.{
  ℕ, Bool, ◌&&◌, Option, none, some, List, [], ◌∷◌, Text, find, map, select, take, length, leb,
  sort_by, ◌==◌,
}
use kamu_llm_gateway.Types.{Key, Team}
use kamu_llm_gateway.Database.{Db, UsageLogRow, find_key, is_team, has_id}
use kamu_llm_gateway.Usage.{row_cost}
use kamu_llm_gateway.Usage.Totals.{sum_of}

pub record SpendByOrg : Type 0 where
  pub org : Text
  pub team : Text
  pub total_cost_usd : ℕ
  pub request_count : ℕ

-- `LEFT JOIN llm.keys k ON k.team_id = t.id`
abbrev pub keys_of : Db → Team → List Key
keys_of db t = select (λ k. is_team k.team_id t) db.keys

-- `LEFT JOIN llm.usage_log u ON u.key_id = k.id`
abbrev pub rows_of_key : Db → Key → List UsageLogRow
rows_of_key db k = select (λ u. has_id u.key_id k) db.usage_log

-- The figure of a row, summed over the joined rows of a team.
unfoldable pub team_sum : (UsageLogRow → ℕ) → Db → Team → ℕ
unfolding sum_of
team_sum figure db t = sum_of (λ k. sum_of figure (rows_of_key db k)) (keys_of db t)

unfoldable pub spend_of : Db → Team → SpendByOrg
unfolding team_sum
spend_of db t = record {
  org = t.kamuid_org_id;
  team = t.name;
  total_cost_usd = team_sum row_cost db t;
  request_count = team_sum (λ u. 1) db t;
}

-- `ORDER BY COALESCE(SUM(u.cost_usd), 0) DESC`
abbrev pub dearer_first : SpendByOrg → SpendByOrg → Bool
dearer_first s t = leb t.total_cost_usd s.total_cost_usd

unfoldable pub spend_by_org : Db → List SpendByOrg
unfolding spend_of
spend_by_org db = sort_by dearer_first (map (spend_of db) db.teams)

pub record RecentRow : Type 0 where
  pub org : Text
  pub team : Text
  pub key_label : Text
  pub row : UsageLogRow

recent_row : UsageLogRow → Key → Option Team → List RecentRow → List RecentRow
recent_row u k none rows = rows
recent_row u k (some t) rows =
    record { org = t.kamuid_org_id; team = t.name; key_label = k.label; row = u } ∷ rows

join_row : Db → UsageLogRow → Option Key → List RecentRow → List RecentRow
unfolding recent_row
join_row db u none rows = rows
join_row db u (some k) rows = recent_row u k (find (is_team k.team_id) db.teams) rows

join_log : Db → List UsageLogRow → List RecentRow
unfolding join_row
join_log db [] = []
join_log db (u ∷ log) = join_row db u (find_key u.key_id db.keys) (join_log db log)

abbrev pub later_first : RecentRow → RecentRow → Bool
later_first r s = leb s.row.created_at r.row.created_at

-- The page shows 200 rows and the JSON reply 500.
unfoldable pub recent_usage : ℕ → Db → List RecentRow
unfolding join_log
recent_usage limit db = take limit (sort_by later_first (join_log db db.usage_log))

-- ===== src/Keys/Read.antt =====
-- GET /keys and GET /keys/:id: the keys that a user sees, and the spend of a key's subtree.
pub mod Visible
pub mod Rollup
use kamu_llm_gateway.Prelude.{
  ℕ, zero, suc, ◌+◌, Bool, true, false, ◌&&◌, ◌||◌, Option, none, some, List, [], ◌∷◌, ◌++◌, Text,
  codes, find, select, map, leb, sort_by, ◌==◌, if◌then◌else◌,
}
use kamu_llm_gateway.Http.{Reply, ok, err}
use kamu_llm_gateway.Types.{Key, KeyType, KeyStatus, Team}
use kamu_llm_gateway.Database.{Db, UsageLogRow, has_id, is_id, is_team, in_user_teams}
use kamu_llm_gateway.Usage.{is_visible, row_cost}

-- The columns of the list, and those that the detail adds. Neither query selects the hash.
pub record KeyListRow : Type 0 where
  pub id : ℕ
  pub team_id : ℕ
  pub kamuid_org_id : Text
  pub label : Text
  pub prefix : Option Text
  pub key_type : KeyType
  pub models : List Text
  pub budget_usd : Option ℕ
  pub status : KeyStatus
  pub parent_key_id : Option ℕ
  pub root_key_id : Option ℕ
  pub expires_at : Option ℕ
  pub created_at : ℕ
  pub created_by : Option Text
  pub revoked_at : Option ℕ
  pub revoked_by : Option Text

pub record KeyDetailRow : Type 0 where
  pub listed : KeyListRow
  pub open listed use *
  pub metadata : Option Text
  pub constraints : Option Text
  pub updated_at : ℕ

unfoldable pub to_list_row : Key → Team → KeyListRow
to_list_row k t = record {
  id = k.id;
  team_id = k.team_id;
  kamuid_org_id = t.kamuid_org_id;
  label = k.label;
  prefix = k.prefix;
  key_type = k.key_type;
  models = k.models;
  budget_usd = k.budget_usd;
  status = k.status;
  parent_key_id = k.parent_key_id;
  root_key_id = k.root_key_id;
  expires_at = k.expires_at;
  created_at = k.created_at;
  created_by = k.created_by;
  revoked_at = k.revoked_at;
  revoked_by = k.revoked_by;
}

unfoldable pub to_detail_row : Key → Team → KeyDetailRow
unfolding to_list_row
to_detail_row k t = record {
  listed = to_list_row k t;
  metadata = k.metadata;
  constraints = k.constraints;
  updated_at = k.updated_at;
}

-- The row-level security of llm.keys and of llm.teams: the teams that the user is a member of.
abbrev pub sees_key : Text → Db → Key → Bool
sees_key user db k = in_user_teams user k.team_id db.team_members

abbrev pub sees_team : Text → Db → Team → Bool
sees_team user db t = in_user_teams user t.id db.team_members

-- `JOIN llm.teams t ON t.id = k.team_id`; the ids of the teams are unique.
unfoldable pub team_of : Text → Db → Key → Option Team
team_of user db k = find (is_team k.team_id) (select (sees_team user db) db.teams)

abbrev pub cons_row : {Row : Type 0} → (Key → Team → Row) → Key → Option Team → List Row → List Row
cons_row to_row k none rows = rows
cons_row to_row k (some t) rows = to_row k t ∷ rows

unfoldable pub join_teams :
    {Row : Type 0} → (Key → Team → Row) → (Key → Option Team) → List Key → List Row
join_teams to_row team [] = []
join_teams to_row team (k ∷ keys) = cons_row to_row k (team k) (join_teams to_row team keys)

-- `ORDER BY k.created_at DESC`
abbrev pub newer_first : KeyListRow → KeyListRow → Bool
newer_first r s = leb s.created_at r.created_at

unfoldable pub list_keys : Text → Db → List KeyListRow
unfolding join_teams team_of
list_keys user db =
    sort_by newer_first
      (join_teams to_list_row (team_of user db) (select (sees_key user db) db.keys))

pub record UsageTotals : Type 0 where
  pub total_cost_usd : ℕ
  pub total_tokens_in : ℕ
  pub total_tokens_out : ℕ
  pub request_count : ℕ

-- `WHERE key_id = ${id} OR root_key_id = ${id}`
abbrev pub in_tree : ℕ → UsageLogRow → Bool
in_tree id r = r.key_id == id || is_id id r.root_key_id

-- `COALESCE(SUM(…), 0)` and `COUNT(*)`
unfoldable pub totals_of : List UsageLogRow → UsageTotals
totals_of [] = record {
  total_cost_usd = 0;
  total_tokens_in = 0;
  total_tokens_out = 0;
  request_count = 0;
}
totals_of (r ∷ rows) =
    let rest = totals_of rows in
    record {
      total_cost_usd = row_cost r + rest.total_cost_usd;
      total_tokens_in = r.tokens_in + rest.total_tokens_in;
      total_tokens_out = r.tokens_out + rest.total_tokens_out;
      request_count = 1 + rest.request_count;
    }

pub record KeyDetail : Type 0 where
  pub key : KeyDetailRow
  pub usage : UsageTotals

unfoldable pub head_reply : List KeyDetailRow → UsageTotals → Reply KeyDetail
head_reply [] totals = err 404 (codes "Key not found")
head_reply (row ∷ rows) totals = ok (record { key = row; usage = totals })

unfoldable pub key_detail : Text → ℕ → Db → Reply KeyDetail
unfolding join_teams team_of head_reply totals_of
key_detail user id db =
    head_reply
      (join_teams to_detail_row (team_of user db)
        (select (has_id id) (select (sees_key user db) db.keys)))
      (totals_of (select (in_tree id) (select (is_visible user db) db.usage_log)))

-- api/src/routes/teams.ts, GET /teams; `collate_le` is the database's order of texts.
pub record TeamRow : Type 0 where
  pub id : ℕ
  pub kamuid_org_id : Text
  pub name : Text
  pub slug : Text

unfoldable pub list_teams : (Text → Text → Bool) → Text → Db → List TeamRow
list_teams collate_le user db =
    sort_by (λ s t. collate_le s.name t.name)
      (map
        (λ (t : Team). record {
          id = t.id;
          kamuid_org_id = t.kamuid_org_id;
          name = t.name;
          slug = t.slug;
        })
        (select (sees_team user db) db.teams))

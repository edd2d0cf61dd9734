-- ===== src/Usage.antt =====
-- api/src/routes/usage.ts: the ledger as a user reads it, grouped over a window, and as the holder
-- of a gateway key reads it, in pages. A day is a number of days since 1970 in UTC, the groups come
-- in the order in which their first rows are met, and a page in the order of the usage ids.
pub mod Totals
pub mod Scope
pub mod Facets
pub mod Cut
pub mod Paging
pub mod Read
use kamu_llm_gateway.Prelude.{
  ℕ, zero, suc, ◌+◌, ◌/◌, ◌≡◌, Bool, true, false, ◌&&◌, ◌||◌, Option, none, some, List, [], ◌∷◌,
  ◌++◌, Text, text_eq, any, all, select, map, take, length, ltb, leb, ◌==◌, min, max, sort_by,
  if◌then◌else◌,
}
use kamu_llm_gateway.Prelude.Hex.{parse_hex, remove_dashes}
use kamu_llm_gateway.Types.{Key, KeyType, top, derived, is_top}
use kamu_llm_gateway.Database.{Db, UsageLogRow, has_id, is_id, find_key, in_user_teams}
use kamu_llm_gateway.Credentials.{UsageScope}
use kamu_llm_gateway.UsageId.{cursor_of, usage_id_at_least}

-- The row-level security of llm.usage_log: the rows of the keys of the user's teams.
abbrev pub is_visible : Text → Db → UsageLogRow → Bool
is_visible user db r =
    any (λ k. has_id r.key_id k && in_user_teams user k.team_id db.team_members) db.keys

-- The conditions of the queries; one that is left out holds of all rows.
pub record Window : Type 0 where
  pub key_id : Option ℕ
  pub model : Option Text
  pub from : Option ℕ
  pub to : Option ℕ

unfoldable pub in_window : Window → UsageLogRow → Bool
in_window w r =
    elim w.key_id [ none ↦ true | some i ↦ r.key_id == i ]
    && elim w.model [ none ↦ true | some m ↦ text_eq r.model m ]
    && elim w.from [ none ↦ true | some t ↦ leb t r.created_at ]
    && elim w.to [ none ↦ true | some t ↦ ltb r.created_at t ]

pub record Group : Type 0 where
  pub first : UsageLogRow
  pub cost_usd : ℕ
  pub tokens_in : ℕ
  pub tokens_out : ℕ
  pub request_count : ℕ

abbrev pub row_cost : UsageLogRow → ℕ
row_cost r = elim r.cost_usd [ none ↦ 0 | some c ↦ c ]

abbrev pub grow : UsageLogRow → Group → Group
grow r g = record g {
  cost_usd = g.cost_usd + row_cost r;
  tokens_in = g.tokens_in + r.tokens_in;
  tokens_out = g.tokens_out + r.tokens_out;
  request_count = g.request_count + 1;
}

-- A row is added to the group whose first row has the same columns.
unfoldable pub add_to : (UsageLogRow → UsageLogRow → Bool) → UsageLogRow → List Group → List Group
add_to same r [] =
    record {
      first = r;
      cost_usd = row_cost r;
      tokens_in = r.tokens_in;
      tokens_out = r.tokens_out;
      request_count = 1;
    }
    ∷ []
add_to same r (g ∷ groups) =
    let rest = add_to same r groups in if same g.first r then grow r g ∷ groups else g ∷ rest

unfoldable pub group_by :
    (UsageLogRow → UsageLogRow → Bool) → List UsageLogRow → List Group → List Group
group_by same [] groups = groups
group_by same (r ∷ rows) groups = group_by same rows (add_to same r groups)

abbrev pub day_of : UsageLogRow → ℕ
day_of r = r.created_at / 86_400_000

abbrev pub same_day : UsageLogRow → UsageLogRow → Bool
same_day r s = day_of r == day_of s && (r.key_id == s.key_id && text_eq r.model s.model)

abbrev pub same_key : UsageLogRow → UsageLogRow → Bool
same_key r s = r.key_id == s.key_id

abbrev pub visible_rows : Text → Window → Db → List UsageLogRow
visible_rows user w db = select (in_window w) (select (is_visible user db) db.usage_log)

-- GET /usage
unfoldable pub usage_breakdown : Text → Window → Db → List Group
usage_breakdown user w db = group_by same_day (visible_rows user w db) []

-- GET /usage/totals, whose window has only times.
unfoldable pub usage_totals : Text → Option ℕ → Option ℕ → Db → List Group
usage_totals user from to db =
    group_by same_key
      (visible_rows user (record { key_id = none; model = none; from = from; to = to }) db) []

-- The key holder's GET /usage: what the query asks for, `none` for a parameter that is missing or
-- no number. `key_ids` holds the given ones of `key_id` and `jti`.
pub record PageQuery : Type 0 where
  pub since : Option ℕ
  pub limit : Option ℕ
  pub key_ids : List ℕ
  pub name : Option Text

abbrev pub max_limit : ℕ
max_limit = 5000

-- `Math.min(MAX_LIMIT, Math.max(1, Number(…) || MAX_LIMIT))`
unfoldable pub page_size : Option ℕ → ℕ
page_size none = max_limit
page_size (some n) = if n == 0 then max_limit else min max_limit n

unfoldable pub since_of : Option ℕ → ℕ
since_of none = 0
since_of (some n) = n

abbrev pub id_value : Text → ℕ
id_value u = parse_hex (remove_dashes u)

-- `ORDER BY u.usage_id`
abbrev pub id_le : UsageLogRow → UsageLogRow → Bool
id_le r s = leb (id_value r.usage_id) (id_value s.usage_id)

-- A top-level key sees the rows with it as root, and a sub-key its own.
unfoldable pub in_scope : UsageScope → UsageLogRow → Bool
in_scope scope r =
    if is_top scope.key_type then is_id scope.key_id r.root_key_id else r.key_id == scope.key_id

-- The join with llm.keys, and the two filters.
unfoldable pub is_asked : PageQuery → List Key → UsageLogRow → Bool
is_asked q keys r =
    all (λ i. r.key_id == i) q.key_ids
    && any (λ k. has_id r.key_id k && elim q.name [ none ↦ true | some n ↦ text_eq k.label n ]) keys

-- A row of the reply.
pub record KeyUsageRow : Type 0 where
  pub id : ℕ
  pub row : UsageLogRow

pub record PageTotals : Type 0 where
  pub requests : ℕ
  pub input_tokens : ℕ
  pub output_tokens : ℕ
  pub cache_read_tokens : ℕ
  pub cache_write_tokens : ℕ
  pub cost_usd : ℕ

pub record Page : Type 0 where
  pub rows : List KeyUsageRow
  pub max_id : Option ℕ
  pub totals : PageTotals

abbrev pub add_totals : PageTotals → UsageLogRow → PageTotals
add_totals t r = record {
  requests = t.requests + 1;
  input_tokens = t.input_tokens + r.tokens_in;
  output_tokens = t.output_tokens + r.tokens_out;
  cache_read_tokens = t.cache_read_tokens + r.cache_read_tokens;
  cache_write_tokens = t.cache_write_tokens + r.cache_write_tokens;
  cost_usd = t.cost_usd + row_cost r;
}

unfoldable pub page_totals : PageTotals → List UsageLogRow → PageTotals
page_totals t [] = t
page_totals t (r ∷ rows) = page_totals (add_totals t r) rows

no_totals : PageTotals
no_totals = record {
  requests = 0;
  input_tokens = 0;
  output_tokens = 0;
  cache_read_tokens = 0;
  cache_write_tokens = 0;
  cost_usd = 0;
}

unfoldable pub last_row : List UsageLogRow → Option UsageLogRow
last_row [] = none
last_row (r ∷ []) = some r
last_row (r ∷ s ∷ rows) = last_row (s ∷ rows)

-- `last ? cursorOf(last.usage_id) : null`
abbrev pub row_cursor : Option UsageLogRow → Option ℕ
row_cursor none = none
row_cursor (some r) = some (cursor_of r.usage_id)

-- `u.usage_id >= ${usageIdAtLeast(since + 1)}`
abbrev pub from_since : PageQuery → UsageLogRow → Bool
from_since q r = leb (id_value (usage_id_at_least (since_of q.since + 1))) (id_value r.usage_id)

-- `u.usage_id > ${last} AND u.usage_id < ${usageIdAtLeast(cursorOf(last) + 1)}`
abbrev pub shares_cursor : UsageLogRow → UsageLogRow → Bool
shares_cursor last r =
    ltb (id_value last.usage_id) (id_value r.usage_id)
    && ltb (id_value r.usage_id) (id_value (usage_id_at_least (cursor_of last.usage_id + 1)))

module _ (scope : UsageScope) (q : PageQuery) (db : Db) where
  unfoldable pub select_rows : (UsageLogRow → Bool) → ℕ → List UsageLogRow
  select_rows range n = take n (
      sort_by id_le
        (select (λ r. in_scope scope r && (range r && is_asked q db.keys r)) db.usage_log))

  -- The rows that share the last row's cursor.
  unfoldable pub tail_of : Option UsageLogRow → List UsageLogRow
  unfolding select_rows
  tail_of none = []
  tail_of (some last) = select_rows (shares_cursor last) max_limit

  unfoldable pub page_rows : List UsageLogRow
  unfolding select_rows tail_of last_row
  page_rows =
      let rows = select_rows (from_since q) (page_size q.limit) in
      if length rows == page_size q.limit then rows ++ tail_of (last_row rows) else rows

  unfoldable pub key_usage : Page
  unfolding no_totals last_row
  key_usage =
      let rows = page_rows in
      record {
        rows = map (λ r. record { id = cursor_of r.usage_id; row = r }) rows;
        max_id = row_cursor (last_row rows);
        totals = page_totals no_totals rows;
      }

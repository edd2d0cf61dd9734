-- ===== src/Poller.antt =====
-- api/src/lib/usage-poller.ts: pages of usage rows are read from the proxy machines, priced and
-- stored once, and charged to the key and its root in the same transaction. `feed` answers the
-- requests for pages, `stored` is the answer of the price SELECT, and `to_numeric` rounds a cost to
-- the scale of its column.
pub mod Charge
pub mod Repeat
pub mod Budget
pub mod Payers
pub mod Pages
pub mod Passes
pub mod Satellites
use kamu_llm_gateway.Prelude.{
  ℕ, zero, suc, ◌+◌, Bool, true, false, not, ◌&&◌, ◌||◌, Option, none, some, List, [], ◌∷◌, Text,
  text_eq, is_empty, any, length, ltb, leb, map, ◌==◌, if◌then◌else◌,
}
use kamu_llm_gateway.Types.{Key, over_budget, is_active}
use kamu_llm_gateway.Pricing.{NormUsage, StoredPrice, PriceTable}
use kamu_llm_gateway.Catalog.{Models}
use kamu_llm_gateway.PriceCache.{Priced, PriceCache, price_table, price_usage}
use kamu_llm_gateway.Database.{Db, UsageLogRow, KeySpend, has_key, update_where}

abbrev pub page_limit : ℕ
page_limit = 5000

-- A row of the feed; `usage_id` is missing from a proxy that is too old.
pub record UsageRow : Type 0 where
  pub usage_id : Option Text
  pub machine_id : Text
  pub key_id : ℕ
  pub parent_key_id : Option ℕ
  pub root_key_id : Option ℕ
  pub model : Text
  pub usage : NormUsage
  pub open usage use *
  pub provider_cost : Option ℕ
  pub provider_cost_currency : Option Text
  pub created_at : ℕ

-- `!r.usage_id`
abbrev pub lacks_id : UsageRow → Bool
lacks_id r = elim r.usage_id [ none ↦ true | some t ↦ is_empty t ]

abbrev pub id_text : UsageRow → Text
id_text r = elim r.usage_id [ none ↦ [] | some t ↦ t ]

numeric : (ℕ → ℕ) → Option ℕ → Option ℕ
numeric to_numeric none = none
numeric to_numeric (some c) = some (to_numeric c)

-- The row to insert, with its price.
unfoldable pub to_log_row : (ℕ → ℕ) → Models → PriceTable → UsageRow → UsageLogRow
unfolding numeric
to_log_row to_numeric models prices r =
    let priced = price_usage models prices r.model r.created_at r.usage in
    record {
      usage_id = id_text r;
      machine_id = r.machine_id;
      key_id = r.key_id;
      parent_key_id = r.parent_key_id;
      root_key_id = r.root_key_id;
      model = r.model;
      cost_usd = numeric to_numeric priced.cost_usd;
      price_id = priced.price_id;
      tokens_in = r.input_tokens;
      tokens_out = r.output_tokens;
      cache_read_tokens = r.cache_read_tokens;
      cache_write_tokens = r.cache_write_tokens;
      provider_cost = r.provider_cost;
      provider_cost_currency = r.provider_cost_currency;
      created_at = r.created_at;
    }

abbrev pub same_id : UsageLogRow → UsageLogRow → Bool
same_id r s = text_eq s.usage_id r.usage_id

-- `WHERE EXISTS (…)` and `ON CONFLICT (usage_id) DO NOTHING`, for one row.
abbrev pub is_new : List Key → List UsageLogRow → UsageLogRow → Bool
is_new keys log r = has_key r.key_id keys && not (any (same_id r) log)

-- The bulk insert: the table and the inserted rows.
unfoldable pub insert_rows :
    List Key → List UsageLogRow → List UsageLogRow → List UsageLogRow × List UsageLogRow
insert_rows keys log [] = (log, [])
insert_rows keys log (r ∷ rows) =
    let kept = insert_rows keys (r ∷ log) rows in
    let skipped = insert_rows keys log rows in
    if is_new keys log r then (kept.0, r ∷ kept.1) else skipped

-- `INSERT … ON CONFLICT (key_id) DO UPDATE` of one row of llm.key_spend.
unfoldable pub add_spend : KeySpend → List KeySpend → List KeySpend
add_spend s [] = s ∷ []
add_spend s (t ∷ ts) =
    if t.key_id == s.key_id
    then record t {
      spent_usd = t.spent_usd + s.spent_usd;
      request_count = t.request_count + s.request_count;
    }
      ∷ ts
    else t ∷ add_spend s ts

add_all : List KeySpend → List KeySpend → List KeySpend
add_all [] spend = spend
add_all (s ∷ ss) spend = add_all ss (add_spend s spend)

-- `SELECT DISTINCT … unnest(ARRAY[u.key_id, u.root_key_id]) … WHERE k IS NOT NULL`
abbrev pub payers : UsageLogRow → List ℕ
payers r = elim r.root_key_id [
  | none ↦ r.key_id ∷ []
  | some root ↦ if root == r.key_id then r.key_id ∷ [] else r.key_id ∷ root ∷ []
]

charge_to : List Key → ℕ → List ℕ → List KeySpend → List KeySpend
charge_to keys cost [] spend = spend
charge_to keys cost (i ∷ is) spend =
    let charged = add_spend (record { key_id = i; spent_usd = cost; request_count = 1 }) spend in
    charge_to keys cost is (if has_key i keys then charged else spend)

abbrev pub cost_of : UsageLogRow → ℕ
cost_of r = elim r.cost_usd [ none ↦ 0 | some c ↦ c ]

-- The groups of the SELECT: for each payer, the sum and the count over the rows that cost something.
group_from : List Key → List UsageLogRow → List KeySpend → List KeySpend
group_from keys [] groups = groups
group_from keys (r ∷ rows) groups =
    let more = charge_to keys (cost_of r) (payers r) groups in
    group_from keys rows (if ltb 0 (cost_of r) then more else groups)

-- `s.spent_usd >= k.budget_usd`, which is not true of a null budget.
abbrev pub reaches : Option ℕ → ℕ → Bool
reaches none spent = false
reaches (some b) spent = leb b spent

abbrev pub is_spent : Key → KeySpend → Bool
is_spent k s = s.key_id == k.id && reaches k.budget_usd s.spent_usd

abbrev pub is_charged : List KeySpend → Key → Bool
is_charged groups k = any (λ g. g.key_id == k.id) groups

-- The condition of the UPDATE.
abbrev pub flips : List KeySpend → List KeySpend → Key → Bool
flips groups spend k = is_charged groups k && (is_active k.status && any (is_spent k) spend)

abbrev pub flip_row : ℕ → Key → Key
flip_row now k = record k { status = over_budget; updated_at = now }

unfoldable pub charge_spend : ℕ → List UsageLogRow → Db → Db
unfolding group_from charge_to add_all
charge_spend now inserted db =
    let groups = group_from db.keys inserted [] in
    let spend = add_all groups db.key_spend in
    record db { key_spend = spend; keys = update_where (flips groups spend) (flip_row now) db.keys }

-- The transaction of one page: the number of inserted rows, and the tables.
unfoldable pub ingest_rows : ℕ → List UsageLogRow → Db → ℕ × Db
ingest_rows now rows db =
    let (log, inserted) = insert_rows db.keys db.usage_log rows in
    (length inserted, charge_spend now inserted (record db { usage_log = log }))

-- ===== src/PriceCache.antt =====
-- api/src/lib/pricing.ts: the price table read from llm.model_prices, the copy kept in memory, and
-- the cost of one usage row. `Models` is the catalog, and `rows` the answer of the SELECT.
pub mod Resolution
use kamu_llm_gateway.Prelude.{
  ℕ, ◌+◌, ◌-◌, Bool, true, Option, none, some, get_or, List, [], ◌∷◌, ◌++◌, Text, ltb,
  if◌then◌else◌,
}
use kamu_llm_gateway.Prelude.Maps
use kamu_llm_gateway.Pricing.{NormUsage, StoredPrice, PriceTable, pick_price, compute_cost_usd}
use kamu_llm_gateway.Catalog.{ModelEntry, Models, get_model}

abbrev pub price_cache_ttl_ms : ℕ
price_cache_ttl_ms = 30_000

pub record Priced : Type 0 where
  pub cost_usd : Option ℕ
  pub price_id : Option ℕ

pub record Cached : Type 0 where
  pub table : PriceTable
  pub loaded_at : ℕ

abbrev pub PriceCache : Type 0
PriceCache = Option Cached

abbrev pub or_empty : Option (List StoredPrice) → List StoredPrice
or_empty none = []
or_empty (some rows) = rows

-- One round of the loop of `loadPrices`.
unfoldable pub push_row : PriceTable → StoredPrice → PriceTable
push_row table r = Maps.put r.model (or_empty (Maps.get r.model table) ++ r ∷ []) table

unfoldable pub load_from : PriceTable → List StoredPrice → PriceTable
load_from table [] = table
load_from table (r ∷ rows) = load_from (push_row table r) rows

unfoldable pub load_prices : List StoredPrice → PriceTable
unfolding load_from push_row
load_prices rows = load_from [] rows

unfoldable pub reload_price_table : List StoredPrice → ℕ → PriceTable × PriceCache
reload_price_table rows now =
    let table = load_prices rows in (table, some (record { table = table; loaded_at = now }))

-- `!cache || Date.now() - cache.loadedAt > PRICE_CACHE_TTL_MS`, for a clock that does not run back.
unfoldable pub price_table : PriceCache → List StoredPrice → ℕ → PriceTable × PriceCache
unfolding reload_price_table
price_table none rows now = reload_price_table rows now
price_table (some c) rows now =
    if ltb price_cache_ttl_ms (now - c.loaded_at)
    then reload_price_table rows now
    else (c.table, some c)

unfoldable pub clear_price_cache : PriceCache → PriceCache
clear_price_cache _ = none

unfoldable pub catalog_cost : Option ModelEntry → NormUsage → Option ℕ
catalog_cost none usage = none
catalog_cost (some entry) usage = some (compute_cost_usd entry.rates usage)

-- What `priceUsage` returns once the row is looked up.
priced_by : Option StoredPrice → Option ModelEntry → NormUsage → Priced
priced_by (some row) entry usage = record {
  cost_usd = some (compute_cost_usd row.rates usage);
  price_id = some row.id;
}
priced_by none entry usage = record { cost_usd = catalog_cost entry usage; price_id = none }

unfoldable pub price_usage : Models → PriceTable → Text → ℕ → NormUsage → Priced
unfolding priced_by catalog_cost
price_usage models table model at usage =
    priced_by (pick_price table model at) (get_model models model) usage

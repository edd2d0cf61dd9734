-- ===== src/Prices/Bounds.antt =====
-- A form that is accepted gives a row that the table can hold.
use kamu_llm_gateway.Prelude.{◌≤◌, ◌≡◌, false, none, some, all, is_space}
use kamu_llm_gateway.Prelude.Maps
use kamu_llm_gateway.Catalog.{ModelEntry, Models, get_model}
use kamu_llm_gateway.Prices.{NewPrice, max_rate, per_request}

-- The row is of a catalog model without a long-context tier, its rates are within the column, and its
-- source is not of white space alone.
pub record IsAcceptable (models : Models) (p : NewPrice) : Type 0 where
  pub entry : ModelEntry
  pub known : get_model models p.model ≡ some entry
  pub flat : entry.long_context ≡ none
  pub input : p.rates.input_cost_per_mtok_usd ≤ max_rate
  pub output : p.rates.output_cost_per_mtok_usd ≤ max_rate
  pub cache_read : p.rates.cache_read_cost_per_mtok_usd ≤ max_rate
  pub cache_write : p.rates.cache_write_cost_per_mtok_usd ≤ max_rate
  pub per_request : p.rates.per_request_cost_usd ≤ max_rate
  pub sourced : all is_space p.source ≡ false

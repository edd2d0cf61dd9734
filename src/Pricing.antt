-- ===== src/Pricing.antt =====
-- shared/pricing.ts: the cost of a request, and the price row in effect. Rates are per million
-- tokens, and all amounts are fixed-point numbers with twelve decimals; a rate with at most ten
-- decimals has its cache fallbacks exactly, and one with at most six its cost.
pub mod Cost
pub mod Pick
use kamu_llm_gateway.Prelude.{
  ℕ, ◌+◌, ◌*◌, ◌/◌, Bool, true, false, ◌&&◌, Option, none, some, get_or, List, Text, ltb, leb, find,
  if◌then◌else◌,
}
use kamu_llm_gateway.Prelude.Maps

pub record NormUsage : Type 0 where
  pub input_tokens : ℕ
  pub output_tokens : ℕ
  pub cache_read_tokens : ℕ
  pub cache_write_tokens : ℕ

pub record LongContext : Type 0 where
  pub above_prompt_tokens : ℕ
  pub input_cost_per_mtok_usd : ℕ
  pub output_cost_per_mtok_usd : ℕ
  pub cache_read_cost_per_mtok_usd : ℕ
  pub cache_write_cost_per_mtok_usd : ℕ

pub record Rates : Type 0 where
  pub input_cost_per_mtok_usd : ℕ
  pub output_cost_per_mtok_usd : ℕ
  pub cache_read_cost_per_mtok_usd : Option ℕ
  pub cache_write_cost_per_mtok_usd : Option ℕ
  pub per_request_cost_usd : Option ℕ
  pub long_context : Option LongContext

-- The four token rates that `rates` gives, of the model or of its tier.
pub record TokenRates : Type 0 where
  pub input : ℕ
  pub output : ℕ
  pub cache_read : Option ℕ
  pub cache_write : Option ℕ

abbrev pub base_rates : Rates → TokenRates
base_rates m = record {
  input = m.input_cost_per_mtok_usd;
  output = m.output_cost_per_mtok_usd;
  cache_read = m.cache_read_cost_per_mtok_usd;
  cache_write = m.cache_write_cost_per_mtok_usd;
}

abbrev pub tier_rates : LongContext → TokenRates
tier_rates t = record {
  input = t.input_cost_per_mtok_usd;
  output = t.output_cost_per_mtok_usd;
  cache_read = some t.cache_read_cost_per_mtok_usd;
  cache_write = some t.cache_write_cost_per_mtok_usd;
}

abbrev pub prompt_tokens : NormUsage → ℕ
prompt_tokens u = u.input_tokens + u.cache_read_tokens + u.cache_write_tokens

-- `model.long_context && prompt > above_prompt_tokens ? model.long_context : model`
unfoldable pub choose_rates : TokenRates → Option LongContext → ℕ → TokenRates
choose_rates base none prompt = base
choose_rates base (some t) prompt = if ltb t.above_prompt_tokens prompt then tier_rates t else base

abbrev pub or_else : Option ℕ → ℕ → ℕ
or_else none d = d
or_else (some v) d = v

unfoldable pub read_rate : TokenRates → ℕ
read_rate r = or_else r.cache_read (r.input / 10)

unfoldable pub write_rate : TokenRates → ℕ
write_rate r = or_else r.cache_write (r.input * 5 / 4)

unfoldable pub token_cost : TokenRates → NormUsage → ℕ
token_cost r u =
    u.input_tokens * r.input
    + u.output_tokens * r.output
    + u.cache_read_tokens * read_rate r
    + u.cache_write_tokens * write_rate r

unfoldable pub compute_cost_usd : Rates → NormUsage → ℕ
unfolding choose_rates token_cost read_rate write_rate
compute_cost_usd m u =
    let rates = choose_rates (base_rates m) m.long_context (prompt_tokens u) in
    or_else m.per_request_cost_usd 0 + token_cost rates u / 1_000_000

pub record PriceRow : Type 0 where
  pub rates : Rates
  pub open rates use *
  pub id : ℕ
  pub model : Text
  pub valid_from : ℕ

-- shared/prices.ts: a stored llm.model_prices row.
pub record StoredPrice : Type 0 where
  pub row : PriceRow
  pub open row use *
  pub source : Text
  pub note : Option Text
  pub created_by : Option Text
  pub created_at : ℕ

abbrev pub PriceTable : Type 0
PriceTable = List (Text × List StoredPrice)

abbrev pub applies : ℕ → StoredPrice → Bool
applies at p = leb p.valid_from at

unfoldable pub pick_price : PriceTable → Text → ℕ → Option StoredPrice
pick_price table model at = elim (Maps.get model table) [
  | none ↦ none
  | some rows ↦ find (applies at) rows
]

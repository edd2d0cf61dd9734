-- ===== src/Prices/Billing.antt =====
-- The price that is shown is the price that is billed.
use kamu_llm_gateway.Prelude.{
  ℕ, ◌≡◌, refl, ap, inl, inr, none, some, Text, Option-cases, subst, sym,
}
use kamu_llm_gateway.Pricing.{
  NormUsage, Rates, StoredPrice, PriceTable, pick_price, compute_cost_usd, choose_rates, token_cost,
  read_rate, write_rate,
}
use kamu_llm_gateway.Catalog.{ModelEntry, Models, get_model}
use kamu_llm_gateway.PriceCache.{price_usage, catalog_cost}
use kamu_llm_gateway.Prices.{FullRates, row_rates, catalog_rates, effective_price}

-- The full rates as a model's, without a tier.
abbrev pub flat_rates : FullRates → Rates
flat_rates f = record {
  input_cost_per_mtok_usd = f.input_cost_per_mtok_usd;
  output_cost_per_mtok_usd = f.output_cost_per_mtok_usd;
  cache_read_cost_per_mtok_usd = some f.cache_read_cost_per_mtok_usd;
  cache_write_cost_per_mtok_usd = some f.cache_write_cost_per_mtok_usd;
  per_request_cost_usd = some f.per_request_cost_usd;
  long_context = none;
}

-- Rates as the table holds them: all given, and without a tier.
pub record IsFull (r : Rates) : Type 0 where
  pub full : FullRates
  pub same : r ≡ flat_rates full

row_cost :
    (r : Rates) (u : NormUsage)
    → IsFull r
    → compute_cost_usd r u ≡ compute_cost_usd (flat_rates (row_rates r)) u
unfolding row_rates
row_cost r u full =
    subst (λ (x : Rates). compute_cost_usd x u ≡ compute_cost_usd (flat_rates (row_rates x)) u)
      (sym full.same) refl

-- The catalog's derived cache rates are those that a request is billed by.
catalog_rates_cost :
    (r : Rates) (u : NormUsage)
    → r.long_context ≡ none
    → compute_cost_usd r u ≡ compute_cost_usd (flat_rates (catalog_rates r)) u
unfolding compute_cost_usd choose_rates token_cost read_rate write_rate catalog_rates
catalog_rates_cost r u flat = rw flat refl

-- For a catalog model without a long-context tier, and rows with all their rates, a usage is billed
-- by exactly the rates that effectivePrice gives for its time, the derived cache rates included.
pub effective_price-bills :
    (models : Models) (table : PriceTable) (m : Text) (at : ℕ) (u : NormUsage) (entry : ModelEntry)
    → get_model models m ≡ some entry
    → entry.long_context ≡ none
    → ((row : StoredPrice) → pick_price table m at ≡ some row → IsFull row.rates)
    → (price_usage models table m at u).cost_usd
      ≡ some (compute_cost_usd (flat_rates (effective_price table m entry at).rates) u)
unfolding price_usage effective_price catalog_cost
effective_price-bills models table m at u entry known flat full =
    elim (Option-cases (pick_price table m at)) [
      | inl missing ↦
          rw (missing, known, effective_price) (ap some (catalog_rates_cost entry.rates u flat))
      | inr (row, found) ↦
          rw (found, effective_price) (ap some (row_cost row.rates u (full row found)))
    ]

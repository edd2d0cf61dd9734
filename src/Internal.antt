-- ===== src/Internal.antt =====
-- api/src/routes/internal.ts: the price API of the billing worker. `digest` is the SHA-256 of a text,
-- `select_prices` the answer of the price SELECT on the table's rows, and the rest as in `Prices`.
pub mod Sync
use kamu_llm_gateway.Prelude.{
  ℕ, ◌+◌, ◌*◌, ◌/◌, Bool, true, false, not, ◌&&◌, ◌||◌, Option, none, some, get_or, List, [], ◌∷◌,
  Text, codes, text_eq, is_empty, trim, ◌==◌, map, if◌then◌else◌,
}
use kamu_llm_gateway.Http.{Reply, ok, err, require, or_blank}
use kamu_llm_gateway.Pricing.{StoredPrice, PriceTable}
use kamu_llm_gateway.Catalog.{ModelEntry, Models, get_model}
use kamu_llm_gateway.Credentials.{strip_bearer}
use kamu_llm_gateway.PriceCache.{PriceCache, reload_price_table, clear_price_cache}
use kamu_llm_gateway.Prices.{
  FullRates, Effective, effective_price, NewPrice, Parsed, valid, invalid, Number, Form,
  parse_price_form,
}

-- The check before every route; equal digests are equal lists of bytes.
unfoldable pub authorized : (Text → Text) → Text → Option Text → Bool
authorized digest internal_api_token authorization =
    let presented = trim (strip_bearer (or_blank authorization)) in
    not (is_empty presented) && text_eq (digest presented) (digest internal_api_token)

-- `Math.round(n * 1e6) / 1e6`, for twelve decimals.
unfoldable pub round6 : ℕ → ℕ
round6 n = (n + 500_000) / 1_000_000 * 1_000_000

unfoldable pub round_rates : FullRates → FullRates
round_rates r = record {
  input_cost_per_mtok_usd = round6 r.input_cost_per_mtok_usd;
  output_cost_per_mtok_usd = round6 r.output_cost_per_mtok_usd;
  cache_read_cost_per_mtok_usd = round6 r.cache_read_cost_per_mtok_usd;
  cache_write_cost_per_mtok_usd = round6 r.cache_write_cost_per_mtok_usd;
  per_request_cost_usd = round6 r.per_request_cost_usd;
}

-- `RATE_KEYS.every((k) => round6(current.rates[k]) === parsed[k])`
unfoldable pub same_rates : FullRates → FullRates → Bool
same_rates current parsed =
    round6 current.input_cost_per_mtok_usd == parsed.input_cost_per_mtok_usd
    && (round6 current.output_cost_per_mtok_usd == parsed.output_cost_per_mtok_usd
        && (round6 current.cache_read_cost_per_mtok_usd == parsed.cache_read_cost_per_mtok_usd
            && (round6 current.cache_write_cost_per_mtok_usd == parsed.cache_write_cost_per_mtok_usd
                && round6 current.per_request_cost_usd == parsed.per_request_cost_usd)))

-- The routing and the price of a catalog model.
pub record Listed : Type 0 where
  pub model : Text
  pub provider_slug : Text
  pub upstream_model : Text
  pub long_context : Bool
  pub price : Effective

unfoldable pub get_prices : Models → PriceTable → ℕ → List Listed
get_prices models table now =
    map
      (λ (e : Text × ModelEntry). record {
        model = e.0;
        provider_slug = e.1.provider_slug;
        upstream_model = get_or e.1.upstream_model_slug e.0;
        long_context = elim e.1.long_context [ none ↦ false | some _ ↦ true ];
        price = effective_price table e.0 e.1 now;
      })
      models

pub data Posted : Type 0 where
  unchanged : Effective → Posted
  created : StoredPrice → Posted

created_by_sync : Text
created_by_sync = codes "internal:price-sync"

-- The inserted row, as it is read back: a row has no tier.
unfoldable pub new_row : ℕ → ℕ → NewPrice → StoredPrice
unfolding created_by_sync
new_row id now p = record {
  row = record {
    rates = record {
      input_cost_per_mtok_usd = p.rates.input_cost_per_mtok_usd;
      output_cost_per_mtok_usd = p.rates.output_cost_per_mtok_usd;
      cache_read_cost_per_mtok_usd = some p.rates.cache_read_cost_per_mtok_usd;
      cache_write_cost_per_mtok_usd = some p.rates.cache_write_cost_per_mtok_usd;
      per_request_cost_usd = some p.rates.per_request_cost_usd;
      long_context = none;
    };
    id = id;
    model = p.model;
    valid_from = get_or p.valid_from now;
  };
  source = p.source;
  note = p.note;
  created_by = some created_by_sync;
  created_at = now;
}

module _ (select_prices : List StoredPrice → List StoredPrice) where
  -- The row is appended, unless the price in effect at its start has these rates already.
  unfoldable pub append_price :
      ℕ → ℕ → ModelEntry → NewPrice → List StoredPrice → Posted × (List StoredPrice × PriceCache)
  append_price id now entry p stored =
      let (table, cache) = reload_price_table (select_prices stored) now in
      let current = effective_price table p.model entry (get_or p.valid_from now) in
      let row = new_row id now p in
      if same_rates current.rates p.rates
      then (unchanged current, (stored, cache))
      else (created row, (row ∷ stored, clear_price_cache cache))

  module _ (parse_number : Text → Number) (parse_date : Text → Option ℕ) (models : Models) where
    post_parsed :
        ℕ
        → ℕ
        → Parsed NewPrice
        → List StoredPrice
        → PriceCache
        → Reply Posted × (List StoredPrice × PriceCache)
    post_parsed id now (invalid message) stored cache = (err 400 message, (stored, cache))
    post_parsed id now (valid p) stored cache = elim (get_model models p.model) [
      | none ↦ (err 500 (codes "Internal Server Error"), (stored, cache))
      | some entry ↦
          let (posted, state) =
            append_price id now entry (record p { rates = round_rates p.rates }) stored in
          (ok posted, state)
    ]

    -- The handler after the check; `none` is a body that is no object. A validated model is in the
    -- catalog, so no request ends with 500 there.
    unfoldable pub post_price :
        ℕ
        → ℕ
        → Option Form
        → List StoredPrice
        → PriceCache
        → Reply Posted × (List StoredPrice × PriceCache)
    unfolding post_parsed
    post_price id now none stored cache =
        (err 400 (codes "body must be a JSON object"), (stored, cache))
    post_price id now (some form) stored cache =
        post_parsed id now (parse_price_form parse_number parse_date models form) stored cache

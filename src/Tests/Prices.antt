-- ===== src/Tests/Prices.antt =====
-- Examples of the results on prices.
use kamu_llm_gateway.Prelude.{
  any, leb, ◌&&◌, false, subst, sym, ◌∙◌, get_or, ℕ, ◌≡◌, ◌≤◌, refl, inl, inr, true, Option, none,
  some, List, [], ◌∷◌, Text, codes, In, arith, ◌<◌, select, Bool-cases, ap,
}
use kamu_llm_gateway.Pricing.{
  NormUsage, Rates, StoredPrice, PriceTable, pick_price, compute_cost_usd,
}
use kamu_llm_gateway.Pricing.Cost.{compute_cost_usd_mono}
use kamu_llm_gateway.Pricing.Pick.{IsNewestFirst}
use kamu_llm_gateway.Catalog.{ModelEntry, Models, get_model}
use kamu_llm_gateway.PriceCache.{load_prices, price_usage}
use kamu_llm_gateway.PriceCache.Resolution.{
  is_for, IsAnswer, IsInEffect, price_usage_row, cost_in, price_usage_fallback,
}
use kamu_llm_gateway.Prices.{FullRates, NewPrice, Number, amount, Form, effective_price}
use kamu_llm_gateway.Prices.Billing.{flat_rates, IsFull, effective_price-bills}
use kamu_llm_gateway.Internal.{round_rates, new_row, created, append_price}
use kamu_llm_gateway.Internal.Sync.{append_price_again}
use kamu_llm_gateway.Admin.Prices.{load_table, current_of}
use kamu_llm_gateway.Admin.Prices.Current.{StartsDiffer, current_of-price_usage}

abbrev rates : Rates
rates = record {
  input_cost_per_mtok_usd = 3_000_000_000_000;
  output_cost_per_mtok_usd = 15_000_000_000_000;
  cache_read_cost_per_mtok_usd = some 300_000_000_000;
  cache_write_cost_per_mtok_usd = some 3_750_000_000_000;
  per_request_cost_usd = none;
  long_context = none;
}

abbrev usage : NormUsage
usage = record {
  input_tokens = 1_000;
  output_tokens = 10;
  cache_read_tokens = 0;
  cache_write_tokens = 0;
}

abbrev more_usage : NormUsage
more_usage = record {
  input_tokens = 1_000;
  output_tokens = 20;
  cache_read_tokens = 5;
  cache_write_tokens = 0;
}

compute_cost_usd_mono_example : compute_cost_usd rates usage ≤ compute_cost_usd rates more_usage
compute_cost_usd_mono_example = compute_cost_usd_mono rates usage more_usage tt (record {
  input = omega arith;
  output = omega arith;
  cache_read = omega arith;
  cache_write = omega arith;
})

abbrev price : StoredPrice
price = record {
  row = record { rates = rates; id = 5; model = codes "m"; valid_from = 1_000 };
  source = codes "s";
  note = none;
  created_by = none;
  created_at = 1_000;
}

abbrev prices : List StoredPrice
prices = price ∷ []

price-IsAnswer : IsAnswer prices prices
price-IsAnswer = record { sound = λ r m. m; complete = λ r m. m; ordered = ordered }
  where
    ordered : (m : Text) → IsNewestFirst (select (is_for m) prices)
    ordered m = elim (Bool-cases (is_for m price)) [
      | inl this ↦ rw this (tt, tt)
      | inr other ↦ rw other tt
    ]

abbrev no_models : Models
no_models = []

priced : (price_usage no_models (load_prices prices) (codes "m") 2_000 usage).price_id ≡ some 5
unfolding price_usage load_prices kamu_llm_gateway.Pricing.pick_price
    kamu_llm_gateway.Prelude.Maps.get kamu_llm_gateway.Prelude.Maps.put
    kamu_llm_gateway.Prelude.text_eq
priced = refl

price_usage_row_example :
    (r : StoredPrice) × IsInEffect prices (codes "m") 2_000 r
    × (r.id ≡ 5)
    × ((price_usage no_models (load_prices prices) (codes "m") 2_000 usage).cost_usd
        ≡ some (compute_cost_usd r.rates usage))
price_usage_row_example =
    price_usage_row prices prices price-IsAnswer no_models (codes "m") 2_000 5 usage priced

unpriced : (price_usage no_models (load_prices prices) (codes "m") 500 usage).price_id ≡ none
unfolding price_usage load_prices kamu_llm_gateway.Pricing.pick_price
    kamu_llm_gateway.Prelude.Maps.get kamu_llm_gateway.Prelude.Maps.put
    kamu_llm_gateway.Prelude.text_eq
unpriced = refl

price_usage_fallback_example :
    ((price_usage no_models (load_prices prices) (codes "m") 500 usage).cost_usd
      ≡ cost_in (get_model no_models (codes "m")) usage)
    × (any (λ q. is_for (codes "m") q && leb q.valid_from 500) prices ≡ false)
price_usage_fallback_example =
    price_usage_fallback prices prices price-IsAnswer no_models (codes "m") 500 usage unpriced

abbrev entry : ModelEntry
entry = record {
  provider_slug = codes "p";
  rates = rates;
  upstream_model_slug = none;
  request_overrides = none;
}

abbrev full : FullRates
full = record {
  input_cost_per_mtok_usd = 4_000_000_000_000;
  output_cost_per_mtok_usd = 15_000_000_000_000;
  cache_read_cost_per_mtok_usd = 300_000_000_000;
  cache_write_cost_per_mtok_usd = 3_750_000_000_000;
  per_request_cost_usd = 0;
}

abbrev moved : NewPrice
moved = record {
  model = codes "m";
  rates = full;
  valid_from = none;
  source = codes "s";
  note = none;
}

abbrev the_row : StoredPrice
the_row = new_row 6 3_000 moved

abbrev as_stored : List StoredPrice → List StoredPrice
as_stored rows = rows

two-IsAnswer : IsAnswer (the_row ∷ prices) (the_row ∷ prices)
unfolding new_row
two-IsAnswer = record { sound = λ r m. m; complete = λ r m. m; ordered = ordered }
  where
    ordered : (m : Text) → IsNewestFirst (select (is_for m) (the_row ∷ prices))
    ordered m = elim (Bool-cases (is_for m price)) [
      | inl this ↦ rw this ((omega arith, tt), (tt, tt))
      | inr other ↦ rw other tt
    ]

rounded : moved.rates ≡ round_rates full
unfolding round_rates kamu_llm_gateway.Internal.round6
rounded = refl

appended : (append_price as_stored 6 3_000 entry moved prices).0 ≡ created the_row
unfolding append_price kamu_llm_gateway.Internal.same_rates kamu_llm_gateway.Internal.round6
    kamu_llm_gateway.Prices.effective_price kamu_llm_gateway.Pricing.pick_price
    kamu_llm_gateway.Prelude.Maps.get kamu_llm_gateway.PriceCache.reload_price_table load_prices
    kamu_llm_gateway.Prelude.Maps.put kamu_llm_gateway.Prelude.text_eq
    kamu_llm_gateway.Prices.row_rates
appended = refl

append_price_again_example :
    (append_price as_stored 7 4_000 entry moved
      (append_price as_stored 6 3_000 entry moved prices).1.0).1.0
    ≡ the_row ∷ prices
append_price_again_example =
    append_price_again as_stored entry 6 3_000 moved prices two-IsAnswer 4_000 7 full the_row
      rounded refl (omega arith) before appended
  where
    before : (q : StoredPrice) → In q prices → q.model ≡ codes "m" → q.valid_from < 3_000
    before q (inl e) model = omega (arith, ap (λ (x : StoredPrice). x.valid_from) e)
    before q (inr e) model = absurd e

abbrev catalog : Models
catalog = (codes "m", entry) ∷ []

abbrev form : Form
form =
    (codes "model", codes " m")
    ∷ (codes "input_cost_per_mtok_usd", codes "1")
    ∷ (codes "output_cost_per_mtok_usd", codes "1")
    ∷ (codes "cache_read_cost_per_mtok_usd", codes "1")
    ∷ (codes "cache_write_cost_per_mtok_usd", codes "1")
    ∷ (codes "source", codes "list")
    ∷ []

abbrev one_dollar : Text → Number
one_dollar _ = amount 1_000_000_000_000

abbrev no_date : Text → Option ℕ
no_date _ = none

abbrev parsed : NewPrice
parsed = record {
  model = codes "m";
  rates = record {
    input_cost_per_mtok_usd = 1_000_000_000_000;
    output_cost_per_mtok_usd = 1_000_000_000_000;
    cache_read_cost_per_mtok_usd = 1_000_000_000_000;
    cache_write_cost_per_mtok_usd = 1_000_000_000_000;
    per_request_cost_usd = 0;
  };
  valid_from = none;
  source = codes "list";
  note = none;
}

abbrev table : PriceTable
table = load_prices (the_row ∷ [])

known : get_model catalog (codes "m") ≡ some entry
unfolding get_model kamu_llm_gateway.Prelude.Maps.get kamu_llm_gateway.Prelude.text_eq
known = refl

picked : pick_price table (codes "m") 4_000 ≡ some the_row
unfolding load_prices pick_price kamu_llm_gateway.Prelude.Maps.get kamu_llm_gateway.Prelude.Maps.put
    kamu_llm_gateway.Prelude.text_eq new_row
picked = refl

the_row-IsFull : IsFull the_row.rates
unfolding new_row
the_row-IsFull = record { full = full; same = refl }

picked-IsFull :
    (row : StoredPrice) → pick_price table (codes "m") 4_000 ≡ some row → IsFull row.rates
picked-IsFull row e =
    subst (λ (o : Option StoredPrice). IsFull (get_or o the_row).rates) (sym picked ∙ e)
      the_row-IsFull

effective_price-bills_example :
    (price_usage catalog table (codes "m") 4_000 usage).cost_usd
    ≡ some
        (compute_cost_usd (flat_rates (effective_price table (codes "m") entry 4_000).rates) usage)
effective_price-bills_example =
    effective_price-bills catalog table (codes "m") 4_000 usage entry known refl picked-IsFull

prices-StartsDiffer : StartsDiffer prices
prices-StartsDiffer p q (inl e) (inl f) same_model same_start = e ∙ sym f
prices-StartsDiffer p q (inl e) (inr h) same_model same_start = absurd h
prices-StartsDiffer p q (inr h) k same_model same_start = absurd h

current_of-price_usage_example :
    current_of (effective_price (load_table prices) (codes "m") entry 2_000).kind
    ≡ (price_usage no_models (load_prices prices) (codes "m") 2_000 usage).price_id
current_of-price_usage_example =
    current_of-price_usage prices prices-StartsDiffer (codes "m") 2_000 prices prices price-IsAnswer
      price-IsAnswer no_models entry usage

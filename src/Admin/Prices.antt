-- ===== src/Admin/Prices.antt =====
-- admin/src/routes/prices.tsx: the price page and its form. `rows` is the answer of the SELECT of
-- `loadTable`, and `to_numeric` rounds a rate to the six decimals of its column.
pub mod Current
use kamu_llm_gateway.Prelude.{
  ℕ, Bool, true, false, ◌&&◌, Option, none, some, get_or, List, [], ◌∷◌, ◌++◌, Text, codes,
  is_empty, map, length, ltb, ◌==◌, if◌then◌else◌,
}
use kamu_llm_gateway.Prelude.Maps
use kamu_llm_gateway.Http.{Reply, ok, err}
use kamu_llm_gateway.Pricing.{PriceRow, StoredPrice, PriceTable}
use kamu_llm_gateway.Catalog.{ModelEntry, Models, get_model}
use kamu_llm_gateway.PriceCache.{or_empty}
use kamu_llm_gateway.Prices.{
  FullRates, Kind, db, catalog, Effective, effective_price, NewPrice, Parsed, valid, invalid,
  Number, Form, parse_price_form,
}
use kamu_llm_gateway.Admin.{AdminUser, admin_name}

-- `loadTable`: the rows of a model in the order of the answer.
unfoldable pub table_from : PriceTable → List StoredPrice → PriceTable
table_from table [] = table
table_from table (r ∷ rows) =
    table_from (Maps.put r.model (or_empty (Maps.get r.model table) ++ r ∷ []) table) rows

unfoldable pub load_table : List StoredPrice → PriceTable
unfolding table_from
load_table rows = table_from [] rows

-- The last column of the history.
pub data Status : Type 0 where
  current scheduled other : Status

unfoldable pub price_status : Option ℕ → ℕ → StoredPrice → Status
price_status none now p = if ltb now p.valid_from then scheduled else other
price_status (some i) now p =
    if p.id == i then current else if ltb now p.valid_from then scheduled else other

unfoldable pub current_of : Kind → Option ℕ
current_of (db row) = some row.id
current_of (catalog derived) = none

-- A line of the table of current prices.
pub record Line : Type 0 where
  pub price : Effective
  pub rows : ℕ

pub record PricesPage : Type 0 where
  pub selected : Option Effective
  pub history : List (StoredPrice × Status)
  pub lines : List Line

price_history : PriceTable → ℕ → Option Effective → List (StoredPrice × Status)
unfolding price_status current_of
price_history table now none = []
price_history table now (some e) =
    map (λ p. (p, price_status (current_of e.kind) now p)) (or_empty (Maps.get e.model table))

-- `selected && MODELS[selected] ? effectivePrice(table, selected, now) : null`
unfoldable pub select_model : Models → PriceTable → ℕ → Option Text → Option Effective
select_model models table now none = none
select_model models table now (some m) = if is_empty m then none else elim (get_model models m) [
  | none ↦ none
  | some entry ↦ some (effective_price table m entry now)
]

unfoldable pub prices_page : Models → List StoredPrice → ℕ → Option Text → PricesPage
unfolding load_table price_history select_model
prices_page models rows now selected =
    let table = load_table rows in
    let sel = select_model models table now selected in
    record {
      selected = sel;
      history = price_history table now sel;
      lines =
          map
            (λ (e : Text × ModelEntry). record {
              price = effective_price table e.0 e.1 now;
              rows = length (or_empty (Maps.get e.0 table));
            })
            models;
    }

module _ (to_numeric : ℕ → ℕ) where
  -- The inserted row.
  unfoldable pub inserted_price : ℕ → ℕ → AdminUser → NewPrice → StoredPrice
  inserted_price id now admin p = record {
    row = record {
      rates = record {
        input_cost_per_mtok_usd = to_numeric p.rates.input_cost_per_mtok_usd;
        output_cost_per_mtok_usd = to_numeric p.rates.output_cost_per_mtok_usd;
        cache_read_cost_per_mtok_usd = some (to_numeric p.rates.cache_read_cost_per_mtok_usd);
        cache_write_cost_per_mtok_usd = some (to_numeric p.rates.cache_write_cost_per_mtok_usd);
        per_request_cost_usd = some (to_numeric p.rates.per_request_cost_usd);
        long_context = none;
      };
      id = id;
      model = p.model;
      valid_from = get_or p.valid_from now;
    };
    source = p.source;
    note = p.note;
    created_by = some (admin_name admin);
    created_at = now;
  }

  -- Where the form goes back to: with the message, or with `ok=1`.
  unfoldable pub post_price_form :
      (Text → Number)
      → (Text → Option ℕ)
      → Models
      → ℕ
      → ℕ
      → AdminUser
      → Form
      → List StoredPrice
      → Option Text × List StoredPrice
  unfolding inserted_price
  post_price_form parse_number parse_date models id now admin form stored =
      elim (parse_price_form parse_number parse_date models form) [
        | invalid message ↦ (some message, stored)
        | valid p ↦ (none, inserted_price id now admin p ∷ stored)
      ]

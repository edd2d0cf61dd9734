-- ===== src/Prices.antt =====
-- shared/prices.ts: what ingest charges for a model at a time, and the validation of a new price
-- row. `parse_number` is `Number` on a text that is not empty, and `parse_date` gives the time of
-- `new Date`, `none` where it is not a number.
pub mod Bounds
pub mod Billing
use kamu_llm_gateway.Prelude.{
  ℕ, ◌*◌, ◌/◌, Bool, true, false, ◌&&◌, ◌||◌, Option, none, some, List, [], ◌∷◌, ◌++◌, Text, codes,
  is_empty, trim, leb, ◌==◌, if◌then◌else◌,
}
use kamu_llm_gateway.Prelude.Maps
use kamu_llm_gateway.Pricing.{Rates, StoredPrice, PriceTable, pick_price, or_else}
use kamu_llm_gateway.Catalog.{ModelEntry, Models, get_model}

pub record FullRates : Type 0 where
  pub input_cost_per_mtok_usd : ℕ
  pub output_cost_per_mtok_usd : ℕ
  pub cache_read_cost_per_mtok_usd : ℕ
  pub cache_write_cost_per_mtok_usd : ℕ
  pub per_request_cost_usd : ℕ

pub data Kind : Type 0 where
  db : StoredPrice → Kind
  catalog : Bool → Kind

pub record Effective : Type 0 where
  pub model : Text
  pub rates : FullRates
  pub long_context : Bool
  pub kind : Kind

is_missing : Option ℕ → Bool
is_missing none = true
is_missing (some _) = false

-- A row has its cache rates: the columns are NOT NULL.
unfoldable pub row_rates : Rates → FullRates
row_rates r = record {
  input_cost_per_mtok_usd = r.input_cost_per_mtok_usd;
  output_cost_per_mtok_usd = r.output_cost_per_mtok_usd;
  cache_read_cost_per_mtok_usd = or_else r.cache_read_cost_per_mtok_usd 0;
  cache_write_cost_per_mtok_usd = or_else r.cache_write_cost_per_mtok_usd 0;
  per_request_cost_usd = or_else r.per_request_cost_usd 0;
}

-- The catalog's rates, the derived cache rates included.
unfoldable pub catalog_rates : Rates → FullRates
catalog_rates r = record {
  input_cost_per_mtok_usd = r.input_cost_per_mtok_usd;
  output_cost_per_mtok_usd = r.output_cost_per_mtok_usd;
  cache_read_cost_per_mtok_usd =
      or_else r.cache_read_cost_per_mtok_usd (r.input_cost_per_mtok_usd / 10);
  cache_write_cost_per_mtok_usd =
      or_else r.cache_write_cost_per_mtok_usd (r.input_cost_per_mtok_usd * 5 / 4);
  per_request_cost_usd = or_else r.per_request_cost_usd 0;
}

-- The price of a catalog model, whose entry is given.
unfoldable pub effective_price : PriceTable → Text → ModelEntry → ℕ → Effective
unfolding is_missing
effective_price table model entry at =
    let long : Bool = elim entry.long_context [ none ↦ false | some _ ↦ true ] in
    elim (pick_price table model at) [
      | some row ↦ record {
        model = model;
        long_context = long;
        kind = db row;
        rates = row_rates row.rates;
      }
      | none ↦ record {
        model = model;
        long_context = long;
        kind = catalog (
            is_missing entry.cache_read_cost_per_mtok_usd
            || is_missing entry.cache_write_cost_per_mtok_usd);
        rates = catalog_rates entry.rates;
      }
    ]

pub record NewPrice : Type 0 where
  pub model : Text
  pub rates : FullRates
  pub valid_from : Option ℕ
  pub source : Text
  pub note : Option Text

-- A value, or the message that says what is wrong.
pub data Parsed (A : Type 0) : Type 0 where
  valid : A → Parsed A
  invalid : Text → Parsed A

infixl 5 ◌>>=◌
◌>>=◌ : {Read Built : Type 0} → Parsed Read → (Read → Parsed Built) → Parsed Built
invalid message >>= build = invalid message
valid read >>= build = build read

-- 999_999 dollars
abbrev pub max_rate : ℕ
max_rate = 999_999 * 1_000_000_000_000

-- `Number(raw)`: a number that is not negative, or one that is refused.
pub data Number : Type 0 where
  amount : ℕ → Number
  refused : Number

abbrev pub Form : Type 0
Form = List (Text × Text)

-- `(form[f] ?? "").trim()`
field : Text → Form → Text
field f form = elim (Maps.get f form) [ none ↦ [] | some t ↦ trim t ]

rate_of : Text → Number → Parsed ℕ
rate_of name (amount n) =
    if leb n max_rate then valid n else invalid (name ++ codes " must be a number from 0 to 999999")
rate_of name refused = invalid (name ++ codes " must be a number from 0 to 999999")

parse_rate : (Text → Number) → Text → Text → Parsed ℕ
unfolding rate_of
parse_rate parse_number name raw =
    if is_empty raw then invalid (name ++ codes " is required") else rate_of name (parse_number raw)

is_digit : ℕ → Bool
is_digit c = leb b'0' c && leb c b'9'

-- Whether a text has the form of a pattern, in which `d` stands for a digit.
matches : Text → Text → Bool
unfolding is_digit
matches [] [] = true
matches [] (c ∷ s) = false
matches (p ∷ ps) [] = false
matches (p ∷ ps) (c ∷ s) = (if p == b'd' then is_digit c else p == c) && matches ps s

-- A datetime-local value is read as UTC.
date_text : Text → Text
unfolding matches
date_text raw =
    if matches (codes "dddd-dd-ddTdd:dd") raw || matches (codes "dddd-dd-ddTdd:dd:dd") raw
    then raw ++ codes "Z"
    else raw

parse_valid_from : (Text → Option ℕ) → Text → Parsed (Option ℕ)
unfolding date_text
parse_valid_from parse_date raw =
    if is_empty raw then valid none else elim (parse_date (date_text raw)) [
      | none ↦ invalid (codes "valid_from must be a date and time (UTC)")
      | some t ↦ valid (some t)
    ]

check_model : Models → Text → Parsed ModelEntry
check_model models model = elim (get_model models model) [
  | none ↦ invalid (codes "model must be a catalog model")
  | some entry ↦ elim entry.long_context [
    | none ↦ valid entry
    | some _ ↦ invalid (
        model
        ++ codes
            " has a long-context tier in the catalog; a model_prices row has no tier columns and would bill every request at the base rate")
  ]
]

per_request : (Text → Number) → Text → Parsed ℕ
unfolding parse_rate
per_request parse_number raw =
    if is_empty raw then valid 0 else parse_rate parse_number (codes "per_request_cost_usd") raw

some_source : Text → Parsed Text
some_source t = if is_empty t then invalid (codes "source is required") else valid t

unfoldable pub parse_price_form :
    (Text → Number) → (Text → Option ℕ) → Models → Form → Parsed NewPrice
unfolding field check_model parse_rate per_request parse_valid_from some_source ◌>>=◌
parse_price_form parse_number parse_date models form = do
  let model = field (codes "model") form
  entry ← check_model models model
  input ←
      parse_rate parse_number (codes "input_cost_per_mtok_usd")
        (field (codes "input_cost_per_mtok_usd") form)
  output ←
      parse_rate parse_number (codes "output_cost_per_mtok_usd")
        (field (codes "output_cost_per_mtok_usd") form)
  cache_read ←
      parse_rate parse_number (codes "cache_read_cost_per_mtok_usd")
        (field (codes "cache_read_cost_per_mtok_usd") form)
  cache_write ←
      parse_rate parse_number (codes "cache_write_cost_per_mtok_usd")
        (field (codes "cache_write_cost_per_mtok_usd") form)
  request ← per_request parse_number (field (codes "per_request_cost_usd") form)
  valid_from ← parse_valid_from parse_date (field (codes "valid_from") form)
  source ← some_source (field (codes "source") form)
  let note = field (codes "note") form
  valid (record {
    model = model;
    rates = record {
      input_cost_per_mtok_usd = input;
      output_cost_per_mtok_usd = output;
      cache_read_cost_per_mtok_usd = cache_read;
      cache_write_cost_per_mtok_usd = cache_write;
      per_request_cost_usd = request;
    };
    valid_from = valid_from;
    source = source;
    note = if is_empty note then none else some note;
  })

-- ===== src/PriceCache/Resolution.antt =====
-- `loadPrices` groups the rows by model and keeps their order, so the row that `pickPrice` finds is
-- the one in effect.
use mathlib.Core.List.{append_assoc, append-nil}
use kamu_llm_gateway.Prelude.{
  ℕ, ◌≤◌, ◌≡◌, refl, inl, inr, Bool, true, false, ◌&&◌, any, leb, leb→le, In_of_any, none, some,
  List, [], ◌∷◌, ◌++◌, arith, find, Option, select, In, In-select, In_of_select, Bool-cases,
  Option-cases, Text, text_eq, text_eq_iff, if◌then◌else◌,
}
use kamu_llm_gateway.Prelude.Maps
use kamu_llm_gateway.Pricing.{
  NormUsage, StoredPrice, PriceTable, applies, pick_price, compute_cost_usd,
}
use kamu_llm_gateway.Pricing.Pick.{IsNewestFirst, find_sound, find-none, find_newest}
use kamu_llm_gateway.Catalog.{Models, ModelEntry, get_model}
use kamu_llm_gateway.PriceCache.{
  or_empty, push_row, load_from, load_prices, catalog_cost, price_usage,
}

abbrev pub is_for : Text → StoredPrice → Bool
is_for m r = text_eq r.model m

abbrev rows_of : Text → PriceTable → List StoredPrice
rows_of m table = or_empty (Maps.get m table)

rows_of-push_row :
    (m : Text) (table : PriceTable) (r : StoredPrice)
    → rows_of m (push_row table r)
      ≡ (if is_for m r then rows_of m table ++ r ∷ [] else rows_of m table)
unfolding push_row
rows_of-push_row m table r = elim (Bool-cases (is_for m r)) [
  | inl same ↦ rw (Maps.get-put, same) (rw ((text_eq_iff r.model m).0 same))
  | inr other ↦ rw (Maps.get-put, other)
]

rows_of-load_from :
    (m : Text) (table : PriceTable) (rows : List StoredPrice)
    → rows_of m (load_from table rows) ≡ rows_of m table ++ select (is_for m) rows
unfolding load_from
rows_of-load_from m table [] = rw append-nil
rows_of-load_from m table (r ∷ rows) = elim (Bool-cases (is_for m r)) [
  | inl same ↦
      rw (
        rows_of-load_from m (push_row table r) rows,
        rows_of-push_row m table r,
        same,
        append_assoc,
      )
  | inr other ↦ rw (rows_of-load_from m (push_row table r) rows, rows_of-push_row m table r, other)
]

rows_of-load_prices :
    (m : Text) (rows : List StoredPrice) → rows_of m (load_prices rows) ≡ select (is_for m) rows
unfolding load_prices Maps.get
rows_of-load_prices m rows = rows_of-load_from m [] rows

pick_price-rows_of :
    (table : PriceTable) (m : Text) (at : ℕ)
    → pick_price table m at ≡ find (applies at) (rows_of m table)
unfolding pick_price
pick_price-rows_of table m at = ground arith

pub pick_price-load_prices :
    (rows : List StoredPrice) (m : Text) (at : ℕ)
    → pick_price (load_prices rows) m at ≡ find (applies at) (select (is_for m) rows)
pick_price-load_prices rows m at =
    rw (pick_price-rows_of (load_prices rows) m at, rows_of-load_prices m rows)

-- What the SELECT promises: the stored rows, and within each model the newest first. Rows with one
-- `valid_from` come in any order.
pub record IsAnswer (rows stored : List StoredPrice) : Type 0 where
  pub sound : (r : StoredPrice) → In r rows → In r stored
  pub complete : (r : StoredPrice) → In r stored → In r rows
  pub ordered : (m : Text) → IsNewestFirst (select (is_for m) rows)

-- The stored row of the model with the greatest `valid_from` that is not after `at`.
pub record IsInEffect (stored : List StoredPrice) (m : Text) (at : ℕ) (r : StoredPrice)
    : Type 0 where
  pub listed : In r stored
  pub model_is : r.model ≡ m
  pub started : r.valid_from ≤ at
  pub newest :
      (q : StoredPrice)
      → In q stored
      → q.model ≡ m
      → q.valid_from ≤ at
      → q.valid_from ≤ r.valid_from

-- What the catalog asks for a usage: the cost at the rates of the model's entry, and no cost for a
-- model that it does not list.
abbrev pub cost_in : Option ModelEntry → NormUsage → Option ℕ
cost_in entry u = elim entry [ none ↦ none | some e ↦ some (compute_cost_usd e.rates u) ]

catalog_cost-cost_in :
    (entry : Option ModelEntry) (u : NormUsage) → catalog_cost entry u ≡ cost_in entry u
unfolding catalog_cost
catalog_cost-cost_in none u = refl
catalog_cost-cost_in (some e) u = refl

module _ (rows stored : List StoredPrice) (answer : IsAnswer rows stored) where
  listed_for :
      (m : Text) (q : StoredPrice) → In q stored → q.model ≡ m → In q (select (is_for m) rows)
  listed_for m q h e =
      In-select (is_for m) q rows (answer.complete q h) ((text_eq_iff q.model m).1 e)

  pub pick_price-IsInEffect :
      (m : Text) (at : ℕ) (r : StoredPrice)
      → pick_price (load_prices rows) m at ≡ some r
      → IsInEffect stored m at r
  pick_price-IsInEffect m at r e =
      let found = rw (pick_price-load_prices rows m at) at e in
      let (here, started) = find_sound at (select (is_for m) rows) found in
      let (row, same) = In_of_select (is_for m) r rows here in
      record {
        listed = answer.sound r row;
        model_is = (text_eq_iff r.model m).0 same;
        started = started;
        newest = λ q h k.
            find_newest at (select (is_for m) rows) q (answer.ordered m) found (listed_for m q h k);
      }

  pub pick_price-none :
      (m : Text) (at : ℕ) (q : StoredPrice)
      → pick_price (load_prices rows) m at ≡ none
      → In q stored
      → q.model ≡ m
      → ¬ (q.valid_from ≤ at)
  pick_price-none m at q e h k =
      find-none at (select (is_for m) rows) q (rw (pick_price-load_prices rows m at) at e)
        (listed_for m q h k)

  -- A usage row that gets a price_id is billed by the stored row of its model with the greatest
  -- valid_from not after the usage, under any order that the database gives to equal rows.
  pub price_usage_row :
      (models : Models) (m : Text) (at i : ℕ) (u : NormUsage)
      → (price_usage models (load_prices rows) m at u).price_id ≡ some i
      → (r : StoredPrice) × IsInEffect stored m at r
        × (r.id ≡ i)
        × ((price_usage models (load_prices rows) m at u).cost_usd
            ≡ some (compute_cost_usd r.rates u))
  unfolding price_usage
  price_usage_row models m at i u e = elim (Option-cases (pick_price (load_prices rows) m at)) [
    | inl missed ↦ cc (rw missed at e)
    | inr (r, found) ↦ (r, pick_price-IsInEffect m at r found, ground arith, rw found refl)
  ]

  none_started :
      (m : Text) (at : ℕ)
      → pick_price (load_prices rows) m at ≡ none
      → any (λ q. is_for m q && leb q.valid_from at) stored ≡ false
  none_started m at e = elim (Bool-cases (any (λ q. is_for m q && leb q.valid_from at) stored)) [
    | inl some_row ↦
        let (q, here, both) =
          In_of_any (λ (q : StoredPrice). is_for m q && leb q.valid_from at) stored some_row in
        let same : is_for m q ≡ true = ground arith in
        let started : leb q.valid_from at ≡ true = ground arith in
        absurd (
          pick_price-none m at q e here ((text_eq_iff q.model m).0 same)
            (leb→le q.valid_from at started))
    | inr no_row ↦ no_row
  ]

  -- A usage row without a price_id has the catalog's cost, or none where the model is not in the
  -- catalog, and no stored row is of its model and had started by then; a model without any stored
  -- row is included.
  pub price_usage_fallback :
      (models : Models) (m : Text) (at : ℕ) (u : NormUsage)
      → (price_usage models (load_prices rows) m at u).price_id ≡ none
      → ((price_usage models (load_prices rows) m at u).cost_usd ≡ cost_in (get_model models m) u)
        × (any (λ q. is_for m q && leb q.valid_from at) stored ≡ false)
  unfolding price_usage
  price_usage_fallback models m at u e = elim (Option-cases (pick_price (load_prices rows) m at)) [
    | inl missed ↦
        (rw missed (catalog_cost-cost_in (get_model models m) u), none_started m at missed)
    | inr (r, found) ↦ absurd (cc (rw found at e))
  ]

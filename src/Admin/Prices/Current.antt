-- ===== src/Admin/Prices/Current.antt =====
-- The price that the page calls current is the one that ingest charges.
use kamu_llm_gateway.Prelude.{
  ℕ, ◌≡◌, refl, sym, ap, ◌∙◌, inl, inr, Option, none, some, List, [], ◌∷◌, Text, arith, In,
  Option-cases,
}
use kamu_llm_gateway.Pricing.{NormUsage, StoredPrice, PriceTable, pick_price}
use kamu_llm_gateway.Catalog.{ModelEntry, Models}
use kamu_llm_gateway.PriceCache.{push_row, load_from, load_prices, price_usage}
use kamu_llm_gateway.PriceCache.Resolution.{
  IsAnswer, IsInEffect, pick_price-IsInEffect, pick_price-none,
}
use kamu_llm_gateway.Prices.{effective_price}
use kamu_llm_gateway.Admin.Prices.{load_table, table_from, current_of}

-- The console's loop is the api's.
table_from-load_from :
    (table : PriceTable) (rows : List StoredPrice) → table_from table rows ≡ load_from table rows
unfolding table_from load_from push_row
table_from-load_from table [] = refl
table_from-load_from table (r ∷ rows) = table_from-load_from (push_row table r) rows

load_table-load_prices : (rows : List StoredPrice) → load_table rows ≡ load_prices rows
unfolding load_table load_prices
load_table-load_prices rows = table_from-load_from [] rows

-- No two rows of a model start at the same time.
abbrev pub StartsDiffer : List StoredPrice → Type 0
StartsDiffer stored =
    (p q : StoredPrice)
    → In p stored
    → In q stored
    → p.model ≡ q.model
    → p.valid_from ≡ q.valid_from
    → p ≡ q

abbrev id_of : Option StoredPrice → Option ℕ
id_of none = none
id_of (some r) = some r.id

module _ (m : Text) (at : ℕ) where
  effective_row :
      (table : PriceTable) (entry : ModelEntry)
      → current_of (effective_price table m entry at).kind ≡ id_of (pick_price table m at)
  unfolding current_of effective_price
  effective_row table entry = elim (Option-cases (pick_price table m at)) [
    | inl nothing ↦ rw (nothing, effective_price) refl
    | inr (p, found) ↦ rw (found, effective_price) refl
  ]

  billed_row :
      (models : Models) (table : PriceTable) (u : NormUsage)
      → (price_usage models table m at u).price_id ≡ id_of (pick_price table m at)
  unfolding price_usage
  billed_row models table u = elim (Option-cases (pick_price table m at)) [
    | inl nothing ↦ rw (nothing, price_usage) refl
    | inr (p, found) ↦ rw (found, price_usage) refl
  ]

module _ (stored : List StoredPrice) (differ : StartsDiffer stored) (m : Text) (at : ℕ) where
  in_effect_same : (p q : StoredPrice) → IsInEffect stored m at p → IsInEffect stored m at q → p ≡ q
  in_effect_same p q a b =
      let pq = a.newest q b.listed b.model_is b.started in
      let qp = b.newest p a.listed a.model_is a.started in
      differ p q a.listed b.listed (a.model_is ∙ sym b.model_is) (omega arith)

  module _ (rows shown : List StoredPrice) (answer : IsAnswer rows stored)
      (page : IsAnswer shown stored) where
    same_pick : pick_price (load_prices rows) m at ≡ pick_price (load_prices shown) m at
    same_pick = elim (Option-cases (pick_price (load_prices rows) m at)) [
      | inl nothing ↦ elim (Option-cases (pick_price (load_prices shown) m at)) [
        | inl none_too ↦ nothing ∙ sym none_too
        | inr (q, found) ↦
            let b = pick_price-IsInEffect shown stored page m at q found in
            absurd (pick_price-none rows stored answer m at q nothing b.listed b.model_is b.started)
      ]
      | inr (p, chosen) ↦
          let a = pick_price-IsInEffect rows stored answer m at p chosen in
          elim (Option-cases (pick_price (load_prices shown) m at)) [
            | inl nothing ↦
                absurd
                  (pick_price-none shown stored page m at p nothing a.listed a.model_is a.started)
            | inr (q, found) ↦
                chosen
                ∙ (ap some
                      (in_effect_same p q a (pick_price-IsInEffect shown stored page m at q found))
                    ∙ sym found)
          ]
    ]

    -- For a model of the catalog, the row that the price page calls current at a moment is the one
    -- that ingest bills a request of that moment by, and the page has none exactly when ingest uses
    -- the catalog's price; this under any order that the two queries give their rows within what
    -- their ORDER BY says, if no two rows of a model start at the same time.
    pub current_of-price_usage :
        (models : Models) (entry : ModelEntry) (u : NormUsage)
        → current_of (effective_price (load_table shown) m entry at).kind
          ≡ (price_usage models (load_prices rows) m at u).price_id
    current_of-price_usage models entry u =
        effective_row m at (load_table shown) entry
        ∙ (ap (λ t. id_of (pick_price t m at)) (load_table-load_prices shown)
            ∙ (ap id_of (sym same_pick) ∙ sym (billed_row m at models (load_prices rows) u)))

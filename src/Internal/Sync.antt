-- ===== src/Internal/Sync.antt =====
-- A daily sync appends a row only when a price has moved.
use kamu_llm_gateway.Prelude.{
  ℕ, ◌≤◌, ◌<◌, ◌≡◌, refl, sym, ap, subst, ◌∙◌, inl, inr, true, Option, none, some, get_or, List,
  ◌∷◌, arith, In, Option-cases, Bool-cases,
}
use kamu_llm_gateway.Pricing.{StoredPrice, pick_price}
use kamu_llm_gateway.Catalog.{ModelEntry}
use kamu_llm_gateway.PriceCache.{load_prices, reload_price_table}
use kamu_llm_gateway.PriceCache.Resolution.{IsAnswer, pick_price-IsInEffect, pick_price-none}
use kamu_llm_gateway.Prices.{FullRates, Effective, effective_price, row_rates, NewPrice}
use kamu_llm_gateway.Internal.{round6, round_rates, same_rates, new_row, created, append_price}

round6-round6 : (n : ℕ) → round6 (round6 n) ≡ round6 n
unfolding round6
round6-round6 n = omega arith

-- The rates of a new row are read back as they were written.
same_rates-new_row :
    (id now : ℕ) (p : NewPrice) (r : FullRates)
    → p.rates ≡ round_rates r
    → same_rates (row_rates (new_row id now p).rates) p.rates ≡ true
unfolding same_rates round_rates row_rates new_row
same_rates-new_row id now p r e =
    let h = λ (n : ℕ). (round6-round6 n) in
    rw
      (
        e,
        h r.input_cost_per_mtok_usd,
        h r.output_cost_per_mtok_usd,
        h r.cache_read_cost_per_mtok_usd,
        h r.cache_write_cost_per_mtok_usd,
        h r.per_request_cost_usd,
      )
      (ground arith)

module _ (select_prices : List StoredPrice → List StoredPrice) (entry : ModelEntry) (id now : ℕ)
    (p : NewPrice) (stored : List StoredPrice)
    (answer : IsAnswer
      (select_prices (new_row id now p ∷ stored))
      (new_row id now p ∷ stored)) where
  -- The new row is in effect from now on, if all rows of its model started before.
  new_row-picked :
      (later : ℕ)
      → p.valid_from ≡ none
      → now ≤ later
      → ((q : StoredPrice) → In q stored → q.model ≡ p.model → q.valid_from < now)
      → pick_price (load_prices (select_prices (new_row id now p ∷ stored))) p.model later
        ≡ some (new_row id now p)
  unfolding new_row
  new_row-picked later vf le before =
      let row = new_row id now p in
      let all = row ∷ stored in
      let starts : row.valid_from ≡ now = ap (λ (o : Option ℕ). get_or o now) vf in
      elim (Option-cases (pick_price (load_prices (select_prices all)) p.model later)) [
        | inl missed ↦ absurd (
            pick_price-none (select_prices all) all answer p.model later row missed (inl refl) refl
              (omega (arith, starts, le)))
        | inr (x, found) ↦
            let effect =
              pick_price-IsInEffect (select_prices all) all answer p.model later x found in
            elim effect.listed [
              | inl same ↦ found ∙ ap some same
              | inr old ↦
                  let early = before x old effect.model_is in
                  let newest = effect.newest row (inl refl) refl (omega (arith, starts, le)) in
                  absurd (omega (arith, early, newest, starts))
            ]
      ]

  abbrev current : Effective
  current =
      effective_price (load_prices (select_prices stored)) p.model entry (get_or p.valid_from now)

  append_again :
      (later other : ℕ) (r : FullRates)
      → p.rates ≡ round_rates r
      → p.valid_from ≡ none
      → now ≤ later
      → ((q : StoredPrice) → In q stored → q.model ≡ p.model → q.valid_from < now)
      → (append_price select_prices other later entry p (new_row id now p ∷ stored)).1.0
        ≡ new_row id now p ∷ stored
  unfolding append_price effective_price reload_price_table
  append_again later other r e vf le before =
      let at : later ≡ get_or p.valid_from later = sym (ap (λ (o : Option ℕ). get_or o later) vf) in
      let picked =
        subst
          (λ (t : ℕ).
            pick_price (load_prices (select_prices (new_row id now p ∷ stored))) p.model t
            ≡ some (new_row id now p))
          at (new_row-picked later vf le before) in
      rw (append_price, effective_price, picked, same_rates-new_row id now p r e) refl

  -- A price that was just appended, with rates at six decimals and from now on, is not appended
  -- again by a later sync with the same rates: the table stays as it is, whatever order the
  -- database gives to equal rows, if every other stored row of the model starts before it.
  pub append_price_again :
      (later other : ℕ) (r : FullRates) (row : StoredPrice)
      → p.rates ≡ round_rates r
      → p.valid_from ≡ none
      → now ≤ later
      → ((q : StoredPrice) → In q stored → q.model ≡ p.model → q.valid_from < now)
      → (append_price select_prices id now entry p stored).0 ≡ created row
      → (append_price select_prices other later entry p
          (append_price select_prices id now entry p stored).1.0).1.0
        ≡ row ∷ stored
  unfolding append_price reload_price_table
  append_price_again later other r row e vf le before first =
      elim (Bool-cases (same_rates current.rates p.rates)) [
        | inl same ↦ cc (rw (append_price, same) at first)
        | inr moved ↦
            let it : new_row id now p ≡ row = cc (rw (append_price, moved) at first) in
            rw moved
              (append_again later other r e vf le before ∙ ap (λ (x : StoredPrice). x ∷ stored) it)
      ]

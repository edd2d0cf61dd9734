-- ===== src/Tests/Budget.antt =====
-- Examples of the results on the ledger and the budgets in every interleaving.
use kamu_llm_gateway.Prelude.{
  ℕ, ◌<◌, ◌≡◌, ◌⊎◌, refl, sym, ap, ◌∙◌, get_or, inl, inr, true, Option, none, some, List, [], ◌∷◌,
  codes, In, arith,
}
use kamu_llm_gateway.Types.{Key}
use kamu_llm_gateway.Database.{Db, KeySpend}
use kamu_llm_gateway.Poller.{ingest_rows}
use kamu_llm_gateway.Poller.Charge.{owed}
use kamu_llm_gateway.Poller.Budget.{WithinBudget}
use kamu_llm_gateway.System.{World, Reach, here, next, tick, ingest}
use kamu_llm_gateway.System.Ledger.{IsSettled, IsBudgeted, Reach-IsSettled}
use kamu_llm_gateway.System.Promise.{usage-lt-budget}
use kamu_llm_gateway.Tests.Data.{plain, parent, db, env, first_row}

-- Both keys are charged, and the parent, whose budget is ten, has spent three before.
abbrev started : Db
started = record db {
  usage_log =
      record first_row {
        usage_id = codes "019b76da-a700-7005-8000-000000000001";
        key_id = 7;
        parent_key_id = none;
        cost_usd = some 3;
      }
      ∷ [];
  key_spend = record { key_id = 7; spent_usd = 3; request_count = 1 } ∷ [];
}

started-WithinBudget : WithinBudget started
started-WithinBudget k s b there (inl first) same budget alive =
    let i : s.key_id ≡ 7 = ap (λ (x : KeySpend). x.key_id) first in
    let spent_three : s.spent_usd ≡ 3 = ap (λ (x : KeySpend). x.spent_usd) first in
    elim there [
      | inl at_child ↦
          let j : k.id ≡ 8 = ap (λ (x : Key). x.id) at_child in absurd (omega (arith, i, j, same))
      | inr (inl at_stranger) ↦
          let j : k.id ≡ 9 = ap (λ (x : Key). x.id) at_stranger in
          absurd (omega (arith, i, j, same))
      | inr (inr (inl at_parent)) ↦
          let ten : b ≡ 10 =
            ap (λ (o : Option ℕ). get_or o 0)
              (sym budget ∙ ap (λ (x : Key). x.budget_usd) at_parent) in
          omega (arith, spent_three, ten)
      | inr (inr (inr none_left)) ↦ absurd none_left
    ]
started-WithinBudget k s b there (inr none_left) same budget alive = absurd none_left

abbrev first_world : World
first_world = record { now = 3_000; db = started; checked = [] }

abbrev charged : World
charged = record first_world { now = 4_000; db = (ingest_rows 3_000 (first_row ∷ []) started).1 }

charging : Reach plain env first_world charged
charging = next (next here (ingest (first_row ∷ []))) (tick 4_000 (omega arith))

Reach-IsSettled_example : IsSettled 7 charged.db
Reach-IsSettled_example =
    Reach-IsSettled plain env 7 charging (record { known = refl; charged = refl })

started-IsBudgeted : IsBudgeted started
started-IsBudgeted = record {
  referenced = λ s m. elim m [
    | inl first ↦ rw (ap (λ (x : KeySpend). x.key_id) first) refl
    | inr none_left ↦ absurd none_left
  ];
  within = started-WithinBudget;
}

parent_stored : In parent charged.db.keys
unfolding ingest_rows kamu_llm_gateway.Poller.charge_spend kamu_llm_gateway.Database.update_where
    kamu_llm_gateway.Poller.insert_rows kamu_llm_gateway.Prelude.text_eq
    kamu_llm_gateway.Poller.add_spend
parent_stored = inr (inr (inl refl))

usage-lt-budget_example : (owed 7 charged.db.usage_log ≡ 0) ⊎ (owed 7 charged.db.usage_log < 10)
usage-lt-budget_example =
    usage-lt-budget plain env 7 10 parent charging started-IsBudgeted (refl, tt)
      (record { known = refl; charged = refl }) parent_stored refl refl refl

-- ===== src/System/Promise.antt =====
-- What a budget promises: the ledger has one row for a key, so the stored usage of an active key,
-- its subtree's included, costs less than its budget.
use kamu_llm_gateway.Prelude.{
  ℕ, ◌<◌, ◌≡◌, ◌⊎◌, refl, sym, ◌∙◌, inl, inr, false, some, List, [], ◌∷◌, arith, Text, In, ◌==◌,
  ==_iff, Bool-cases,
}
use kamu_llm_gateway.Types.{Key, active}
use kamu_llm_gateway.Database.{KeySpend}
use kamu_llm_gateway.Keys.Derive.{Env}
use kamu_llm_gateway.Poller.Payers.{IsUnique, has_spend, ingest_rows-IsUnique}
use kamu_llm_gateway.Poller.Charge.{spent, owed}
use kamu_llm_gateway.System.{World, Reach, here, next}
use kamu_llm_gateway.System.Writes.{Step-writes}
use kamu_llm_gateway.System.Ledger.{IsSettled, IsBudgeted, Reach-IsSettled, Reach-IsBudgeted}

spent_none : (i : ℕ) (ss : List KeySpend) → has_spend i ss ≡ false → spent i ss ≡ 0
spent_none i [] h = refl
spent_none i (s ∷ ss) h = ground (arith, spent_none i ss)

-- A key is charged nothing, or what its one row says.
spent-cases :
    (i : ℕ) (ss : List KeySpend)
    → IsUnique ss
    → (spent i ss ≡ 0) ⊎ ((s : KeySpend) × In s ss × (s.key_id ≡ i) × (spent i ss ≡ s.spent_usd))
spent-cases i [] u = inl refl
spent-cases i (s ∷ ss) (first, rest) = elim (Bool-cases (s.key_id == i)) [
  | inl hit ↦
      let same : s.key_id ≡ i = (==_iff s.key_id i).0 hit in
      inr (s, inl refl, same, rw hit (omega (arith, spent_none i ss (rw same at first))))
  | inr miss ↦ elim (spent-cases i ss rest) [
    | inl free ↦ inl (rw miss (omega (arith, free)))
    | inr (t, m, same, e) ↦ inr (t, inr m, same, rw miss (omega (arith, e)))
  ]
]

module _ (hash : Text → Text) (env : Env) where
  Reach-IsUnique :
      {w v : World} → Reach hash env w v → IsUnique w.db.key_spend → IsUnique v.db.key_spend
  Reach-IsUnique here h = h
  Reach-IsUnique {w} {v} (next {u = x} before step) h =
      let h' = Reach-IsUnique before h in
      elim (Step-writes hash env step) [
        | inl write ↦ rw write.ledger h'
        | inr (rows, stored) ↦ rw stored (ingest_rows-IsUnique x.now rows x.db h')
      ]

  -- In every interleaving of requests and pages that starts from a ledger in order, with one row
  -- for a stored key at most, none of an active key at or past its budget, and what the stored usage
  -- costs the key `i`, the stored usage of `i` and its subtree costs nothing or less than the budget
  -- of `i`, as long as `i` is active.
  pub usage-lt-budget :
      (i b : ℕ) (k : Key) {w v : World}
      → Reach hash env w v
      → IsBudgeted w.db
      → IsUnique w.db.key_spend
      → IsSettled i w.db
      → In k v.db.keys
      → k.id ≡ i
      → k.budget_usd ≡ some b
      → k.status ≡ active
      → (owed i v.db.usage_log ≡ 0) ⊎ (owed i v.db.usage_log < b)
  usage-lt-budget i b k {w} {v} run budgeted unique settled m same budget alive =
      let charged = (Reach-IsSettled hash env i run settled).charged in
      let within = (Reach-IsBudgeted hash env run budgeted).within in
      elim (spent-cases i v.db.key_spend (Reach-IsUnique run unique)) [
        | inl free ↦ inl (omega (arith, charged, free))
        | inr (s, row, of_key, e) ↦
            inr (omega (arith, charged, e, within k s b m row (of_key ∙ sym same) budget alive))
      ]

-- ===== src/Poller/Charge.antt =====
-- The ledger: what a key is charged is what the stored usage of the key and its subtree costs.
use kamu_llm_gateway.Prelude.{
  ℕ, ◌+◌, ◌*◌, ◌≡◌, ap, ◌∙◌, inl, inr, Bool, true, ◌||◌, List, [], ◌∷◌, arith, ltb, ◌==◌,
  if◌then◌else◌, Bool-cases, Option-cases, ==_iff,
}
use kamu_llm_gateway.Types.{Key}
use kamu_llm_gateway.Database.{Db, UsageLogRow, KeySpend, has_key, is_id}
use kamu_llm_gateway.Poller.{
  is_new, insert_rows, add_spend, add_all, payers, charge_to, cost_of, group_from, charge_spend,
  ingest_rows,
}

-- What the ledger holds against a key.
abbrev pub spent : ℕ → List KeySpend → ℕ
spent i [] = 0
spent i (s ∷ ss) = (if s.key_id == i then s.spent_usd else 0) + spent i ss

-- A row is paid by its key and by its root.
abbrev pub pays : ℕ → UsageLogRow → Bool
pays i r = r.key_id == i || is_id i r.root_key_id

-- What the stored rows cost a key, each row once.
abbrev pub owed : ℕ → List UsageLogRow → ℕ
owed i [] = 0
owed i (r ∷ rows) = (if pays i r then cost_of r else 0) + owed i rows

spent-add_spend :
    (i : ℕ) (s : KeySpend) (ts : List KeySpend)
    → spent i (add_spend s ts) ≡ spent i ts + (if s.key_id == i then s.spent_usd else 0)
unfolding add_spend
spent-add_spend i s [] = omega arith
spent-add_spend i s (t ∷ ts) = ground (arith, spent-add_spend i s ts)

spent-add_all :
    (i : ℕ) (ss spend : List KeySpend) → spent i (add_all ss spend) ≡ spent i spend + spent i ss
unfolding add_all
spent-add_all i [] spend = omega arith
spent-add_all i (s ∷ ss) spend =
    omega (arith, spent-add_all i ss (add_spend s spend), spent-add_spend i s spend)

module _ (i : ℕ) (keys : List Key) (known : has_key i keys ≡ true) where
  abbrev occurs : List ℕ → ℕ
  occurs [] = 0
  occurs (j ∷ js) = (if j == i then 1 else 0) + occurs js

  spent-charge_one :
      (cost j : ℕ) (spend : List KeySpend)
      → spent i (
          if has_key j keys
          then add_spend (record { key_id = j; spent_usd = cost; request_count = 1 }) spend
          else spend)
        ≡ spent i spend + (if j == i then cost else 0)
  spent-charge_one cost j spend = elim (Bool-cases (has_key j keys)) [
    | inl here ↦
        rw here
          (spent-add_spend i (record { key_id = j; spent_usd = cost; request_count = 1 }) spend)
    | inr gone ↦ elim (Bool-cases (j == i)) [
      | inl same ↦ let e : j ≡ i = (==_iff j i).0 same in cc
      | inr other ↦ rw (gone, other) (omega arith)
    ]
  ]

  spent-charge_to :
      (cost : ℕ) (js : List ℕ) (spend : List KeySpend)
      → spent i (charge_to keys cost js spend) ≡ spent i spend + cost * occurs js
  unfolding charge_to
  spent-charge_to cost [] spend = omega arith
  spent-charge_to cost (j ∷ js) spend =
      let rest = spent-charge_to cost js (
        if has_key j keys
        then add_spend (record { key_id = j; spent_usd = cost; request_count = 1 }) spend
        else spend) in
      let first = spent-charge_one cost j spend in
      elim (Bool-cases (j == i)) [
        | inl same ↦ rw same (omega (arith, rest, rw same at first))
        | inr other ↦ rw other (omega (arith, rest, rw other at first))
      ]

  occurs-payers : (r : UsageLogRow) → occurs (payers r) ≡ (if pays i r then 1 else 0)
  occurs-payers r = elim (Option-cases r.root_key_id) [
    | inl none_root ↦ rw none_root (ground arith)
    | inr (root, e) ↦ rw e (ground arith)
  ]

  row_share :
      (r : UsageLogRow) (groups : List KeySpend) (rest : ℕ)
      → spent i (charge_to keys (cost_of r) (payers r) groups) + rest
        ≡ spent i groups + ((if pays i r then cost_of r else 0) + rest)
  row_share r groups rest =
      let paid = spent-charge_to (cost_of r) (payers r) groups in
      let times = occurs-payers r in
      elim (Bool-cases (pays i r)) [
        | inl yours ↦
            rw yours (omega (arith, paid, ap (λ (t : ℕ). cost_of r * t) (rw yours at times)))
        | inr other ↦
            rw other (omega (arith, paid, ap (λ (t : ℕ). cost_of r * t) (rw other at times)))
      ]

  spent-group_from :
      (rows : List UsageLogRow) (groups : List KeySpend)
      → spent i (group_from keys rows groups) ≡ spent i groups + owed i rows
  unfolding group_from
  spent-group_from [] groups = omega arith
  spent-group_from (r ∷ rows) groups = elim (Bool-cases (ltb 0 (cost_of r))) [
    | inl billed ↦ rw billed (
        spent-group_from rows (charge_to keys (cost_of r) (payers r) groups)
        ∙ row_share r groups (owed i rows))
    | inr free ↦
        let zero_cost : cost_of r ≡ 0 = ground arith in
        rw free (spent-group_from rows groups ∙ rw zero_cost (ground arith))
  ]

owed-insert_rows :
    (i : ℕ) (keys : List Key) (log rows : List UsageLogRow)
    → owed i (insert_rows keys log rows).0 ≡ owed i log + owed i (insert_rows keys log rows).1
unfolding insert_rows
owed-insert_rows i keys log [] = omega arith
owed-insert_rows i keys log (r ∷ rows) = elim (Bool-cases (is_new keys log r)) [
  | inl new ↦ rw new (omega (arith, owed-insert_rows i keys (r ∷ log) rows))
  | inr old ↦ rw old (owed-insert_rows i keys log rows)
]

-- If a known key has been charged exactly what the stored usage of itself and its subtree costs,
-- it still has after any page, whatever rows of the page were stored before, are repeated, or
-- belong to keys that are gone.
pub ingest_rows-spent :
    (i now : ℕ) (rows : List UsageLogRow) (db : Db)
    → has_key i db.keys ≡ true
    → spent i db.key_spend ≡ owed i db.usage_log
    → spent i (ingest_rows now rows db).1.key_spend ≡ owed i (ingest_rows now rows db).1.usage_log
unfolding ingest_rows charge_spend
ingest_rows-spent i now rows db known h =
    let inserted = (insert_rows db.keys db.usage_log rows).1 in
    omega (
      arith,
      h,
      spent-add_all i (group_from db.keys inserted []) db.key_spend,
      spent-group_from i db.keys known inserted [],
      owed-insert_rows i db.keys db.usage_log rows,
    )

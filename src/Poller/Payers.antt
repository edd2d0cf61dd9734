-- ===== src/Poller/Payers.antt =====
-- The ledger's keys: it names stored keys alone, since a payer that is not stored is not charged, and
-- has one row for a key.
use kamu_llm_gateway.Prelude.{
  ℕ, ◌≡◌, refl, ◌∙◌, inl, inr, Bool, true, false, ◌||◌, any, arith, List, [], ◌∷◌, In, ltb, ◌==◌,
  Bool-cases,
}
use kamu_llm_gateway.Types.{Key}
use kamu_llm_gateway.Database.{Db, UsageLogRow, KeySpend, has_id, has_key, any-update_where}
use kamu_llm_gateway.Poller.{
  insert_rows, add_spend, add_all, payers, charge_to, cost_of, group_from, flips, flip_row,
  charge_spend, ingest_rows,
}
use kamu_llm_gateway.Poller.Budget.{In-add_spend}

-- Every row of the ledger is of a stored key.
abbrev pub IsKnown : List Key → List KeySpend → Type 0
IsKnown keys spend = (s : KeySpend) → In s spend → has_key s.key_id keys ≡ true

module _ (keys : List Key) where
  add_spend-IsKnown :
      (g : KeySpend) (spend : List KeySpend)
      → has_key g.key_id keys ≡ true
      → IsKnown keys spend
      → IsKnown keys (add_spend g spend)
  add_spend-IsKnown g spend known h s m = elim (In-add_spend s g spend m) [
    | inl same ↦ rw same at known
    | inr old ↦ h s old
  ]

  add_all-IsKnown :
      (gs spend : List KeySpend)
      → IsKnown keys gs
      → IsKnown keys spend
      → IsKnown keys (add_all gs spend)
  unfolding add_all
  add_all-IsKnown [] spend hg h = h
  add_all-IsKnown (g ∷ gs) spend hg h =
      add_all-IsKnown gs (add_spend g spend) (λ s m. hg s (inr m))
        (add_spend-IsKnown g spend (hg g (inl refl)) h)

  charge_to-IsKnown :
      (cost : ℕ) (is : List ℕ) (spend : List KeySpend)
      → IsKnown keys spend
      → IsKnown keys (charge_to keys cost is spend)
  unfolding charge_to
  charge_to-IsKnown cost [] spend h = h
  charge_to-IsKnown cost (i ∷ is) spend h = elim (Bool-cases (has_key i keys)) [
    | inl known ↦ rw known (
        charge_to-IsKnown cost is _ (
          add_spend-IsKnown (record { key_id = i; spent_usd = cost; request_count = 1 }) spend known
            h))
    | inr gone ↦ rw gone (charge_to-IsKnown cost is spend h)
  ]

  group_from-IsKnown :
      (rows : List UsageLogRow) (groups : List KeySpend)
      → IsKnown keys groups
      → IsKnown keys (group_from keys rows groups)
  unfolding group_from
  group_from-IsKnown [] groups h = h
  group_from-IsKnown (r ∷ rows) groups h = elim (Bool-cases (ltb 0 (cost_of r))) [
    | inl billed ↦
        rw billed (group_from-IsKnown rows _ (charge_to-IsKnown (cost_of r) (payers r) groups h))
    | inr free ↦ rw free (group_from-IsKnown rows groups h)
  ]

pub ingest_rows-IsKnown :
    (now : ℕ) (rows : List UsageLogRow) (db : Db)
    → IsKnown db.keys db.key_spend
    → IsKnown (ingest_rows now rows db).1.keys (ingest_rows now rows db).1.key_spend
unfolding ingest_rows charge_spend
ingest_rows-IsKnown now rows db h s m =
    let inserted = (insert_rows db.keys db.usage_log rows).1 in
    let groups = group_from db.keys inserted [] in
    any-update_where (has_id s.key_id) (flips groups (add_all groups db.key_spend)) (flip_row now)
      db.keys (λ k. refl)
    ∙ add_all-IsKnown db.keys groups db.key_spend
        (group_from-IsKnown db.keys inserted [] (λ x e. absurd e)) h s m

abbrev pub has_spend : ℕ → List KeySpend → Bool
has_spend i spend = any (λ s. s.key_id == i) spend

-- The primary key of llm.key_spend.
abbrev pub IsUnique : List KeySpend → Type 0
IsUnique [] = Unit
IsUnique (s ∷ ss) = (has_spend s.key_id ss ≡ false) × IsUnique ss

has_spend-add_spend :
    (i : ℕ) (g : KeySpend) (ts : List KeySpend)
    → has_spend i (add_spend g ts) ≡ (has_spend i ts || g.key_id == i)
unfolding add_spend
has_spend-add_spend i g [] = ground arith
has_spend-add_spend i g (t ∷ ts) = ground (arith, has_spend-add_spend i g ts)

add_spend-IsUnique : (g : KeySpend) (ts : List KeySpend) → IsUnique ts → IsUnique (add_spend g ts)
unfolding add_spend
add_spend-IsUnique g [] u = (refl, tt)
add_spend-IsUnique g (t ∷ ts) (first, rest) = elim (Bool-cases (t.key_id == g.key_id)) [
  | inl hit ↦ rw hit (first, rest)
  | inr miss ↦ rw miss (fresh miss, add_spend-IsUnique g ts rest)
]
  where
    fresh : (t.key_id == g.key_id) ≡ false → has_spend t.key_id (add_spend g ts) ≡ false
    fresh miss = ground (arith, has_spend-add_spend t.key_id g ts)

add_all-IsUnique : (gs spend : List KeySpend) → IsUnique spend → IsUnique (add_all gs spend)
unfolding add_all
add_all-IsUnique [] spend u = u
add_all-IsUnique (g ∷ gs) spend u =
    add_all-IsUnique gs (add_spend g spend) (add_spend-IsUnique g spend u)

pub ingest_rows-IsUnique :
    (now : ℕ) (rows : List UsageLogRow) (db : Db)
    → IsUnique db.key_spend
    → IsUnique (ingest_rows now rows db).1.key_spend
unfolding ingest_rows charge_spend
ingest_rows-IsUnique now rows db u =
    add_all-IsUnique (group_from db.keys (insert_rows db.keys db.usage_log rows).1 []) db.key_spend
      u

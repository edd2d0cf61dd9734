-- ===== src/Poller/Budget.antt =====
-- Keys that reach their budget are flipped in the transaction that charges them.
use kamu_llm_gateway.Prelude.{
  ℕ, ◌+◌, ap, ◌<◌, ◌≡◌, ◌⊎◌, refl, inl, inr, Bool, true, false, some, List, [], ◌∷◌, arith, any,
  any_of_In, In, leb, ◌==◌, ==_iff, Bool-cases, if◌then◌else◌,
}
use kamu_llm_gateway.Types.{Key, active}
use kamu_llm_gateway.Database.{Db, UsageLogRow, KeySpend, In-update_where}
use kamu_llm_gateway.Poller.{
  insert_rows, add_spend, add_all, group_from, is_spent, is_charged, flips, flip_row, charge_spend,
  ingest_rows,
}

-- No active key with a budget has a ledger row at or past it.
abbrev pub WithinBudget : Db → Type 0
WithinBudget db =
    (k : Key) (s : KeySpend) (b : ℕ)
    → In k db.keys
    → In s db.key_spend
    → s.key_id ≡ k.id
    → k.budget_usd ≡ some b
    → k.status ≡ active
    → s.spent_usd < b

merged_or_old :
    (s g t : KeySpend) (ts : List KeySpend)
    → t.key_id ≡ g.key_id
    → In s (
        record t {
          spent_usd = t.spent_usd + g.spent_usd;
          request_count = t.request_count + g.request_count;
        }
        ∷ ts)
    → (g.key_id ≡ s.key_id) ⊎ In s (t ∷ ts)
merged_or_old s g t ts same (inl e) = inl (cc (same, ap (λ (x : KeySpend). x.key_id) e))
merged_or_old s g t ts same (inr m) = inr (inr m)

first_or_rest :
    (s g t : KeySpend) (ts : List KeySpend)
    → (In s (add_spend g ts) → (g.key_id ≡ s.key_id) ⊎ In s ts)
    → In s (t ∷ add_spend g ts)
    → (g.key_id ≡ s.key_id) ⊎ In s (t ∷ ts)
first_or_rest s g t ts ih (inl e) = inr (inl e)
first_or_rest s g t ts ih (inr m) = elim (ih m) [
  | inl charged ↦ inl charged
  | inr old ↦ inr (inr old)
]

pub In-add_spend :
    (s g : KeySpend) (ts : List KeySpend) → In s (add_spend g ts) → (g.key_id ≡ s.key_id) ⊎ In s ts
unfolding add_spend
In-add_spend s g [] (inl e) = inl (rw e)
In-add_spend s g [] (inr m) = absurd m
In-add_spend s g (t ∷ ts) m = elim (Bool-cases (t.key_id == g.key_id)) [
  | inl hit ↦ merged_or_old s g t ts ((==_iff t.key_id g.key_id).0 hit) (rw hit at m)
  | inr miss ↦ first_or_rest s g t ts (In-add_spend s g ts) (rw miss at m)
]

In-add_all :
    (s : KeySpend) (gs spend : List KeySpend)
    → In s (add_all gs spend)
    → (any (λ g. g.key_id == s.key_id) gs ≡ true) ⊎ In s spend
unfolding add_all
In-add_all s [] spend m = inr m
In-add_all s (g ∷ gs) spend m = elim (In-add_all s gs (add_spend g spend) m) [
  | inl later ↦ inl (ground arith)
  | inr here ↦ elim (In-add_spend s g spend here) [
    | inl same ↦ inl (ground arith)
    | inr old ↦ inr old
  ]
]

module _ (now : ℕ) (groups spend : List KeySpend) (k : Key) (s : KeySpend) (b : ℕ) where
  uncharged_of :
      any (is_spent k) (add_all groups spend) ≡ true
      → flips groups (add_all groups spend) k ≡ false
      → k.status ≡ active
      → is_charged groups k ≡ false
  uncharged_of full calm alive = elim (Bool-cases (is_charged groups k)) [
    | inl charged ↦ cc (rw (charged, alive, full) at calm)
    | inr none_charged ↦ none_charged
  ]

  kept_within :
      flips groups (add_all groups spend) k ≡ false
      → In s (add_all groups spend)
      → s.key_id ≡ k.id
      → k.budget_usd ≡ some b
      → k.status ≡ active
      → (In s spend → s.spent_usd < b)
      → s.spent_usd < b
  kept_within calm m same budget alive before = elim (Bool-cases (leb b s.spent_usd)) [
    | inr below ↦ ground arith
    | inl over ↦
        let total = add_all groups spend in
        let full : any (is_spent k) total ≡ true =
          any_of_In (is_spent k) s total m (rw (same, budget, over) (ground arith)) in
        let uncharged : is_charged groups k ≡ false = uncharged_of full calm alive in
        elim (In-add_all s groups spend m) [
          | inl charged ↦ cc (rw same at charged)
          | inr old ↦ before old
        ]
  ]

flipped_or_same :
    (now : ℕ) (flip : Bool) (k k' : Key)
    → k' ≡ (if flip then flip_row now k else k)
    → k'.status ≡ active
    → (flip ≡ false) × (k' ≡ k)
flipped_or_same now true k k' e alive = cc (alive, ap (λ (x : Key). x.status) e)
flipped_or_same now false k k' e alive = (refl, e)

-- A page keeps every active key with a budget below it: a key that the page brings to its budget is
-- no longer active when the page is stored.
pub ingest_rows-WithinBudget :
    (now : ℕ) (rows : List UsageLogRow) (db : Db)
    → WithinBudget db
    → WithinBudget (ingest_rows now rows db).1
unfolding ingest_rows charge_spend
ingest_rows-WithinBudget now rows db h k' s b here m same budget alive =
    let inserted = (insert_rows db.keys db.usage_log rows).1 in
    let groups = group_from db.keys inserted [] in
    let total = add_all groups db.key_spend in
    let (k, old, e) = In-update_where k' (flips groups total) (flip_row now) db.keys here in
    let (calm, e') = flipped_or_same now (flips groups total k) k k' e alive in
    kept_within now groups db.key_spend k s b calm m (rw e' at same) (rw e' at budget)
      (rw e' at alive) (λ row. h k s b old row (rw e' at same) (rw e' at budget) (rw e' at alive))

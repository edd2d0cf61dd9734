-- ===== src/System/Ledger.antt =====
-- The spend ledger in every interleaving: it stays what the stored usage costs, it names stored keys
-- alone, and no active key stays at or past its budget.
use kamu_llm_gateway.Prelude.{ℕ, ◌≡◌, ◌∙◌, inl, inr, true, List, Text}
use kamu_llm_gateway.Database.{Db, UsageLogRow, has_key}
use kamu_llm_gateway.Keys.Derive.{Env}
use kamu_llm_gateway.Poller.{ingest_rows}
use kamu_llm_gateway.Poller.Charge.{spent, owed, ingest_rows-spent}
use kamu_llm_gateway.Poller.Budget.{WithinBudget, ingest_rows-WithinBudget}
use kamu_llm_gateway.Poller.Pages.Complete.{has_key-ingest_rows}
use kamu_llm_gateway.Poller.Payers.{IsKnown, ingest_rows-IsKnown}
use kamu_llm_gateway.System.{World, Reach, here, next}
use kamu_llm_gateway.System.Writes.{IsKeyWrite, Step-writes}

-- A stored key has been charged what the stored usage of itself and its subtree costs.
pub record IsSettled (i : ℕ) (db : Db) : Type 0 where
  pub known : has_key i db.keys ≡ true
  pub charged : spent i db.key_spend ≡ owed i db.usage_log

-- The ledger has rows of stored keys alone, and no active key with a budget has one at or past it.
pub record IsBudgeted (db : Db) : Type 0 where
  pub referenced : IsKnown db.keys db.key_spend
  pub within : WithinBudget db

key_write-IsSettled :
    (i : ℕ) (db after : Db) → IsKeyWrite db after → IsSettled i db → IsSettled i after
key_write-IsSettled i db after w s = record {
  known = w.keeps i s.known;
  charged = rw (w.ledger, w.log) s.charged;
}

ingest-IsSettled :
    (i now : ℕ) (rows : List UsageLogRow) (db : Db)
    → IsSettled i db
    → IsSettled i (ingest_rows now rows db).1
ingest-IsSettled i now rows db s = record {
  known = has_key-ingest_rows now rows db i ∙ s.known;
  charged = ingest_rows-spent i now rows db s.known s.charged;
}

key_write-IsBudgeted : (db after : Db) → IsKeyWrite db after → IsBudgeted db → IsBudgeted after
key_write-IsBudgeted db after w h = record {
  referenced = λ s m. w.keeps s.key_id (h.referenced s (rw w.ledger at m));
  within = λ k s b here row same budget alive.
      let row' = rw w.ledger at row in
      elim (w.origin k here alive) [
        | inl fresh ↦ absurd (cc (fresh, rw same at (h.referenced s row')))
        | inr (old, there, id_eq, budget_eq, old_alive) ↦
            h.within old s b there row' (cc (same, id_eq)) (cc (budget, budget_eq)) old_alive
      ];
}

ingest-IsBudgeted :
    (now : ℕ) (rows : List UsageLogRow) (db : Db)
    → IsBudgeted db
    → IsBudgeted (ingest_rows now rows db).1
ingest-IsBudgeted now rows db h = record {
  referenced = ingest_rows-IsKnown now rows db h.referenced;
  within = ingest_rows-WithinBudget now rows db h.within;
}

module _ (hash : Text → Text) (env : Env) where
  -- In every interleaving of requests and pages, a stored key that has been charged what the stored
  -- usage of itself and its subtree costs stays stored and charged so, each row once.
  pub Reach-IsSettled :
      (i : ℕ) {w v : World} → Reach hash env w v → IsSettled i w.db → IsSettled i v.db
  Reach-IsSettled i here s = s
  Reach-IsSettled i {w} {v} (next {u} before step) s =
      let s' = Reach-IsSettled i before s in
      elim (Step-writes hash env step) [
        | inl write ↦ key_write-IsSettled i u.db v.db write s'
        | inr (rows, stored) ↦ rw stored (ingest-IsSettled i u.now rows u.db s')
      ]

  -- In every interleaving of requests and pages, if the ledger has rows of stored keys alone and no
  -- active key with a budget has one at or past it, then both stay so.
  pub Reach-IsBudgeted : {w v : World} → Reach hash env w v → IsBudgeted w.db → IsBudgeted v.db
  Reach-IsBudgeted here h = h
  Reach-IsBudgeted {w} {v} (next {u} before step) h =
      let h' = Reach-IsBudgeted before h in
      elim (Step-writes hash env step) [
        | inl write ↦ key_write-IsBudgeted u.db v.db write h'
        | inr (rows, stored) ↦ rw stored (ingest-IsBudgeted u.now rows u.db h')
      ]

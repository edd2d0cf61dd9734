-- ===== src/Poller/Repeat.antt =====
-- A page that is read again changes nothing.
use kamu_llm_gateway.Prelude.{
  ℕ, ◌≡◌, refl, sym, ap, subst, fun_ext, inl, inr, Bool, true, false, not, List, [], ◌∷◌, arith,
  any, all, Text, text_eq, text_eq_refl, Bool-cases, zero,
}
use kamu_llm_gateway.Types.{Key}
use kamu_llm_gateway.Database.{
  Db, UsageLogRow, has_id, has_key, update_where_none, any-update_where,
}
use kamu_llm_gateway.Poller.{is_new, insert_rows, flips, flip_row, charge_spend, ingest_rows}

pub any-insert_rows :
    (t : Text) (keys : List Key) (log rows : List UsageLogRow)
    → any (λ s. text_eq s.usage_id t) log ≡ true
    → any (λ s. text_eq s.usage_id t) (insert_rows keys log rows).0 ≡ true
unfolding insert_rows
any-insert_rows t keys log [] h = h
any-insert_rows t keys log (s ∷ rows) h = elim (Bool-cases (is_new keys log s)) [
  | inl new ↦ rw new (any-insert_rows t keys (s ∷ log) rows (ground arith))
  | inr old ↦ rw old (any-insert_rows t keys log rows h)
]

is_new-insert_rows :
    (r : UsageLogRow) (keys : List Key) (log rows : List UsageLogRow)
    → is_new keys log r ≡ false
    → is_new keys (insert_rows keys log rows).0 r ≡ false
is_new-insert_rows r keys log rows h = ground (arith, any-insert_rows r.usage_id keys log rows)

insert_rows_old :
    (keys : List Key) (log rows : List UsageLogRow)
    → all (λ r. not (is_new keys log r)) rows ≡ true
    → insert_rows keys log rows ≡ (log, [])
unfolding insert_rows
insert_rows_old keys log [] h = refl
insert_rows_old keys log (r ∷ rows) h = elim (Bool-cases (is_new keys log r)) [
  | inl new ↦ cc (rw new at h)
  | inr old ↦ rw old (insert_rows_old keys log rows (rw old at h))
]

pub all_old-insert_rows :
    (keys : List Key) (log rows : List UsageLogRow)
    → all (λ r. not (is_new keys (insert_rows keys log rows).0 r)) rows ≡ true
unfolding insert_rows
all_old-insert_rows keys log [] = refl
all_old-insert_rows keys log (r ∷ rows) = elim (Bool-cases (is_new keys log r)) [
  | inl new ↦
      let stored : is_new keys (r ∷ log) r ≡ false = ground (arith, text_eq_refl r.usage_id) in
      let final : (insert_rows keys log (r ∷ rows)).0 ≡ (insert_rows keys (r ∷ log) rows).0 =
        rw new in
      subst (λ (l : List UsageLogRow). all (λ x. not (is_new keys l x)) (r ∷ rows) ≡ true)
        (sym final)
        (rw (is_new-insert_rows r keys (r ∷ log) rows stored)
          (all_old-insert_rows keys (r ∷ log) rows))
  | inr old ↦
      let final : (insert_rows keys log (r ∷ rows)).0 ≡ (insert_rows keys log rows).0 = rw old in
      subst (λ (l : List UsageLogRow). all (λ x. not (is_new keys l x)) (r ∷ rows) ≡ true)
        (sym final)
        (rw (is_new-insert_rows r keys log rows old) (all_old-insert_rows keys log rows))
]

charge_spend_nothing : (now : ℕ) (db : Db) → charge_spend now [] db ≡ db
unfolding charge_spend
charge_spend_nothing now db =
    ap (λ (l : List Key). record db { keys = l })
      (update_where_none (flips [] db.key_spend) (flip_row now) db.keys (λ k. refl))

-- Whether a key exists does not depend on what was charged.
pub has_key-charge_spend :
    (i now : ℕ) (inserted : List UsageLogRow) (db : Db)
    → has_key i (charge_spend now inserted db).keys ≡ has_key i db.keys
unfolding charge_spend
has_key-charge_spend i now inserted db =
    any-update_where (has_id i) _ (flip_row now) db.keys (λ k. refl)

is_new-charge_spend :
    (now : ℕ) (inserted : List UsageLogRow) (db : Db) (log : List UsageLogRow) (r : UsageLogRow)
    → is_new (charge_spend now inserted db).keys log r ≡ is_new db.keys log r
is_new-charge_spend now inserted db log r = rw (has_key-charge_spend r.key_id now inserted db)

insert_rows_again :
    (now : ℕ) (rows : List UsageLogRow) (db : Db)
    → insert_rows (ingest_rows now rows db).1.keys (ingest_rows now rows db).1.usage_log rows
      ≡ ((ingest_rows now rows db).1.usage_log, [])
unfolding ingest_rows charge_spend insert_rows
insert_rows_again now rows db =
    let log = (insert_rows db.keys db.usage_log rows).0 in
    let inserted = (insert_rows db.keys db.usage_log rows).1 in
    let stored = record db { usage_log = log } in
    insert_rows_old (charge_spend now inserted stored).keys log rows (
      subst (λ (f : UsageLogRow → Bool). all (λ r. not (f r)) rows ≡ true)
        (sym (fun_ext (is_new-charge_spend now inserted stored log)))
        (all_old-insert_rows db.keys db.usage_log rows))

nothing_new :
    (now : ℕ) (rows : List UsageLogRow) (db : Db)
    → insert_rows db.keys db.usage_log rows ≡ (db.usage_log, [])
    → ingest_rows now rows db ≡ (zero, db)
unfolding ingest_rows
nothing_new now rows db e = rw e (ap (λ (d : Db). (zero, d)) (charge_spend_nothing now db))

-- Reading a page a second time, in the overlap or by another api machine, stores no row, charges
-- nothing and flips no key: the whole database is as it was after the first time.
pub ingest_rows_again :
    (now later : ℕ) (rows : List UsageLogRow) (db : Db)
    → ingest_rows later rows (ingest_rows now rows db).1 ≡ (zero, (ingest_rows now rows db).1)
ingest_rows_again now later rows db =
    let after = (ingest_rows now rows db).1 in
    nothing_new later rows after (insert_rows_again now rows db)

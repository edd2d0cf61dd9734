-- ===== src/Poller/Pages/Complete.antt =====
-- A poll stores every row that its machine has after the cursor.
use kamu_llm_gateway.Prelude.{
  ℕ, zero, suc, ◌+◌, ◌*◌, ◌<◌, ◌≡◌, refl, sym, ap, subst, ◌∙◌, ◌⊎◌, ltb→lt, lt→ltb, inl, inr,
  all-In, all, all_of_In, ◌||◌, In-map, not, text_eq, Bool, true, false, Option, some, List, [],
  ◌∷◌, arith, Text, In, any, length, take, drop, Bool-cases, ltb,
}
use kamu_llm_gateway.Catalog.{Models}
use kamu_llm_gateway.Types.{Key}
use kamu_llm_gateway.Database.{Db, UsageLogRow, has_key}
use kamu_llm_gateway.Poller.{
  page_limit, UsageRow, lacks_id, id_text, to_log_row, same_id, is_new, insert_rows, charge_spend,
  ingest_rows,
}
use kamu_llm_gateway.Poller.Repeat.{any-insert_rows, has_key-charge_spend, all_old-insert_rows}
use kamu_llm_gateway.Poller.Pages.{
  Tick, Polled, done, last_cursor, store_page, poll_page, poll_from, poll_once,
}

-- A row with this id is in the ledger.
abbrev pub has_usage : Text → Db → Bool
has_usage t db = any (λ s. text_eq s.usage_id t) db.usage_log

-- What a machine promises: `rest c` are its rows after the cursor `c`, in order. A page is the
-- first `limit` of them, and after a page's last row come the rows that it left out.
pub record IsFeed (limit : ℕ) (feed : Text → Option (List UsageRow)) (rest : Text → List UsageRow)
    : Type 0 where
  pub pages : (c : Text) → feed c ≡ some (take limit (rest c))
  pub resumes : (c : Text) → rest (last_cursor c (take limit (rest c))) ≡ drop limit (rest c)
  pub has_ids : (c : Text) → any lacks_id (rest c) ≡ false

module _ {A : Type 0} where
  pub take_nil : (n : ℕ) (xs : List A) → 0 < n → take n xs ≡ [] → xs ≡ []
  take_nil zero xs h e = absurd (omega (arith, h))
  take_nil (suc n) [] h e = refl
  take_nil (suc n) (x ∷ xs) h e = cc e

  pub take_short : (n : ℕ) (xs : List A) → length (take n xs) < n → take n xs ≡ xs
  take_short zero xs h = absurd (omega (arith, h))
  take_short (suc n) [] h = refl
  take_short (suc n) (x ∷ xs) h = ap (λ (l : List A). x ∷ l) (take_short n xs (omega (arith, h)))

  length-drop :
      (n m : ℕ) (xs : List A)
      → length xs < n + m
      → (length (take n xs) < n → ⊥)
      → length (drop n xs) < m
  length-drop zero m xs h full = omega (arith, h)
  length-drop (suc n) m [] h full = absurd (full (omega arith))
  length-drop (suc n) m (x ∷ xs) h full =
      length-drop n m xs (omega (arith, h)) (λ k. full (omega (arith, k)))

  pub In-take : (n : ℕ) (x : A) (xs : List A) → In x xs → In x (take n xs) ⊎ In x (drop n xs)
  In-take zero x xs m = inr m
  In-take (suc n) x [] m = absurd m
  In-take (suc n) x (y ∷ xs) (inl e) = inl (inl e)
  In-take (suc n) x (y ∷ xs) (inr m) = elim (In-take n x xs m) [
    | inl a ↦ inl (inr a)
    | inr b ↦ inr b
  ]

  any-take : (p : A → Bool) (n : ℕ) (xs : List A) → any p xs ≡ false → any p (take n xs) ≡ false
  any-take p zero xs h = refl
  any-take p (suc n) [] h = refl
  any-take p (suc n) (x ∷ xs) h = ground (arith, any-take p n xs)

pub ingest_rows_keeps :
    (now : ℕ) (rows : List UsageLogRow) (db : Db) (t : Text)
    → has_usage t db ≡ true
    → has_usage t (ingest_rows now rows db).1 ≡ true
unfolding ingest_rows charge_spend
ingest_rows_keeps now rows db t h = any-insert_rows t db.keys db.usage_log rows h

pub has_key-ingest_rows :
    (now : ℕ) (rows : List UsageLogRow) (db : Db) (i : ℕ)
    → has_key i (ingest_rows now rows db).1.keys ≡ has_key i db.keys
unfolding ingest_rows
has_key-ingest_rows now rows db i = has_key-charge_spend i now _ _

insert_rows_stores :
    (r : UsageLogRow) (keys : List Key) (log rows : List UsageLogRow)
    → has_key r.key_id keys ≡ true
    → In r rows
    → any (same_id r) (insert_rows keys log rows).0 ≡ true
insert_rows_stores r keys log rows known m =
    let old =
      all-In (λ s. not (is_new keys (insert_rows keys log rows).0 s)) r rows
        (all_old-insert_rows keys log rows) m in
    ground arith

ingest_rows_stores :
    (now : ℕ) (rows : List UsageLogRow) (db : Db) (r : UsageLogRow)
    → has_key r.key_id db.keys ≡ true
    → In r rows
    → has_usage r.usage_id (ingest_rows now rows db).1 ≡ true
unfolding ingest_rows charge_spend
ingest_rows_stores now rows db r known m = insert_rows_stores r db.keys db.usage_log rows known m

pub store_page_stores :
    (to_numeric : ℕ → ℕ) (models : Models) (limit : ℕ) (tick : ℕ → Tick)
    (feed : Text → Option (List UsageRow)) (n : ℕ) (page : List UsageRow) (db : Db) (x : UsageRow)
    → In x page
    → has_key x.key_id db.keys ≡ true
    → has_usage (id_text x) (store_page to_numeric models limit tick feed n page db).1 ≡ true
unfolding store_page to_log_row
store_page_stores to_numeric models limit tick feed n page db x m known =
    ingest_rows_stores (tick n).now _ db (to_log_row to_numeric models (tick n).prices x) known
      (In-map (to_log_row to_numeric models (tick n).prices) x page m)

module _ (to_numeric : ℕ → ℕ) (models : Models) (limit : ℕ) (tick : ℕ → Tick)
    (feed : Text → Option (List UsageRow)) (rest : Text → List UsageRow)
    (promise : IsFeed limit feed rest) (positive : 0 < limit) where
  -- The poll ended well, kept the ledger, and holds every one of the rows whose key exists.
  pub record IsPolled (rows : List UsageRow) (db : Db) (out : Polled × Db) : Type 0 where
    pub ends : (k : ℕ) × (out.0 ≡ done k)
    pub keeps : (t : Text) → has_usage t db ≡ true → has_usage t out.1 ≡ true
    pub stores :
        (x : UsageRow)
        → In x rows
        → has_key x.key_id db.keys ≡ true
        → has_usage (id_text x) out.1 ≡ true

  abbrev stored : ℕ → List UsageRow → Db → Db
  stored n page db = (store_page to_numeric models limit tick feed n page db).1

  store_page-keeps :
      (n : ℕ) (page : List UsageRow) (db : Db) (t : Text)
      → has_usage t db ≡ true
      → has_usage t (stored n page db) ≡ true
  unfolding store_page
  store_page-keeps n page db t h = ingest_rows_keeps _ _ db t h

  store_page-key :
      (n i : ℕ) (page : List UsageRow) (db : Db)
      → has_key i (stored n page db).keys ≡ has_key i db.keys
  unfolding store_page
  store_page-key n i page db = has_key-ingest_rows _ _ db i

  step-IsPolled :
      (n inserted : ℕ) (c : Text) (db : Db) (resume : List UsageRow → ℕ → Db → Polled × Db)
      (page : List UsageRow)
      → take limit (rest c) ≡ page
      → ((total : ℕ)
          → (length page < limit → ⊥)
          → IsPolled
              (drop limit (rest c))
              (stored n page db)
              (resume page total (stored n page db)))
      → IsPolled
          (rest c)
          db
          (poll_page to_numeric models limit tick feed n inserted db (some page) resume)
  unfolding poll_page
  step-IsPolled n inserted c db resume [] e later = record {
    ends = (inserted, refl);
    keeps = λ t h. h;
    stores = λ x m known. absurd (subst (In x) (take_nil limit (rest c) positive e) m);
  }
  step-IsPolled n inserted c db resume (r ∷ rows) e later =
      let ids : any lacks_id (r ∷ rows) ≡ false =
        subst (λ (l : List UsageRow). any lacks_id l ≡ false) e
          (any-take lacks_id limit (rest c) (promise.has_ids c)) in
      elim (Bool-cases (ltb (length (r ∷ rows)) limit)) [
        | inl short ↦
            let whole : rest c ≡ r ∷ rows =
              sym (take_short limit (rest c) (rw e (ltb→lt _ _ short))) ∙ e in
            rw (ids, short, whole)
              record {
                ends = (_, refl);
                keeps = store_page-keeps n (r ∷ rows) db;
                stores = store_page_stores to_numeric models limit tick feed n (r ∷ rows) db;
              }
        | inr full ↦
            let tail =
              later (inserted + (store_page to_numeric models limit tick feed n (r ∷ rows) db).0)
                (λ h. cc (full, lt→ltb _ _ h)) in
            rw (ids, full)
              record {
                ends = tail.ends;
                keeps = λ t h. tail.keeps t (store_page-keeps n (r ∷ rows) db t h);
                stores = λ x m known. elim (In-take limit x (rest c) m) [
                  | inl here ↦ tail.keeps (id_text x) (
                      store_page_stores to_numeric models limit tick feed n (r ∷ rows) db x
                        (subst (In x) e here) known)
                  | inr there ↦
                      tail.stores x there (store_page-key n x.key_id (r ∷ rows) db ∙ known)
                ];
              }
      ]

  poll_from-IsPolled :
      (fuel n inserted : ℕ) (c : Text) (db : Db)
      → length (rest c) < fuel * limit
      → IsPolled (rest c) db (poll_from to_numeric models limit tick feed fuel n c inserted db)
  unfolding poll_from
  poll_from-IsPolled zero n inserted c db h = absurd (omega (arith, h))
  poll_from-IsPolled (suc fuel) n inserted c db h = rw (promise.pages c) (
      step-IsPolled n inserted c db _ (take limit (rest c)) refl (λ total full.
        subst
          (λ (l : List UsageRow). IsPolled l (stored n (take limit (rest c)) db) (
            poll_from to_numeric models limit tick feed fuel (suc n)
              (last_cursor c (take limit (rest c))) total (stored n (take limit (rest c)) db)))
          (promise.resumes c)
          (poll_from-IsPolled fuel (suc n) total (last_cursor c (take limit (rest c)))
            (stored n (take limit (rest c)) db)
            (rw (promise.resumes c)
              (length-drop limit (fuel * limit) (rest c) (omega arith) full)))))

-- A row is in the ledger, unless its key does not exist.
abbrev pub is_accounted : List Key → Db → UsageRow → Bool
is_accounted keys after x = not (has_key x.key_id keys) || has_usage (id_text x) after

pub record IsComplete (rows : List UsageRow) (db : Db) (out : Polled × Db) : Type 0 where
  pub count : ℕ
  pub ends : out.0 ≡ done count
  pub accounted : all (is_accounted db.keys out.1) rows ≡ true

-- Where the machine answers every request, with its rows after the cursor in pages, each row with an
-- id, a poll that may read more pages than the rows fill ends without failing, whatever the rows are,
-- and then every row that the machine has after the cursor, and whose key exists, is in the ledger.
pub poll_once_stores :
    (to_numeric : ℕ → ℕ) (models : Models) (tick : ℕ → Tick) (feed : Text → Option (List UsageRow))
    (rest : Text → List UsageRow) (fuel : ℕ) (after : Text) (db : Db)
    → IsFeed page_limit feed rest
    → length (rest after) < fuel * page_limit
    → IsComplete (rest after) db (poll_once to_numeric models tick feed fuel after db)
unfolding poll_once
poll_once_stores to_numeric models tick feed rest fuel after db promise enough =
    let out = poll_once to_numeric models tick feed fuel after db in
    let polled =
      poll_from-IsPolled to_numeric models page_limit tick feed rest promise (omega arith) fuel 0 0
        after db enough in
    let stores = polled.stores in
    record {
      count = polled.ends.0;
      ends = polled.ends.1;
      accounted = all_of_In (is_accounted db.keys out.1) (rest after) (λ x m.
          elim (Bool-cases (has_key x.key_id db.keys)) [
            | inl known ↦ rw (known, stores x m known) refl
            | inr unknown ↦ rw unknown refl
          ]);
    }

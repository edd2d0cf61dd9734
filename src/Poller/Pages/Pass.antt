-- ===== src/Poller/Pages/Pass.antt =====
-- A pass over the machines: whatever the others answer, a machine that keeps the feed's promise has
-- its rows stored.
use kamu_llm_gateway.Prelude.{
  ℕ, not, ◌||◌, all-In, zero, suc, ◌*◌, ◌<◌, ◌≡◌, refl, sym, ◌∙◌, inl, inr, Bool, true, false,
  Option, none, some, List, [], ◌∷◌, ◌++◌, ap, subst, Text, In, any, length, ltb, Bool-cases,
  if◌then◌else◌,
}
use kamu_llm_gateway.Catalog.{Models}
use kamu_llm_gateway.Database.{Db, has_key}
use kamu_llm_gateway.UsageId.{with_overlap}
use kamu_llm_gateway.Poller.{UsageRow, lacks_id, id_text, page_limit}
use kamu_llm_gateway.Poller.Pages.{
  Tick, Polled, store_page, poll_page, poll_from, poll_once, last_cursor, Satellite, newest_stored,
  poll_satellite, poll_all,
}
use kamu_llm_gateway.Poller.Pages.Complete.{
  IsFeed, has_usage, ingest_rows_keeps, has_key-ingest_rows, is_accounted, poll_once_stores,
}

-- The tables of a poll have the rows and the keys that stood there before.
pub record IsKept (db after : Db) : Type 0 where
  pub rows : (t : Text) → has_usage t db ≡ true → has_usage t after ≡ true
  pub keys : (i : ℕ) → has_key i after.keys ≡ has_key i db.keys

same-IsKept : (db : Db) → IsKept db db
same-IsKept db = record { rows = λ t h. h; keys = λ i. refl }

then-IsKept : {a b c : Db} → IsKept a b → IsKept b c → IsKept a c
then-IsKept h k = record { rows = λ t p. k.rows t (h.rows t p); keys = λ i. k.keys i ∙ h.keys i }

tables_of_branch :
    (b : Bool) (rest : List Text × Db) (others : List Text)
    → (if b then rest else (others, rest.1)).1 ≡ rest.1
tables_of_branch true rest others = refl
tables_of_branch false rest others = refl

module _ (to_numeric : ℕ → ℕ) (models : Models) (tick : ℕ → Tick) where
  module _ (feed : Text → Option (List UsageRow)) where
    pub store_page-IsKept :
        (n : ℕ) (rows : List UsageRow) (db : Db)
        → IsKept db (store_page to_numeric models page_limit tick feed n rows db).1
    unfolding store_page
    store_page-IsKept n rows db = record {
      rows = λ t h. ingest_rows_keeps _ _ db t h;
      keys = λ i. has_key-ingest_rows _ _ db i;
    }

    pub poll_page-IsKept :
        (n inserted : ℕ) (db : Db) (answer : Option (List UsageRow))
        (resume : List UsageRow → ℕ → Db → Polled × Db)
        → ((rows : List UsageRow) (total : ℕ) (stored : Db)
            → IsKept stored (resume rows total stored).1)
        → IsKept db (poll_page to_numeric models page_limit tick feed n inserted db answer resume).1
    unfolding poll_page
    poll_page-IsKept n inserted db none resume later = same-IsKept db
    poll_page-IsKept n inserted db (some []) resume later = same-IsKept db
    poll_page-IsKept n inserted db (some (r ∷ rows)) resume later =
        let stored = store_page-IsKept n (r ∷ rows) db in
        elim (Bool-cases (any lacks_id (r ∷ rows))) [
          | inl old ↦ rw old (same-IsKept db)
          | inr ids ↦ elim (Bool-cases (ltb (length (r ∷ rows)) page_limit)) [
            | inl short ↦ rw (ids, short) stored
            | inr full ↦ rw (ids, full) (then-IsKept stored (later (r ∷ rows) _ _))
          ]
        ]

    pub poll_from-IsKept :
        (fuel n : ℕ) (cursor : Text) (inserted : ℕ) (db : Db)
        → IsKept db (poll_from to_numeric models page_limit tick feed fuel n cursor inserted db).1
    unfolding poll_from
    poll_from-IsKept zero n cursor inserted db = same-IsKept db
    poll_from-IsKept (suc fuel) n cursor inserted db =
        poll_page-IsKept n inserted db (feed cursor) _ (λ rows total stored.
          poll_from-IsKept fuel (suc n) (last_cursor cursor rows) total stored)

  module _ (feeds : Text → Text → Option (List UsageRow)) (fuel : ℕ) where
    pub poll_satellite-IsKept :
        (s : Satellite) (db : Db)
        → IsKept db (poll_satellite to_numeric models tick feeds fuel s db).1
    unfolding poll_satellite poll_once
    poll_satellite-IsKept s db = poll_from-IsKept (feeds s.origin) fuel 0 _ 0 db

    abbrev pub pass_db : List Satellite → Db → Db
    pass_db targets db = (poll_all to_numeric models tick feeds fuel targets db).1

    pub pass_cons :
        (s : Satellite) (targets : List Satellite) (db : Db)
        → pass_db (s ∷ targets) db
          ≡ pass_db targets (poll_satellite to_numeric models tick feeds fuel s db).1
    unfolding poll_all
    pass_cons s targets db = tables_of_branch _ _ _

    pass_append :
        (before targets : List Satellite) (db : Db)
        → pass_db (before ++ targets) db ≡ pass_db targets (pass_db before db)
    unfolding poll_all
    pass_append [] targets db = refl
    pass_append (s ∷ before) targets db =
        pass_cons s (before ++ targets) db
        ∙ (pass_append before targets _ ∙ ap (pass_db targets) (sym (pass_cons s before db)))

    pub pass-IsKept : (targets : List Satellite) (db : Db) → IsKept db (pass_db targets db)
    unfolding poll_all
    pass-IsKept [] db = same-IsKept db
    pass-IsKept (s ∷ targets) db =
        subst (IsKept db) (sym (pass_cons s targets db))
          (then-IsKept (poll_satellite-IsKept s db) (pass-IsKept targets _))

    -- What a machine's turn has stored is there when the pass ends.
    pub turn_lasts :
        (before after : List Satellite) (s : Satellite) (db : Db) (t : Text)
        → has_usage t (poll_satellite to_numeric models tick feeds fuel s (pass_db before db)).1
          ≡ true
        → has_usage t (pass_db (before ++ s ∷ after) db) ≡ true
    turn_lasts before after s db t stored =
        let turn = pass_db before db in
        subst (λ (d : Db). has_usage t d ≡ true)
          (sym (pass_append before (s ∷ after) db ∙ pass_cons s after turn))
          ((pass-IsKept after (poll_satellite to_numeric models tick feeds fuel s turn).1).rows t
            stored)

    -- In a pass over any machines, whatever the others answer or fail to answer, a machine whose feed
    -- keeps its promise, at its turn, has every row that it holds after the cursor, whose key exists,
    -- in the ledger when the pass ends, if each poll may read more pages than the rows fill.
    pub poll_all_stores :
        (before after : List Satellite) (s : Satellite) (rest : Text → List UsageRow) (db : Db)
        (x : UsageRow)
        → IsFeed page_limit (feeds s.origin) rest
        → ((cursor : Text) → length (rest cursor) < fuel * page_limit)
        → In x (rest (with_overlap (newest_stored s.machine_id (pass_db before db).usage_log)))
        → has_key x.key_id db.keys ≡ true
        → has_usage (id_text x) (pass_db (before ++ s ∷ after) db) ≡ true
    unfolding poll_satellite
    poll_all_stores before after s rest db x promise enough m known =
        let turn = pass_db before db in
        let cursor = with_overlap (newest_stored s.machine_id turn.usage_log) in
        let known' = (pass-IsKept before db).keys x.key_id ∙ known in
        let done = poll_satellite to_numeric models tick feeds fuel s turn in
        let polled =
          poll_once_stores to_numeric models tick (feeds s.origin) rest fuel cursor turn promise
            (enough cursor) in
        let here : (not (has_key x.key_id turn.keys) || has_usage (id_text x) done.1) ≡ true =
          all-In (is_accounted turn.keys done.1) x (rest cursor) polled.accounted m in
        turn_lasts before after s db (id_text x) (rw known' at here)

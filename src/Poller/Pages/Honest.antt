-- ===== src/Poller/Pages/Honest.antt =====
-- A pass that names no failed machine has stored what the machines had, whichever of them might have
-- failed.
use kamu_llm_gateway.Prelude.{
  ℕ, zero, suc, ◌+◌, ◌≡◌, ◌⊎◌, refl, sym, subst, ◌∙◌, inl, inr, Bool, true, false, Option, none,
  some, List, [], ◌∷◌, ◌++◌, arith, Text, In, any, length, take, drop, ltb, ltb→lt, Bool-cases,
  if◌then◌else◌,
}
use kamu_llm_gateway.Catalog.{Models}
use kamu_llm_gateway.Database.{Db, has_key}
use kamu_llm_gateway.UsageId.{with_overlap}
use kamu_llm_gateway.Poller.{UsageRow, lacks_id, id_text, page_limit}
use kamu_llm_gateway.Poller.Pages.{
  Tick, Polled, store_page, poll_page, poll_from, poll_once, last_cursor, Satellite, newest_stored,
  poll_satellite, poll_all, is_done,
}
use kamu_llm_gateway.Poller.Pages.Complete.{
  has_usage, take_nil, take_short, In-take, store_page_stores,
}
use kamu_llm_gateway.Poller.Pages.Pass.{
  IsKept, pass_db, store_page-IsKept, poll_from-IsKept, pass_cons, pass-IsKept, turn_lasts,
}

-- What an answer of a machine is, when there is one: `rest c` are its rows after the cursor `c`.
pub record IsHonest (limit : ℕ) (feed : Text → Option (List UsageRow)) (rest : Text → List UsageRow)
    : Type 0 where
  pub answers : (c : Text) → (feed c ≡ none) ⊎ (feed c ≡ some (take limit (rest c)))
  pub resumes : (c : Text) → rest (last_cursor c (take limit (rest c))) ≡ drop limit (rest c)

names_of_branch :
    (b : Bool) (name : Text) (rest : List Text × Db)
    → (if b then rest else (name ∷ rest.0, rest.1)).0 ≡ []
    → (b ≡ true) × (rest.0 ≡ [])
names_of_branch true name rest e = (refl, e)
names_of_branch false name rest e = absurd (cc e)

module _ (to_numeric : ℕ → ℕ) (models : Models) (tick : ℕ → Tick) where
  -- If the poll ended well, it holds every one of the rows whose key exists.
  abbrev Stores : List UsageRow → Db → Polled × Db → Type 0
  Stores rows db out =
      (is_done out.0 ≡ true)
      → (x : UsageRow) → In x rows
      → has_key x.key_id db.keys ≡ true
      → has_usage (id_text x) out.1 ≡ true

  module _ (feed : Text → Option (List UsageRow)) (rest : Text → List UsageRow)
      (honest : IsHonest page_limit feed rest) where
    page-Stores :
        (n inserted : ℕ) (c : Text) (db : Db) (resume : List UsageRow → ℕ → Db → Polled × Db)
        (page : List UsageRow)
        → take page_limit (rest c) ≡ page
        → ((total : ℕ) (stored : Db) → IsKept stored (resume page total stored).1)
        → ((total : ℕ) (stored : Db)
            → Stores (drop page_limit (rest c)) stored (resume page total stored))
        → Stores
            (rest c)
            db
            (poll_page to_numeric models page_limit tick feed n inserted db (some page) resume)
    unfolding poll_page
    page-Stores n inserted c db resume [] e kept later =
        λ ended x m known. absurd (subst (In x) (take_nil page_limit (rest c) (omega arith) e) m)
    page-Stores n inserted c db resume (r ∷ rows) e kept later =
        elim (Bool-cases (any lacks_id (r ∷ rows))) [
          | inl old ↦ rw old (λ ended x m known. absurd (cc ended))
          | inr ids ↦ elim (Bool-cases (ltb (length (r ∷ rows)) page_limit)) [
            | inl short ↦
                let whole : rest c ≡ r ∷ rows =
                  sym (take_short page_limit (rest c) (rw e (ltb→lt _ _ short))) ∙ e in
                rw (ids, short, whole)
                  (λ ended x m known.
                    store_page_stores to_numeric models page_limit tick feed n (r ∷ rows) db x m
                      known)
            | inr full ↦
                let stored = store_page to_numeric models page_limit tick feed n (r ∷ rows) db in
                rw (ids, full)
                  (λ ended x m known. elim (In-take page_limit x (rest c) m) [
                    | inl here ↦ (kept (inserted + stored.0) stored.1).rows (id_text x) (
                        store_page_stores to_numeric models page_limit tick feed n (r ∷ rows) db x
                          (subst (In x) e here) known)
                    | inr there ↦ later (inserted + stored.0) stored.1 ended x there (
                        (store_page-IsKept to_numeric models tick feed n (r ∷ rows) db).keys
                          x.key_id
                        ∙ known)
                  ])
          ]
        ]

    poll_from-Stores :
        (fuel n inserted : ℕ) (c : Text) (db : Db)
        → Stores (rest c) db (poll_from to_numeric models page_limit tick feed fuel n c inserted db)
    unfolding poll_from
    poll_from-Stores zero n inserted c db = λ ended x m known. absurd (cc ended)
    poll_from-Stores (suc fuel) n inserted c db = elim (honest.answers c) [
      | inl silent ↦ rw silent (λ ended x m known. absurd (cc ended))
      | inr page ↦ rw page (
          page-Stores n inserted c db _ (take page_limit (rest c)) refl
            (λ total stored.
              poll_from-IsKept to_numeric models tick feed fuel (suc n)
                (last_cursor c (take page_limit (rest c))) total stored)
            (λ total stored.
              subst
                (λ (l : List UsageRow). Stores l stored (
                  poll_from to_numeric models page_limit tick feed fuel (suc n)
                    (last_cursor c (take page_limit (rest c))) total stored))
                (honest.resumes c)
                (poll_from-Stores fuel (suc n) total (last_cursor c (take page_limit (rest c)))
                  stored)))
    ]

  module _ (feeds : Text → Text → Option (List UsageRow)) (fuel : ℕ) where
    abbrev pub failures : List Satellite → Db → List Text
    failures targets db = (poll_all to_numeric models tick feeds fuel targets db).0

    abbrev polled : Satellite → Db → Polled × Db
    polled s db = poll_satellite to_numeric models tick feeds fuel s db

    -- A pass without failures has polled each machine well.
    failures_cons :
        (s : Satellite) (targets : List Satellite) (db : Db)
        → failures (s ∷ targets) db ≡ []
        → (is_done (polled s db).0 ≡ true) × (failures targets (polled s db).1 ≡ [])
    unfolding poll_all
    failures_cons s targets db e = names_of_branch _ _ _ e

    pass_done :
        (before after : List Satellite) (s : Satellite) (db : Db)
        → failures (before ++ s ∷ after) db ≡ []
        → is_done (polled s (pass_db to_numeric models tick feeds fuel before db)).0 ≡ true
    unfolding poll_all
    pass_done [] after s db e = (failures_cons s after db e).0
    pass_done (b ∷ before) after s db e =
        subst (λ (d : Db). is_done (polled s d).0 ≡ true)
          (sym (pass_cons to_numeric models tick feeds fuel b before db))
          (pass_done before after s (polled b db).1 (failures_cons b (before ++ s ∷ after) db e).1)

    -- If a pass names no failed machine, every row that a machine, at its turn, held after its cursor,
    -- and whose key exists, is in the ledger; a machine may have failed to answer before or since.
    pub pass_stores :
        (before after : List Satellite) (s : Satellite) (rest : Text → List UsageRow) (db : Db)
        (x : UsageRow)
        → failures (before ++ s ∷ after) db ≡ []
        → IsHonest page_limit (feeds s.origin) rest
        → In x (
            rest (
              with_overlap (
                newest_stored s.machine_id
                  (pass_db to_numeric models tick feeds fuel before db).usage_log)))
        → has_key x.key_id db.keys ≡ true
        → has_usage (id_text x) (pass_db to_numeric models tick feeds fuel (before ++ s ∷ after) db)
          ≡ true
    unfolding poll_satellite poll_once
    pass_stores before after s rest db x good honest m known =
        let turn = pass_db to_numeric models tick feeds fuel before db in
        let cursor = with_overlap (newest_stored s.machine_id turn.usage_log) in
        turn_lasts to_numeric models tick feeds fuel before after s db (id_text x) (
          poll_from-Stores (feeds s.origin) rest honest fuel 0 0 cursor turn
            (pass_done before after s db good) x m
            ((pass-IsKept to_numeric models tick feeds fuel before db).keys x.key_id ∙ known))

-- ===== src/System/Writes.antt =====
-- What the writes to llm.keys leave alone: every request but a page of usage rows changes no more
-- than the keys, and of these it makes no row active and moves no budget.
use kamu_llm_gateway.Prelude.{
  ℕ, ◌≡◌, ◌⊎◌, refl, ◌∙◌, inl, inr, Bool, true, false, Option, List, ◌∷◌, arith, Text, In,
  Bool-cases,
}
use kamu_llm_gateway.Types.{Key, active}
use kamu_llm_gateway.Database.{
  Db, UsageLogRow, has_id, has_key, update_where, any-update_where, In-update_where,
}
use kamu_llm_gateway.Credentials.{Generated}
use kamu_llm_gateway.Keys.Create.{CreateBody, new_key, own_root, create}
use kamu_llm_gateway.Keys.Create.Outcomes.{create-cases}
use kamu_llm_gateway.Keys.Revoke.{in_subtree, revoke_row, revoke}
use kamu_llm_gateway.Keys.Revoke.Cascade.{revoke-cases}
use kamu_llm_gateway.Keys.Derive.{Env, DeriveRequest, child_row, mint}
use kamu_llm_gateway.Keys.Derive.Outcomes.{mint-cases}
use kamu_llm_gateway.Poller.{ingest_rows}
use kamu_llm_gateway.Admin.{AdminUser}
use kamu_llm_gateway.Admin.Keys.{
  top_level_row, admin_revoke_row, admin_cascade, post_form, post_json, revoke_form, revoke_json,
}
use kamu_llm_gateway.Admin.Keys.Mint.{with_top, post_form-writes, post_json-writes}
use kamu_llm_gateway.System.{
  World, Step, tick, post_key, revoke_key, check, mint_key, admin_form, admin_json,
  admin_revoke_form, admin_revoke_json, ingest,
}

-- An active row comes from an active one with the same budget, or is new.
abbrev pub Origin : List Key → Key → Type 0
Origin keys k =
    (has_key k.id keys ≡ false)
    ⊎ ((old : Key) × In old keys
        × (old.id ≡ k.id)
        × (old.budget_usd ≡ k.budget_usd)
        × (old.status ≡ active))

pub record IsKeyWrite (db after : Db) : Type 0 where
  pub ledger : after.key_spend ≡ db.key_spend
  pub log : after.usage_log ≡ db.usage_log
  pub keeps : (i : ℕ) → has_key i db.keys ≡ true → has_key i after.keys ≡ true
  pub origin : (k : Key) → In k after.keys → k.status ≡ active → Origin db.keys k

module _ (db : Db) where
  pub same-IsKeyWrite : IsKeyWrite db db
  same-IsKeyWrite = record {
    ledger = refl;
    log = refl;
    keeps = λ i h. h;
    origin = λ k m alive. inr (k, m, refl, refl, alive);
  }

  -- A row with a fresh id.
  row-IsKeyWrite :
      (k : Key) → has_key k.id db.keys ≡ false → IsKeyWrite db (record db { keys = k ∷ db.keys })
  row-IsKeyWrite k fresh = record {
    ledger = refl;
    log = refl;
    keeps = λ i h. ground (arith, h);
    origin = λ x m alive. elim m [
      | inl first ↦ inl (rw first fresh)
      | inr rest ↦ inr (x, rest, refl, refl, alive)
    ];
  }

  -- An update that keeps the ids and the budgets, and makes nothing active.
  update-IsKeyWrite :
      (after : Db) (q : Key → Bool) (f : Key → Key)
      → ((k : Key) → (f k).id ≡ k.id)
      → ((k : Key) → (f k).budget_usd ≡ k.budget_usd)
      → ((k : Key) → (f k).status ≡ active → k.status ≡ active)
      → IsKeyWrite db after
      → IsKeyWrite db (record after { keys = update_where q f after.keys })
  update-IsKeyWrite after q f same_id same_budget alive_before w = record {
    ledger = w.ledger;
    log = w.log;
    keeps = λ i h. any-update_where (has_id i) q f after.keys (λ k. rw (same_id k)) ∙ w.keeps i h;
    origin = λ x m alive.
        let (k, there, e) = In-update_where x q f after.keys m in
        elim (Bool-cases (q k)) [
          | inl hit ↦ moved k x there (rw hit at e) alive
          | inr miss ↦ rw (rw miss at e) (w.origin k there (cc (rw miss at e, alive)))
        ];
  }
    where
      moved : (k x : Key) → In k after.keys → x ≡ f k → x.status ≡ active → Origin db.keys x
      moved k x there e alive =
          rw (e, same_id k, same_budget k) (w.origin k there (alive_before k (cc (e, alive))))

  create-IsKeyWrite :
      (id now : ℕ) (user : Text) (g : Generated) (body : CreateBody)
      → has_key id db.keys ≡ false
      → IsKeyWrite db (create id now user g body db).1
  unfolding new_key
  create-IsKeyWrite id now user g body fresh = elim (create-cases id now user g body db) [
    | inl same ↦ rw same same-IsKeyWrite
    | inr (request, added) ↦
        let row = new_key id now user g body request in
        rw added (
          update-IsKeyWrite (record db { keys = row ∷ db.keys }) (has_id id) (own_root now)
            (λ k. refl) (λ k. refl) (λ k e. e) (row-IsKeyWrite row fresh))
  ]

  revoke-IsKeyWrite : (now : ℕ) (user : Text) (id : ℕ) → IsKeyWrite db (revoke now user id db).1
  revoke-IsKeyWrite now user id = elim (revoke-cases now user id db) [
    | inl (message, refused) ↦ rw refused same-IsKeyWrite
    | inr (n, done) ↦ rw done (
        update-IsKeyWrite db (in_subtree id) (revoke_row now user) (λ k. refl) (λ k. refl)
          (λ k e. cc e) same-IsKeyWrite)
  ]

  mint-IsKeyWrite :
      (env : Env) (id now : ℕ) (r : DeriveRequest)
      → has_key id db.keys ≡ false
      → IsKeyWrite db (record db { keys = (mint env id now r db.keys).1 })
  unfolding child_row
  mint-IsKeyWrite env id now r fresh = elim (mint-cases env id now r db.keys) [
    | inl limited ↦ rw limited same-IsKeyWrite
    | inr (inl full) ↦ rw full same-IsKeyWrite
    | inr (inr passes) ↦ rw passes.inserts (row-IsKeyWrite (child_row id now r) fresh)
  ]

  with_top-IsKeyWrite :
      (id now : ℕ) (admin : AdminUser) (g : Generated) (after : Db)
      → has_key id db.keys ≡ false
      → (after ≡ db)
        ⊎ ((team_id : ℕ) × (label : Text) × (budget : Option ℕ) × (after
              ≡ with_top id now admin g db team_id label budget))
      → IsKeyWrite db after
  unfolding top_level_row
  with_top-IsKeyWrite id now admin g after fresh (inl same) = rw same same-IsKeyWrite
  with_top-IsKeyWrite id now admin g after fresh (inr (team_id, label, budget, added)) =
      let row = top_level_row id now admin g team_id label budget in
      rw added (
        update-IsKeyWrite (record db { keys = row ∷ db.keys }) (has_id id) (own_root now)
          (λ k. refl) (λ k. refl) (λ k e. e) (row-IsKeyWrite row fresh))

  admin_revoke-IsKeyWrite :
      (now : ℕ) (admin : AdminUser) (id : ℕ) → IsKeyWrite db (revoke_json now admin id db).1
  unfolding revoke_json admin_cascade
  admin_revoke-IsKeyWrite now admin id =
      update-IsKeyWrite db (in_subtree id) (admin_revoke_row now admin) (λ k. refl) (λ k. refl)
        (λ k e. cc e) same-IsKeyWrite

module _ (hash : Text → Text) (env : Env) where
  -- A step writes the keys alone, or stores a page.
  pub Step-writes :
      {w v : World}
      → Step hash env w v
      → IsKeyWrite w.db v.db
        ⊎ ((rows : List UsageLogRow) × (v.db ≡ (ingest_rows w.now rows w.db).1))
  unfolding revoke_form revoke_json
  Step-writes {w} (tick later le) = inl (same-IsKeyWrite w.db)
  Step-writes {w} (post_key id user g body fresh) =
      inl (create-IsKeyWrite w.db id w.now user g body fresh)
  Step-writes {w} (revoke_key user id) = inl (revoke-IsKeyWrite w.db w.now user id)
  Step-writes {w} (check authorization body r passed) = inl (same-IsKeyWrite w.db)
  Step-writes {w} (mint_key id r m fresh) = inl (mint-IsKeyWrite w.db env id w.now r fresh)
  Step-writes {w} (admin_form parse_number id admin g form fresh) = inl (
      with_top-IsKeyWrite w.db id w.now admin g
        (post_form parse_number id w.now admin g form w.db).1 fresh
        (post_form-writes id w.now admin g w.db parse_number form))
  Step-writes {w} (admin_json id admin g body fresh) = inl (
      with_top-IsKeyWrite w.db id w.now admin g (post_json id w.now admin g body w.db).1 fresh
        (post_json-writes id w.now admin g w.db body))
  Step-writes {w} (admin_revoke_form admin id) = inl (admin_revoke-IsKeyWrite w.db w.now admin id)
  Step-writes {w} (admin_revoke_json admin id) = inl (admin_revoke-IsKeyWrite w.db w.now admin id)
  Step-writes {w} (ingest rows) = inr (rows, refl)

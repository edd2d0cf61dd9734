-- ===== src/System/Caps.antt =====
-- The limits on a parent's sub-keys hold in every interleaving.
use kamu_llm_gateway.Prelude.{
  ℕ, ◌≤◌, ◌≡◌, ◌⊎◌, Option, inl, inr, Bool, true, List, ◌∷◌, arith, Text, count_where,
  count_where_mono, ◌==◌, Bool-cases,
}
use kamu_llm_gateway.Types.{Key}
use kamu_llm_gateway.Database.{Db, UsageLogRow, has_id, update_where, count_where-update_where}
use kamu_llm_gateway.Credentials.{Generated}
use kamu_llm_gateway.Keys.Create.{CreateBody, CreateRequest, new_key, own_root, create}
use kamu_llm_gateway.Keys.Create.Outcomes.{create-cases}
use kamu_llm_gateway.Keys.Revoke.{in_subtree, revoke_row, revoke}
use kamu_llm_gateway.Keys.Revoke.Cascade.{revoke-cases}
use kamu_llm_gateway.Keys.Derive.{Env, DeriveRequest, is_recent, is_active_child, child_row, mint}
use kamu_llm_gateway.Keys.Derive.Outcomes.{Passes, mint-cases}
use kamu_llm_gateway.Poller.{flip_row, charge_spend, ingest_rows}
use kamu_llm_gateway.Admin.{AdminUser}
use kamu_llm_gateway.Admin.Keys.{
  top_level_row, admin_revoke_row, admin_cascade, post_form, post_json, revoke_form, revoke_json,
}
use kamu_llm_gateway.Admin.Keys.Mint.{with_top, post_form-writes, post_json-writes}
use kamu_llm_gateway.System.{
  World, Step, tick, post_key, revoke_key, check, mint_key, admin_form, admin_json,
  admin_revoke_form, admin_revoke_json, ingest, Reach, here, next,
}

module _ (env : Env) (p : ℕ) where
  -- The parent's sub-keys of the last minute, and those that are active, are within the limits.
  pub record IsCapped (now : ℕ) (keys : List Key) : Type 0 where
    pub slow : count_where (is_recent p now) keys ≤ env.subkey_derive_rate_per_min
    pub few : count_where (is_active_child p now) keys ≤ env.subkey_derive_max_active

  tick-IsCapped :
      (now later : ℕ) (keys : List Key) → now ≤ later → IsCapped now keys → IsCapped later keys
  tick-IsCapped now later keys le c =
      let slower =
        count_where_mono (is_recent p later) (is_recent p now) keys (λ k h. ground arith) in
      let fewer =
        count_where_mono (is_active_child p later) (is_active_child p now) keys
          (λ k h. ground arith) in
      record { slow = omega arith; few = omega arith }

  -- An update that makes no row young or active.
  update-IsCapped :
      (now : ℕ) (keys : List Key) (q : Key → Bool) (f : Key → Key)
      → ((k : Key) → is_recent p now (f k) ≡ true → is_recent p now k ≡ true)
      → ((k : Key) → is_active_child p now (f k) ≡ true → is_active_child p now k ≡ true)
      → IsCapped now keys
      → IsCapped now (update_where q f keys)
  update-IsCapped now keys q f h k c =
      let slower = count_where-update_where (is_recent p now) q f keys h in
      let fewer = count_where-update_where (is_active_child p now) q f keys k in
      record { slow = omega arith; few = omega arith }

  -- A top-level key is nobody's sub-key.
  new_key-IsCapped :
      (id now : ℕ) (user : Text) (g : Generated) (body : CreateBody) (r : CreateRequest)
      (keys : List Key)
      → IsCapped now keys
      → IsCapped now (new_key id now user g body r ∷ keys)
  unfolding new_key
  new_key-IsCapped id now user g body r keys c =
      let slow = c.slow in let few = c.few in record { slow = omega arith; few = omega arith }

  create-IsCapped :
      (id now : ℕ) (user : Text) (g : Generated) (body : CreateBody) (db : Db)
      → IsCapped now db.keys
      → IsCapped now (create id now user g body db).1.keys
  create-IsCapped id now user g body db c = elim (create-cases id now user g body db) [
    | inl same ↦ rw same c
    | inr (r, added) ↦ rw added (
        update-IsCapped now (new_key id now user g body r ∷ db.keys) (has_id id) (own_root now)
          (λ k h. h) (λ k h. h) (new_key-IsCapped id now user g body r db.keys c))
  ]

  revoke-IsCapped :
      (now : ℕ) (user : Text) (id : ℕ) (db : Db)
      → IsCapped now db.keys
      → IsCapped now (revoke now user id db).1.keys
  revoke-IsCapped now user id db c = elim (revoke-cases now user id db) [
    | inl (message, refused) ↦ rw refused c
    | inr (n, done) ↦ rw done (
        update-IsCapped now db.keys (in_subtree id) (revoke_row now user) (λ k h. h)
          (λ k h. ground arith) c)
  ]

  -- Nor is an operator's key.
  with_top-IsCapped :
      (id now : ℕ) (admin : AdminUser) (g : Generated) (db after : Db)
      → (after ≡ db)
        ⊎ ((team_id : ℕ) × (label : Text) × (budget : Option ℕ) × (after
              ≡ with_top id now admin g db team_id label budget))
      → IsCapped now db.keys
      → IsCapped now after.keys
  unfolding top_level_row
  with_top-IsCapped id now admin g db after (inl same) c = rw same c
  with_top-IsCapped id now admin g db after (inr (team_id, label, budget, added)) c =
      let row = top_level_row id now admin g team_id label budget in
      let slow = c.slow in
      let few = c.few in
      let cons : IsCapped now (row ∷ db.keys) = record { slow = omega arith; few = omega arith } in
      rw added
        (update-IsCapped now (row ∷ db.keys) (has_id id) (own_root now) (λ k h. h) (λ k h. h) cons)

  admin_revoke-IsCapped :
      (now : ℕ) (admin : AdminUser) (id : ℕ) (db : Db)
      → IsCapped now db.keys
      → IsCapped now (revoke_json now admin id db).1.keys
  unfolding revoke_json admin_cascade
  admin_revoke-IsCapped now admin id db c =
      update-IsCapped now db.keys (in_subtree id) (admin_revoke_row now admin) (λ k h. h)
        (λ k h. ground arith) c

  ingest-IsCapped :
      (now : ℕ) (rows : List UsageLogRow) (db : Db)
      → IsCapped now db.keys
      → IsCapped now (ingest_rows now rows db).1.keys
  unfolding ingest_rows charge_spend
  ingest-IsCapped now rows db c =
      update-IsCapped now db.keys _ (flip_row now) (λ k h. h) (λ k h. ground arith) c

  child_row-IsCapped :
      (id now : ℕ) (r : DeriveRequest) (keys : List Key)
      → Passes env id now r keys
      → IsCapped now keys
      → IsCapped now (child_row id now r ∷ keys)
  unfolding child_row
  child_row-IsCapped id now r keys passes c = elim (Bool-cases (p == r.parent.id)) [
    | inl same ↦
        let e : p ≡ r.parent.id = ground arith in
        let slow = rw (← e) at passes.slow in
        let few = rw (← e) at passes.few in record { slow = ground arith; few = ground arith }
    | inr other ↦
        let slow = c.slow in let few = c.few in record { slow = ground arith; few = ground arith }
  ]

  mint-IsCapped :
      (id now : ℕ) (r : DeriveRequest) (keys : List Key)
      → IsCapped now keys
      → IsCapped now (mint env id now r keys).1
  mint-IsCapped id now r keys c = elim (mint-cases env id now r keys) [
    | inl limited ↦ rw limited c
    | inr (inl full) ↦ rw full c
    | inr (inr passes) ↦ rw passes.inserts (child_row-IsCapped id now r keys passes c)
  ]

  module _ (hash : Text → Text) where
    Step-IsCapped :
        {w v : World} → Step hash env w v → IsCapped w.now w.db.keys → IsCapped v.now v.db.keys
    unfolding revoke_form revoke_json
    Step-IsCapped {w} (tick later le) c = tick-IsCapped w.now later w.db.keys le c
    Step-IsCapped {w} (post_key id user g body fresh) c =
        create-IsCapped id w.now user g body w.db c
    Step-IsCapped {w} (revoke_key user id) c = revoke-IsCapped w.now user id w.db c
    Step-IsCapped (check authorization body r passed) c = c
    Step-IsCapped {w} (mint_key id r m fresh) c = mint-IsCapped id w.now r w.db.keys c
    Step-IsCapped {w} (admin_form parse_number id admin g form fresh) c =
        with_top-IsCapped id w.now admin g w.db
          (post_form parse_number id w.now admin g form w.db).1
          (post_form-writes id w.now admin g w.db parse_number form) c
    Step-IsCapped {w} (admin_json id admin g body fresh) c =
        with_top-IsCapped id w.now admin g w.db (post_json id w.now admin g body w.db).1
          (post_json-writes id w.now admin g w.db body) c
    Step-IsCapped {w} (admin_revoke_form admin id) c = admin_revoke-IsCapped w.now admin id w.db c
    Step-IsCapped {w} (admin_revoke_json admin id) c = admin_revoke-IsCapped w.now admin id w.db c
    Step-IsCapped {w} (ingest rows) c = ingest-IsCapped w.now rows w.db c

    -- In every interleaving of requests, a parent whose sub-keys are within the limits keeps them
    -- within the limits: those made in the last minute number at most the rate limit, and those
    -- that are active and unexpired at most the limit on active sub-keys.
    pub Reach-IsCapped :
        {w v : World} → Reach hash env w v → IsCapped w.now w.db.keys → IsCapped v.now v.db.keys
    Reach-IsCapped here c = c
    Reach-IsCapped (next before step) c = Step-IsCapped step (Reach-IsCapped before c)

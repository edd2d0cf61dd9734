-- ===== src/System/Revocation.antt =====
-- A revoked key, and every key with it as root, stays refused in every interleaving.
use kamu_llm_gateway.Prelude.{
  ℕ, ◌≡◌, ◌≢◌, ◌⊎◌, refl, ◌∙◌, inl, inr, Bool, true, false, Option, some, List, ◌∷◌, arith, Text,
  In, ◌==◌, Bool-cases,
}
use kamu_llm_gateway.Types.{Key, revoked}
use kamu_llm_gateway.Http.{ok}
use kamu_llm_gateway.Database.{
  Db, UsageLogRow, has_id, has_key, update_where, any-update_where, In-update_where,
}
use kamu_llm_gateway.Credentials.{
  Generated, UsageScope, root_of, is_live, verify_gateway_credential,
}
use kamu_llm_gateway.Credentials.Liveness.{verify-IsAdmitted}
use kamu_llm_gateway.Keys.Create.{CreateBody, new_key, own_root, create}
use kamu_llm_gateway.Keys.Create.Outcomes.{create-cases}
use kamu_llm_gateway.Keys.Revoke.{in_subtree, revoke_row, revoke}
use kamu_llm_gateway.Keys.Revoke.Cascade.{revoke-cases, revoke_subtree}
use kamu_llm_gateway.Keys.Derive.{Env, DeriveRequest, child_row, mint}
use kamu_llm_gateway.Keys.Derive.Outcomes.{mint-cases}
use kamu_llm_gateway.Poller.{flip_row, charge_spend, ingest_rows}
use kamu_llm_gateway.Admin.{AdminUser}
use kamu_llm_gateway.Admin.Keys.{
  top_level_row, admin_revoke_row, admin_cascade, post_form, post_json, revoke_form, revoke_json,
}
use kamu_llm_gateway.Admin.Keys.Mint.{with_top, post_form-writes, post_json-writes}
use kamu_llm_gateway.System.{
  World, Step, tick, post_key, revoke_key, check, mint_key, admin_form, admin_json,
  admin_revoke_form, admin_revoke_json, ingest, Reach, here, next,
}

module _ (i : ℕ) where
  -- The key is in the table and every row with its id is revoked.
  pub record IsRevoked (keys : List Key) : Type 0 where
    pub known : has_key i keys ≡ true
    pub dead : (k : Key) → In k keys → k.id ≡ i → k.status ≡ revoked

  -- An update that keeps the ids and the revoked rows revoked.
  update-IsRevoked :
      (keys : List Key) (q : Key → Bool) (f : Key → Key)
      → ((k : Key) → (f k).id ≡ k.id)
      → ((k : Key) → q k ≡ true → k.status ≡ revoked → (f k).status ≡ revoked)
      → IsRevoked keys
      → IsRevoked (update_where q f keys)
  update-IsRevoked keys q f same_id dead r = record {
    known = any-update_where (has_id i) q f keys (λ k. rw (same_id k)) ∙ r.known;
    dead = λ k m e.
        let (old, there, updated) = In-update_where k q f keys m in
        elim (Bool-cases (q old)) [
          | inl hit ↦
              let u : k ≡ f old = rw hit at updated in
              let id_eq : old.id ≡ i = cc (u, e, same_id old) in
              cc (u, dead old hit (r.dead old there id_eq))
          | inr miss ↦
              let u : k ≡ old = rw miss at updated in
              let id_eq : old.id ≡ i = cc (u, e) in cc (u, r.dead old there id_eq)
        ];
  }

  -- A new row with a fresh id.
  cons-IsRevoked :
      (k : Key) (keys : List Key)
      → has_key k.id keys ≡ false
      → IsRevoked keys
      → IsRevoked (k ∷ keys)
  cons-IsRevoked k keys fresh r = record {
    known = elim (Bool-cases (k.id == i)) [ inl hit ↦ rw hit | inr miss ↦ rw (miss, r.known) ];
    dead = λ x m e. elim m [
      | inl first ↦
          let same : k.id ≡ i = cc (first, e) in
          let gone : has_key i keys ≡ false = rw same at fresh in cc (r.known, gone)
      | inr rest ↦ r.dead x rest e
    ];
  }

  create-IsRevoked :
      (id now : ℕ) (user : Text) (g : Generated) (body : CreateBody) (db : Db)
      → has_key id db.keys ≡ false
      → IsRevoked db.keys
      → IsRevoked (create id now user g body db).1.keys
  unfolding new_key
  create-IsRevoked id now user g body db fresh r = elim (create-cases id now user g body db) [
    | inl same ↦ rw same r
    | inr (request, added) ↦ rw added (
        update-IsRevoked (new_key id now user g body request ∷ db.keys) (has_id id) (own_root now)
          (λ k. refl) (λ k hit dead. dead)
          (cons-IsRevoked (new_key id now user g body request) db.keys fresh r))
  ]

  mint-IsRevoked :
      (env : Env) (id now : ℕ) (request : DeriveRequest) (keys : List Key)
      → has_key id keys ≡ false
      → IsRevoked keys
      → IsRevoked (mint env id now request keys).1
  unfolding child_row
  mint-IsRevoked env id now request keys fresh r = elim (mint-cases env id now request keys) [
    | inl limited ↦ rw limited r
    | inr (inl full) ↦ rw full r
    | inr (inr passes) ↦ rw passes.inserts (cons-IsRevoked (child_row id now request) keys fresh r)
  ]

  revoke-IsRevoked :
      (now : ℕ) (user : Text) (id : ℕ) (db : Db)
      → IsRevoked db.keys
      → IsRevoked (revoke now user id db).1.keys
  revoke-IsRevoked now user id db r = elim (revoke-cases now user id db) [
    | inl (message, refused) ↦ rw refused r
    | inr (n, done) ↦ rw done (
        update-IsRevoked db.keys (in_subtree id) (revoke_row now user) (λ k. refl)
          (λ k hit dead. refl) r)
  ]

  with_top-IsRevoked :
      (id now : ℕ) (admin : AdminUser) (g : Generated) (db after : Db)
      → has_key id db.keys ≡ false
      → (after ≡ db)
        ⊎ ((team_id : ℕ) × (label : Text) × (budget : Option ℕ) × (after
              ≡ with_top id now admin g db team_id label budget))
      → IsRevoked db.keys
      → IsRevoked after.keys
  unfolding top_level_row
  with_top-IsRevoked id now admin g db after fresh (inl same) r = rw same r
  with_top-IsRevoked id now admin g db after fresh (inr (team_id, label, budget, added)) r =
      let row = top_level_row id now admin g team_id label budget in
      rw added (
        update-IsRevoked (row ∷ db.keys) (has_id id) (own_root now) (λ k. refl) (λ k hit dead. dead)
          (cons-IsRevoked row db.keys fresh r))

  admin_revoke-IsRevoked :
      (now : ℕ) (admin : AdminUser) (id : ℕ) (db : Db)
      → IsRevoked db.keys
      → IsRevoked (revoke_json now admin id db).1.keys
  unfolding revoke_json admin_cascade
  admin_revoke-IsRevoked now admin id db r =
      update-IsRevoked db.keys (in_subtree id) (admin_revoke_row now admin) (λ k. refl)
        (λ k hit dead. refl) r

  ingest-IsRevoked :
      (now : ℕ) (rows : List UsageLogRow) (db : Db)
      → IsRevoked db.keys
      → IsRevoked (ingest_rows now rows db).1.keys
  unfolding ingest_rows charge_spend
  ingest-IsRevoked now rows db r =
      update-IsRevoked db.keys _ (flip_row now) (λ k. refl) (λ k hit dead. ground arith) r

  module _ (hash : Text → Text) (env : Env) where
    Step-IsRevoked : {w v : World} → Step hash env w v → IsRevoked w.db.keys → IsRevoked v.db.keys
    unfolding revoke_form revoke_json
    Step-IsRevoked (tick later le) r = r
    Step-IsRevoked {w} (post_key id user g body fresh) r =
        create-IsRevoked id w.now user g body w.db fresh r
    Step-IsRevoked {w} (revoke_key user id) r = revoke-IsRevoked w.now user id w.db r
    Step-IsRevoked (check authorization body request passed) r = r
    Step-IsRevoked {w} (mint_key id request m fresh) r =
        mint-IsRevoked env id w.now request w.db.keys fresh r
    Step-IsRevoked {w} (admin_form parse_number id admin g form fresh) r =
        with_top-IsRevoked id w.now admin g w.db
          (post_form parse_number id w.now admin g form w.db).1 fresh
          (post_form-writes id w.now admin g w.db parse_number form) r
    Step-IsRevoked {w} (admin_json id admin g body fresh) r =
        with_top-IsRevoked id w.now admin g w.db (post_json id w.now admin g body w.db).1 fresh
          (post_json-writes id w.now admin g w.db body) r
    Step-IsRevoked {w} (admin_revoke_form admin id) r = admin_revoke-IsRevoked w.now admin id w.db r
    Step-IsRevoked {w} (admin_revoke_json admin id) r = admin_revoke-IsRevoked w.now admin id w.db r
    Step-IsRevoked {w} (ingest rows) r = ingest-IsRevoked w.now rows w.db r

    Reach-IsRevoked : {w v : World} → Reach hash env w v → IsRevoked w.db.keys → IsRevoked v.db.keys
    Reach-IsRevoked here r = r
    Reach-IsRevoked (next before step) r = Step-IsRevoked step (Reach-IsRevoked before r)

  -- A revoked row is not live.
  dead_row :
      (now : ℕ) (keys : List Key) (k : Key)
      → IsRevoked keys
      → In k keys
      → is_live now k ≡ true
      → k.id ≢ i
  dead_row now keys k r m live e = let dead = r.dead k m e in ground arith

  revoked_for_ever :
      (hash : Text → Text) (env : Env) (verify_jwt : Text → Option (Option ℕ)) {w v : World}
      → Reach hash env w v
      → IsRevoked w.db.keys
      → (presented : Text) (scope : UsageScope)
      → verify_gateway_credential hash verify_jwt v.db.keys v.now presented ≡ some scope
      → (k : Key) × In k v.db.keys × (scope.key_id ≡ k.id) × (k.id ≢ i) × (root_of k ≢ i)
  revoked_for_ever hash env verify_jwt {w} {v} run r presented scope e =
      let a = verify-IsAdmitted v.db.keys v.now hash verify_jwt presented scope e in
      let later = Reach-IsRevoked hash env run r in
      (
        a.key,
        a.stored,
        a.same_id,
        dead_row v.now v.db.keys a.key later a.stored a.live,
        λ root. dead_row v.now v.db.keys a.root later a.root_stored a.root_live (a.root_id ∙ root),
      )

  revoke_now_IsRevoked :
      (now n : ℕ) (user : Text) (db : Db)
      → has_key i db.keys ≡ true
      → (revoke now user i db).0 ≡ ok n
      → IsRevoked (revoke now user i db).1.keys
  revoke_now_IsRevoked now n user db known done = record {
    known = elim (revoke-cases now user i db) [
      | inl (message, refused) ↦ rw refused known
      | inr (m, cascade) ↦ rw cascade (
          any-update_where (has_id i) (in_subtree i) (revoke_row now user) db.keys (λ k. refl)
          ∙ known)
    ];
    dead = λ k m e. revoke_subtree now user i db n k done m (ground (arith, e));
  }

  -- Once a key of the table has been revoked, no credential is ever accepted for it again, nor for
  -- a key with it as root, whatever requests follow and however they interleave: those included
  -- that were checked before the revocation and insert a sub-key after it.
  pub revocation_is_final :
      (hash : Text → Text) (env : Env) (verify_jwt : Text → Option (Option ℕ)) (user : Text) (n : ℕ)
      (w v : World)
      → has_key i w.db.keys ≡ true
      → (revoke w.now user i w.db).0 ≡ ok n
      → Reach hash env (record w { db = (revoke w.now user i w.db).1 }) v
      → (presented : Text) (scope : UsageScope)
      → verify_gateway_credential hash verify_jwt v.db.keys v.now presented ≡ some scope
      → (k : Key) × In k v.db.keys × (scope.key_id ≡ k.id) × (k.id ≢ i) × (root_of k ≢ i)
  revocation_is_final hash env verify_jwt user n w v known done run presented scope e =
      revoked_for_ever hash env verify_jwt run (revoke_now_IsRevoked w.now n user w.db known done)
        presented scope e

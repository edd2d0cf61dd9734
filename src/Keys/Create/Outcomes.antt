-- ===== src/Keys/Create/Outcomes.antt =====
-- What a create writes: nothing, or one row that is its own root.
use kamu_llm_gateway.Prelude.{
  ℕ, ◌≡◌, ◌⊎◌, inl, inr, refl, sym, ap, ◌∙◌, ◌∷◌, Option, some, true, find, not, subst, is_empty,
  Text, Bool-cases,
}
use kamu_llm_gateway.Http.{ok, Reply-cases, ok-injective, require-then, some_or-then, >>=-eq-ok}
use kamu_llm_gateway.Types.{Team}
use kamu_llm_gateway.Database.{Db, is_team, has_id, in_user_teams, update_where}
use kamu_llm_gateway.Credentials.{Generated}
use kamu_llm_gateway.Keys.Create.{
  CreateBody, Created, CreateRequest, check_create, new_key, own_root, insert_created, create,
  create_models, trimmed, org_of_team, team_org_id_from_create,
}

module _ (id now : ℕ) (user : Text) (g : Generated) (body : CreateBody) (db : Db) where
  abbrev pub with_row : CreateRequest → Db
  with_row r = record db {
    keys = update_where (has_id id) (own_root now) (new_key id now user g body r ∷ db.keys);
  }

  insert_created-cases :
      (r : CreateRequest)
      → ((insert_created id now user g body r db).1 ≡ db)
        ⊎ ((insert_created id now user g body r db).1 ≡ with_row r)
  unfolding insert_created
  insert_created-cases r = elim (Bool-cases (in_user_teams user r.team_id db.team_members)) [
    | inl member ↦ inr (rw member)
    | inr stranger ↦ inl (rw stranger)
  ]

  pub create-cases :
      ((create id now user g body db).1 ≡ db)
      ⊎ ((r : CreateRequest) × ((create id now user g body db).1 ≡ with_row r))
  unfolding create
  create-cases = elim (Reply-cases (check_create db body)) [
    | inr (status, message, refused) ↦ inl (rw (refused, create))
    | inl (r, passed) ↦ elim (insert_created-cases r) [
      | inl same ↦ inl (rw (passed, create) same)
      | inr added ↦ inr (r, rw (passed, create) added)
    ]
  ]

  -- A create that succeeds returns the secret and writes the row.
  pub create_ok :
      (c : Created)
      → (create id now user g body db).0 ≡ ok c
      → (c.secret ≡ g.secret)
        × ((r : CreateRequest) × ((create id now user g body db).1 ≡ with_row r))
  unfolding create insert_created
  create_ok c e = elim (Reply-cases (check_create db body)) [
    | inr (status, message, refused) ↦ cc (rw (refused, create) at e)
    | inl (r, passed) ↦ elim (Bool-cases (in_user_teams user r.team_id db.team_members)) [
      | inl member ↦ (
        ap (λ (x : Created). x.secret) (sym (ok-injective (rw (passed, create, member) at e))),
        (r, rw (passed, create, member) refl),
      )
      | inr stranger ↦ cc (rw (passed, create, stranger) at e)
    ]
  ]

  -- The row of a create that succeeds, and the checks that it has passed.
  pub record IsCreated (c : Created) : Type 0 where
    pub request : CreateRequest
    pub checked : check_create db body ≡ ok request
    pub member : in_user_teams user request.team_id db.team_members ≡ true
    pub row : c.key ≡ record (new_key id now user g body request) { root_key_id = some id }

  pub create-IsCreated : (c : Created) → (create id now user g body db).0 ≡ ok c → IsCreated c
  unfolding create insert_created
  create-IsCreated c e = elim (Reply-cases (check_create db body)) [
    | inr (status, message, refused) ↦ absurd (cc (rw (refused, create) at e))
    | inl (r, passed) ↦ elim (Bool-cases (in_user_teams user r.team_id db.team_members)) [
      | inl member ↦ record {
        request = r;
        checked = passed;
        member = member;
        row = ap (λ (x : Created). x.key) (sym (ok-injective (rw (passed, create, member) at e)));
      }
      | inr stranger ↦ absurd (cc (rw (passed, create, stranger) at e))
    ]
  ]

-- The team of a request that has passed the checks.
pub check_create-team :
    (db : Db) (body : CreateBody) (r : CreateRequest)
    → check_create db body ≡ ok r
    → (t : Team) × (body.team_id ≡ some r.team_id) × (find (is_team r.team_id) db.teams ≡ some t)
unfolding check_create
check_create-team db body r e =
    let (i, given, e₁) = some_or-then body.team_id 400 _ _ e in
    let (_, e₂) = require-then (not (is_empty (trimmed body.label))) 400 _ _ e₁ in
    let (models, _, e₃) = >>=-eq-ok (create_models body.models) _ e₂ in
    let (t, found, e₄) = some_or-then (find (is_team i) db.teams) 404 _ _ e₃ in
    let same : i ≡ r.team_id = ap (λ (x : CreateRequest). x.team_id) (ok-injective e₄) in
    (
      t,
      subst (λ (j : ℕ). body.team_id ≡ some j) same given,
      subst (λ (j : ℕ). find (is_team j) db.teams ≡ some t) same found,
    )

-- The organization that the grant check of a create is about is that of the team.
pub team_org_id_of_team :
    (db : Db) (asked : Option ℕ) (i : ℕ) (t : Team)
    → asked ≡ some i
    → find (is_team i) db.teams ≡ some t
    → team_org_id_from_create db asked ≡ some t.kamuid_org_id
unfolding team_org_id_from_create
team_org_id_of_team db asked i t given found =
    ap (team_org_id_from_create db) given ∙ ap org_of_team found

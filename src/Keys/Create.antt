-- ===== src/Keys/Create.antt =====
-- POST /keys and the lookups of the two grant checks.
pub mod Outcomes
pub mod Secret
use kamu_llm_gateway.Prelude.{
  ℕ, Bool, true, false, not, Option, none, some, List, [], ◌∷◌, Text, codes, is_empty, trim, find,
  if◌then◌else◌,
}
use kamu_llm_gateway.Http.{Reply, ok, err, ◌>>=◌, ◌>>◌, require, some_or}
use kamu_llm_gateway.Types.{Team, Key, active, top}
use kamu_llm_gateway.Database.{Db, find_key, is_team, in_user_teams, update_where, has_id}
use kamu_llm_gateway.Credentials.{Generated}
use kamu_llm_gateway.Keys.{ModelsField, absent, strings, ill_typed, star}

org_of_team : Option Team → Option Text
org_of_team none = none
org_of_team (some t) = some t.kamuid_org_id

-- `teamOrgIdFromCreate`, on the `team_id` of the body, `none` where it is missing or empty.
unfoldable pub team_org_id_from_create : Db → Option ℕ → Option Text
unfolding org_of_team
team_org_id_from_create db none = none
team_org_id_from_create db (some i) = org_of_team (find (is_team i) db.teams)

org_of_key : Db → Option Key → Option Text
unfolding org_of_team
org_of_key db none = none
org_of_key db (some k) = org_of_team (find (is_team k.team_id) db.teams)

unfoldable pub team_org_id_from_key : Db → ℕ → Option Text
unfolding org_of_key
team_org_id_from_key db i = org_of_key db (find_key i db.keys)

pub record CreateBody : Type 0 where
  pub team_id : Option ℕ
  pub label : Option Text
  pub models : ModelsField
  pub budget_usd : Option ℕ
  pub expires_at : Option ℕ
  pub metadata : Option Text

pub record Created : Type 0 where
  pub key : Key
  pub secret : Text

-- `body.models ?? ["*"]`, if it is an array of strings.
unfoldable pub create_models : ModelsField → Reply (List Text)
create_models absent = ok (star ∷ [])
create_models (strings models) = ok models
create_models ill_typed = err 400 (codes "models must be a string array")

trimmed : Option Text → Text
trimmed none = []
trimmed (some t) = trim t

-- The checks before the key is generated: the team, the label and the models.
pub record CreateRequest : Type 0 where
  pub team_id : ℕ
  pub label : Text
  pub models : List Text

unfoldable pub check_create : Db → CreateBody → Reply CreateRequest
unfolding create_models trimmed
check_create db body = do
  team_id ← some_or body.team_id 400 (codes "team_id is required")
  require (not (is_empty (trimmed body.label))) 400 (codes "label is required")
  models ← create_models body.models
  team ← some_or (find (is_team team_id) db.teams) 404 (codes "team not found")
  ok (record { team_id = team_id; label = trimmed body.label; models = models })

-- The inserted row, before its root is set. The id is the database's, and `now` its clock.
unfoldable pub new_key : ℕ → ℕ → Text → Generated → CreateBody → CreateRequest → Key
new_key id now user g body r = record {
  id = id;
  team_id = r.team_id;
  label = r.label;
  created_by = some user;
  created_at = now;
  models = r.models;
  budget_usd = body.budget_usd;
  status = active;
  revoked_at = none;
  revoked_by = none;
  key_type = top;
  key_hash = some g.hash;
  prefix = some g.prefix;
  parent_key_id = none;
  root_key_id = none;
  expires_at = body.expires_at;
  constraints = none;
  metadata = body.metadata;
  updated_at = now;
}

-- `UPDATE llm.keys SET root_key_id = id, updated_at = now() WHERE id = ${row.id}`
abbrev pub own_root : ℕ → Key → Key
own_root now k = record k { root_key_id = some k.id; updated_at = now }

-- The insert runs as the user, and the row-level security refuses a team that is not one of the
-- user's: the exception is answered with 500.
insert_created : ℕ → ℕ → Text → Generated → CreateBody → CreateRequest → Db → Reply Created × Db
insert_created id now user g body r db =
    let row = new_key id now user g body r in
    let keys = update_where (has_id id) (own_root now) (row ∷ db.keys) in
    if in_user_teams user r.team_id db.team_members
    then (
      ok (record { key = record row { root_key_id = some id }; secret = g.secret }),
      record db { keys = keys },
    )
    else (err 500 (codes "new row violates row-level security policy for table \"keys\""), db)

unfoldable pub create : ℕ → ℕ → Text → Generated → CreateBody → Db → Reply Created × Db
unfolding insert_created
create id now user g body db = elim (check_create db body) [
  | err status message ↦ (err status message, db)
  | ok r ↦ insert_created id now user g body r db
]

-- ===== src/Admin/Keys.antt =====
-- admin/src/routes/keys.tsx: an operator mints top-level keys in any team and revokes any key, by a
-- form or by JSON. Ids are the database's, `now` is its clock, and `g` the key that
-- generateTopLevelKey of admin/src/lib/keys.ts has made.
pub mod Mint
pub mod Revoke
use kamu_llm_gateway.Prelude.{
  ℕ, Bool, true, false, not, ◌&&◌, ◌||◌, Option, none, some, List, [], ◌∷◌, ◌++◌, Text, codes,
  is_empty, leb, sort_by, trim, find, take, count_where, leb, sort_by, ◌==◌, if◌then◌else◌,
}
use kamu_llm_gateway.Http.{Reply, ok, err, or_blank}
use kamu_llm_gateway.Types.{Key, KeyType, KeyStatus, Team, active, top, revoked}
use kamu_llm_gateway.Database.{Db, has_id, is_id, is_team, update_where}
use kamu_llm_gateway.Credentials.{Generated, hex_bytes}
use kamu_llm_gateway.Keys.{star}
use kamu_llm_gateway.Keys.Create.{own_root}
use kamu_llm_gateway.Keys.Revoke.{in_subtree}
use kamu_llm_gateway.Keys.Read.{join_teams}
use kamu_llm_gateway.Admin.{AdminUser, admin_name}

module _ (encode : Text → List ℕ) (sha256 : List ℕ → List ℕ) where
  -- `hashKey` and `generateTopLevelKey`, which admin/ has copies of.
  unfoldable pub admin_hash_key : Text → Text
  admin_hash_key secret = hex_bytes (sha256 (encode secret))

  unfoldable pub admin_generate_top_level_key : List ℕ → Generated
  admin_generate_top_level_key bytes =
      let secret = codes "sk_live_" ++ hex_bytes bytes in
      record { secret = secret; hash = admin_hash_key secret; prefix = take 12 secret }

unfoldable pub top_level_row : ℕ → ℕ → AdminUser → Generated → ℕ → Text → Option ℕ → Key
top_level_row id now admin g team_id label budget = record {
  id = id;
  team_id = team_id;
  label = label;
  created_by = some (admin_name admin);
  created_at = now;
  models = star ∷ [];
  budget_usd = budget;
  status = active;
  revoked_at = none;
  revoked_by = none;
  key_type = top;
  key_hash = some g.hash;
  prefix = some g.prefix;
  parent_key_id = none;
  root_key_id = none;
  expires_at = none;
  constraints = none;
  metadata = none;
  updated_at = now;
}

-- The two statements of a mint. The insert throws where no team has the id.
unfoldable pub insert_top :
    ℕ → ℕ → AdminUser → Generated → ℕ → Text → Option ℕ → Db → Reply Generated × Db
unfolding top_level_row
insert_top id now admin g team_id label budget db = elim (find (is_team team_id) db.teams) [
  | none ↦ (err 500 (codes "violates foreign key constraint \"keys_team_id_fkey\""), db)
  | some _ ↦ (
    ok g,
    record db {
      keys =
          update_where (has_id id) (own_root now)
            (top_level_row id now admin g team_id label budget ∷ db.keys);
    },
  )
]

-- `listKeys` and `listTeams`: every organisation's, with no row-level security.
pub record KeyRow : Type 0 where
  pub id : ℕ
  pub team_id : ℕ
  pub org : Text
  pub label : Text
  pub prefix : Option Text
  pub key_type : KeyType
  pub status : KeyStatus
  pub models : List Text
  pub budget_usd : Option ℕ
  pub created_at : ℕ
  pub revoked_at : Option ℕ

unfoldable pub to_key_row : Key → Team → KeyRow
to_key_row k t = record {
  id = k.id;
  team_id = k.team_id;
  org = t.kamuid_org_id;
  label = k.label;
  prefix = k.prefix;
  key_type = k.key_type;
  status = k.status;
  models = k.models;
  budget_usd = k.budget_usd;
  created_at = k.created_at;
  revoked_at = k.revoked_at;
}

unfoldable pub list_all_keys : Db → List KeyRow
unfolding to_key_row join_teams
list_all_keys db =
    sort_by (λ r s. leb s.created_at r.created_at)
      (join_teams to_key_row (λ k. find (is_team k.team_id) db.teams) db.keys)

-- `collate_le` is the database's order of texts.
unfoldable pub list_all_teams : (Text → Text → Bool) → Db → List Team
list_all_teams collate_le db = sort_by (λ s t. collate_le s.name t.name) db.teams

-- Where the page goes after a form.
pub data Redirect : Type 0 where
  to_keys : Redirect
  with_secret with_error : Text → Redirect

pub record MintForm : Type 0 where
  pub team_id : Option ℕ
  pub label : Option Text
  pub budget_usd : Option Text

secret_page : Reply Generated × Db → Reply Redirect × Db
secret_page (ok g, db) = (ok (with_secret g.secret), db)
secret_page (err status message, db) = (err status message, db)

-- `budget !== null && !Number.isFinite(budget)`, where `parse_number` gives a finite `Number`.
read_budget : (Text → Option ℕ) → Text → Option (Option ℕ)
read_budget parse_number raw =
    if is_empty raw
    then some none
    else elim (parse_number raw) [ none ↦ none | some n ↦ some (some n) ]

unfoldable pub post_form :
    (Text → Option ℕ) → ℕ → ℕ → AdminUser → Generated → MintForm → Db → Reply Redirect × Db
unfolding secret_page read_budget
post_form parse_number id now admin g form db =
    let label = trim (or_blank form.label) in
    elim form.team_id [
      | none ↦ (ok (with_error (codes "team_id and label are required")), db)
      | some team_id ↦
          if is_empty label
          then (ok (with_error (codes "team_id and label are required")), db)
          else elim (read_budget parse_number (trim (or_blank form.budget_usd))) [
            | none ↦ (ok (with_error (codes "budget_usd must be a number")), db)
            | some budget ↦ secret_page (insert_top id now admin g team_id label budget db)
          ]
    ]

pub record MintBody : Type 0 where
  pub team_id : Option ℕ
  pub label : Option Text
  pub budget_usd : Option ℕ

pub record MintedKey : Type 0 where
  pub id : ℕ
  pub prefix : Text
  pub secret : Text

minted_reply : ℕ → Reply Generated × Db → Reply MintedKey × Db
minted_reply id (ok g, db) = (ok (record { id = id; prefix = g.prefix; secret = g.secret }), db)
minted_reply id (err status message, db) = (err status message, db)

unfoldable pub post_json : ℕ → ℕ → AdminUser → Generated → MintBody → Db → Reply MintedKey × Db
unfolding minted_reply
post_json id now admin g body db =
    let label = or_blank body.label in
    elim body.team_id [
      | none ↦ (err 400 (codes "team_id and label are required"), db)
      | some team_id ↦
          if is_empty label
          then (err 400 (codes "team_id and label are required"), db)
          else minted_reply id (insert_top id now admin g team_id label body.budget_usd db)
    ]

abbrev pub admin_revoke_row : ℕ → AdminUser → Key → Key
admin_revoke_row now admin k = record k {
  status = revoked;
  revoked_at = some now;
  revoked_by = some (admin_name admin);
  updated_at = now;
}

-- The update, and the number of rows that it has changed.
unfoldable pub admin_cascade : ℕ → AdminUser → ℕ → Db → ℕ × Db
admin_cascade now admin id db = (
  count_where (in_subtree id) db.keys,
  record db { keys = update_where (in_subtree id) (admin_revoke_row now admin) db.keys },
)

unfoldable pub revoke_form : ℕ → AdminUser → ℕ → Db → Redirect × Db
unfolding admin_cascade
revoke_form now admin id db =
    let result = admin_cascade now admin id db in
    (if result.0 == 0 then with_error (codes "key not found") else to_keys, result.1)

unfoldable pub revoke_json : ℕ → AdminUser → ℕ → Db → Reply ℕ × Db
unfolding admin_cascade
revoke_json now admin id db =
    let result = admin_cascade now admin id db in
    (if result.0 == 0 then err 404 (codes "key not found") else ok result.0, result.1)

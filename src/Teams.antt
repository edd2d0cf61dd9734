-- ===== src/Teams.antt =====
-- api/src/lib/kamuid-sync.ts: the organizations claim, and the teams and memberships that follow it.
-- `parse_json` is JSON.parse on the claim's text, and `new_id` the id that the database gives a new
-- team.
pub mod Reconcile
pub mod Decode
use kamu_llm_gateway.Prelude.{
  ℕ, Bool, true, false, not, ◌&&◌, ◌||◌, Option, none, some, List, [], ◌∷◌, ◌++◌, Text, codes,
  text_eq, any, select, map, ◌==◌, if◌then◌else◌,
}
use kamu_llm_gateway.Types.{Role, owner, admin, member, Team, OrgClaim}
use kamu_llm_gateway.Database.{Db, TeamMember}

-- An entry of the claim: `none` for a field that is not a string.
pub record OrgEntry : Type 0 where
  pub id : Option Text
  pub slug : Option Text
  pub name : Option Text
  pub role : Option Text

-- A JSON value, as far as the claim is read: an entry that is no object is `none`.
pub data Claim : Type 0 where
  string : Text → Claim
  array : List (Option OrgEntry) → Claim
  other : Claim

abbrev is_text : Text → Option Text → Bool
is_text t none = false
is_text t (some s) = text_eq s t

norm_role : Option Text → Role
norm_role r =
    if is_text (codes "owner") r then owner else if is_text (codes "admin") r then admin else member

org_of : Option OrgEntry → List OrgClaim
unfolding norm_role
org_of none = []
org_of (some e) = elim e.id [
  | none ↦ []
  | some id ↦ elim e.slug [
    | none ↦ []
    | some slug ↦
        record {
          id = id;
          slug = slug;
          name = elim e.name [ none ↦ slug | some n ↦ n ];
          role = norm_role e.role;
        }
        ∷ []
  ]
]

orgs_of : List (Option OrgEntry) → List OrgClaim
unfolding org_of
orgs_of [] = []
orgs_of (e ∷ es) = org_of e ++ orgs_of es

-- What the claim is after JSON.parse; a text that does not parse gives no organization.
array_of : Option Claim → List OrgClaim
unfolding orgs_of
array_of (some (array es)) = orgs_of es
array_of _ = []

unfoldable pub parse_orgs : (Text → Option Claim) → Claim → List OrgClaim
unfolding array_of
parse_orgs parse_json (string t) = array_of (parse_json t)
parse_orgs parse_json claim = array_of (some claim)

-- `INSERT INTO llm.teams … ON CONFLICT (kamuid_org_id) DO UPDATE … RETURNING id`
unfoldable pub upsert_team : ℕ → ℕ → OrgClaim → List Team → ℕ × List Team
upsert_team now id org [] = (
  id,
  record {
    id = id;
    name = org.name;
    slug = org.slug;
    kamuid_org_id = org.id;
    created_at = now;
    updated_at = now;
  }
      ∷ [],
)
upsert_team now id org (t ∷ teams) =
    let rest = upsert_team now id org teams in
    if text_eq t.kamuid_org_id org.id
    then (t.id, record t { name = org.name; slug = org.slug; updated_at = now } ∷ teams)
    else (rest.0, t ∷ rest.1)

abbrev pub is_member : Text → ℕ → TeamMember → Bool
is_member user team m = text_eq m.user_id user && m.team_id == team

-- `INSERT INTO llm.team_members … ON CONFLICT (team_id, user_id) DO UPDATE SET role`
unfoldable pub upsert_member : ℕ → Text → Role → List TeamMember → List TeamMember
upsert_member team user role [] = record { team_id = team; user_id = user; role = role } ∷ []
upsert_member team user role (m ∷ members) =
    let rest = upsert_member team user role members in
    if is_member user team m then record m { role = role } ∷ members else m ∷ rest

-- `team_id <> ALL(team_ids)`, for the rows of the user; without ids the user's rows all go.
unfoldable pub drop_memberships : Text → List ℕ → List TeamMember → List TeamMember
drop_memberships user ids members =
    select (λ m. not (text_eq m.user_id user && not (any (λ i. i == m.team_id) ids))) members

module _ (new_id : List Team → ℕ) where
  -- The loop over the organizations, which the two functions share: the ids of their teams.
  unfoldable pub sync_orgs : ℕ → Text → List OrgClaim → Db → List ℕ × Db
  sync_orgs now user [] db = ([], db)
  sync_orgs now user (org ∷ orgs) db =
      let (id, teams) = upsert_team now (new_id db.teams) org db.teams in
      let members = upsert_member id user org.role db.team_members in
      let rest = sync_orgs now user orgs (record db { teams = teams; team_members = members }) in
      (id ∷ rest.0, rest.1)

  unfoldable pub ensure_teams : ℕ → Text → List OrgClaim → Db → Db
  ensure_teams now user orgs db = (sync_orgs now user orgs db).1

  unfoldable pub reconcile_teams : ℕ → Text → List OrgClaim → Db → Db
  reconcile_teams now user orgs db =
      let (ids, synced) = sync_orgs now user orgs db in
      record synced { team_members = drop_memberships user ids synced.team_members }

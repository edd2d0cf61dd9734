-- ===== src/Access/Routes.antt =====
-- POST /keys and POST /keys/:id/revoke from the headers to the tables: which signed context, which
-- grant and which membership stand behind a write.
use kamu_llm_gateway.Prelude.{
  ℕ, false, none, map, ◌||◌, ◌==◌, if◌then◌else◌, ◌≡◌, sym, ap, ◌∙◌, true, Option, some, List, Text,
  codes, In, find-eq-some, ==_iff, subst,
}
use kamu_llm_gateway.Http.{ok}
use kamu_llm_gateway.Types.{Team, Key, revoked}
use kamu_llm_gateway.Database.{Db, is_team, in_user_teams}
use kamu_llm_gateway.Credentials.{Generated}
use kamu_llm_gateway.Platform.{
  Jwk, Imported, KeySource, Payload, PlatformEnv, verify_platform_context,
}
use kamu_llm_gateway.Platform.Trust.{IsTrusted, IsFaithful, verify_platform_context-IsTrusted}
use kamu_llm_gateway.Auth.{UserInfo, Context, Session}
use kamu_llm_gateway.Auth.Admission.{IsSane}
use kamu_llm_gateway.Auth.Writes.{IsTeamWrite}
use kamu_llm_gateway.Keys.Create.{
  CreateBody, Created, new_key, create, team_org_id_from_create, team_org_id_from_key,
}
use kamu_llm_gateway.Keys.Create.Outcomes.{create-IsCreated, check_create-team, team_org_id_of_team}
use kamu_llm_gateway.Access.{Headers, post_keys}
use kamu_llm_gateway.Access.Granted.{IsAuthorized, after_auth, guarded_ok}

-- The key with the id, and a key with it as root, revoked; any other key as it is.
abbrev pub withdrawn : ℕ → ℕ → Text → Key → Key
withdrawn id now user k =
    if k.id == id || elim k.root_key_id [ none ↦ false | some root ↦ id == root ]
    then record k {
      status = revoked;
      revoked_at = some now;
      revoked_by = some user;
      updated_at = now;
    }
    else k

module _ {VerifyKey : Type 0} (parse_json : Text → Option Jwk)
    (import_jwk : Jwk → Option (Imported VerifyKey))
    (jwt_verify : Text → KeySource VerifyKey → Option (Payload Context)) (env : PlatformEnv)
    (cached : Option VerifyKey) where
  -- `verifyPlatformContext` with the copy of the dev key that is kept.
  abbrev pub verify : Text → Option Context
  verify t = (verify_platform_context parse_json import_jwk jwt_verify env t cached).0

  -- A permission that a context signed under a configured key gives its own subject.
  pub record IsEntitled (permission : Text) (org_id : Option Text) (user : Text) : Type 0 where
    pub authorized : IsAuthorized verify permission org_id user
    pub trusted : IsTrusted parse_json import_jwk jwt_verify env authorized.token authorized.context

  -- A key made for the user, in a team of the user's whose organization has granted it.
  pub record IsPosted (db : Db) (created : Created) : Type 0 where
    pub user : Text
    pub team : Team
    pub entitled : IsEntitled (codes "llm.keys.create") (some team.kamuid_org_id) user
    pub stored : In team db.teams
    pub of_team : created.key.team_id ≡ team.id
    pub member : in_user_teams user team.id db.team_members ≡ true
    pub author : created.key.created_by ≡ some user

  -- A key revoked for the user, who sees it and whose organization has granted it. `before` are the
  -- tables of the request, `db` those that the middleware leaves, and `after` those of the reply.
  pub record IsWithdrawn (id now : ℕ) (before db after : Db) : Type 0 where
    pub synchronised : IsTeamWrite before db
    pub user : Text
    pub entitled : IsEntitled (codes "llm.keys.revoke") (team_org_id_from_key db id) user
    pub key : Key
    pub stored : In key db.keys
    pub same_id : key.id ≡ id
    pub member : in_user_teams user key.team_id db.team_members ≡ true
    pub written : after ≡ record db { keys = map (withdrawn id now user) db.keys }

  module _ (faithful : IsFaithful parse_json import_jwk jwt_verify env cached)
      (new_id : List Team → ℕ) (user_info : Text → Option UserInfo) (now : ℕ) (h : Headers)
      (s : Session) (sane : IsSane s.cache) where
    entitle :
        (permission : Text) (org_id : Option Text) (user : Text)
        → IsAuthorized verify permission org_id user
        → IsEntitled permission org_id user
    entitle permission org_id user a = record {
      authorized = a;
      trusted =
          (verify_platform_context-IsTrusted parse_json import_jwk jwt_verify env a.token cached
            a.context faithful a.verified).0;
    }

    -- With a sane cache and a kept dev key that is the configured one: where POST /keys succeeds,
    -- the user is the subject of a platform context that was signed under a key of the
    -- configuration, the organization of the team has given llm.keys.create there, the team is one
    -- of the user's, and the key is made in that team and by that user.
    pub post_keys-IsPosted :
        (id : ℕ) (g : Generated) (body : CreateBody) (created : Created)
        → (post_keys new_id verify user_info now id g body h s).0 ≡ ok created
        → IsPosted (after_auth new_id verify user_info now h s).db created
    unfolding post_keys new_key
    post_keys-IsPosted id g body created e =
        let db = (after_auth new_id verify user_info now h s).db in
        let (user, a, made, _) =
          guarded_ok new_id verify user_info now h s (codes "llm.keys.create")
            (λ db. team_org_id_from_create db body.team_id) (λ u db. create id now u g body db)
            created sane e in
        let c = create-IsCreated id now user g body db created made in
        let (team, given, found) = check_create-team db body c.request c.checked in
        let (stored, same) = find-eq-some (is_team c.request.team_id) db.teams found in
        let team_id : team.id ≡ c.request.team_id = (==_iff team.id c.request.team_id).0 same in
        let org : team_org_id_from_create db body.team_id ≡ some team.kamuid_org_id =
          team_org_id_of_team db body.team_id c.request.team_id team given found in
        record {
          user = user;
          team = team;
          entitled = entitle (codes "llm.keys.create") (some team.kamuid_org_id) user (
              subst (λ (o : Option Text). IsAuthorized verify (codes "llm.keys.create") o user) org
                a);
          stored = stored;
          of_team = ap (λ (k : Key). k.team_id) c.row ∙ sym team_id;
          member =
              subst (λ (i : ℕ). in_user_teams user i db.team_members ≡ true) (sym team_id) c.member;
          author = ap (λ (k : Key). k.created_by) c.row;
        }

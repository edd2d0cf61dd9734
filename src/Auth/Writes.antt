-- ===== src/Auth/Writes.antt =====
-- Which tables the middleware writes to: the teams and their members, and no other.
use kamu_llm_gateway.Prelude.{
  ℕ, ◌≡◌, refl, inl, inr, Option, none, some, List, [], ◌∷◌, Text, is_empty, text_eq, ltb,
  Bool-cases,
}
use kamu_llm_gateway.Prelude.Maps.{get}
use kamu_llm_gateway.Http.{Reply-cases, bearer_token}
use kamu_llm_gateway.Types.{Team, OrgClaim}
use kamu_llm_gateway.Database.{Db}
use kamu_llm_gateway.Teams.{upsert_team, upsert_member, sync_orgs, ensure_teams, reconcile_teams}
use kamu_llm_gateway.Auth.{
  UserInfo, Context, Hit, Session, by_access_key, check_info, resync, by_user_info, by_hit,
  by_identity, by_context, by_token, unauthorized, auth_middleware,
}

-- The other tables are as they were.
pub record IsTeamWrite (db after : Db) : Type 0 where
  pub keys : after.keys ≡ db.keys
  pub usage_log : after.usage_log ≡ db.usage_log
  pub key_spend : after.key_spend ≡ db.key_spend
  pub model_prices : after.model_prices ≡ db.model_prices

same-IsTeamWrite : (db : Db) → IsTeamWrite db db
same-IsTeamWrite db = record {
  keys = refl;
  usage_log = refl;
  key_spend = refl;
  model_prices = refl;
}

module _ (new_id : List Team → ℕ) where
  sync_orgs-IsTeamWrite :
      (now : ℕ) (user : Text) (orgs : List OrgClaim) (db : Db)
      → IsTeamWrite db (sync_orgs new_id now user orgs db).1
  unfolding sync_orgs
  sync_orgs-IsTeamWrite now user [] db = same-IsTeamWrite db
  sync_orgs-IsTeamWrite now user (org ∷ orgs) db =
      let (id, teams) = upsert_team now (new_id db.teams) org db.teams in
      let rest = sync_orgs-IsTeamWrite now user orgs (record db {
        teams = teams;
        team_members = upsert_member id user org.role db.team_members;
      }) in
      record {
        keys = rest.keys;
        usage_log = rest.usage_log;
        key_spend = rest.key_spend;
        model_prices = rest.model_prices;
      }

  reconcile_teams-IsTeamWrite :
      (now : ℕ) (user : Text) (orgs : List OrgClaim) (db : Db)
      → IsTeamWrite db (reconcile_teams new_id now user orgs db)
  unfolding reconcile_teams
  reconcile_teams-IsTeamWrite now user orgs db =
      let synced = sync_orgs-IsTeamWrite now user orgs db in
      record {
        keys = synced.keys;
        usage_log = synced.usage_log;
        key_spend = synced.key_spend;
        model_prices = synced.model_prices;
      }

  module _ (verify : Text → Option Context) (user_info : Text → Option UserInfo) (now : ℕ) where
    by_access_key-IsTeamWrite :
        (ctx : Context) (s : Session)
        → IsTeamWrite s.db (by_access_key new_id verify user_info now ctx s).1.db
    unfolding by_access_key ensure_teams
    by_access_key-IsTeamWrite ctx s = sync_orgs-IsTeamWrite now _ _ s.db

    by_user_info-IsTeamWrite :
        (token : Text) (ctx : Context) (s : Session)
        → IsTeamWrite s.db (by_user_info new_id verify user_info now token ctx s).1.db
    unfolding by_user_info resync
    by_user_info-IsTeamWrite token ctx s =
        elim (Reply-cases (check_info new_id verify user_info now ctx (user_info token))) [
          | inl (info, passed) ↦
              rw (passed, by_user_info, resync) (reconcile_teams-IsTeamWrite now _ _ s.db)
          | inr (status, message, failed) ↦ rw (failed, by_user_info) (same-IsTeamWrite s.db)
        ]

    by_hit-IsTeamWrite :
        (ctx : Context) (hit : Hit) (s : Session)
        → IsTeamWrite s.db (by_hit new_id verify user_info now ctx hit s).1.db
    unfolding by_hit unauthorized
    by_hit-IsTeamWrite ctx hit s = elim (Bool-cases (text_eq hit.sub ctx.sub)) [
      | inl same ↦ rw same (same-IsTeamWrite s.db)
      | inr other ↦ rw other (same-IsTeamWrite s.db)
    ]

    by_identity-IsTeamWrite :
        (token : Text) (ctx : Context) (o : Option Hit) (s : Session)
        → IsTeamWrite s.db (by_identity new_id verify user_info now token ctx o s).1.db
    unfolding by_identity
    by_identity-IsTeamWrite token ctx none s = by_user_info-IsTeamWrite token ctx s
    by_identity-IsTeamWrite token ctx (some hit) s = elim (Bool-cases (ltb now hit.exp)) [
      | inl fresh ↦ rw fresh (by_hit-IsTeamWrite ctx hit s)
      | inr stale ↦ rw stale (by_user_info-IsTeamWrite token ctx s)
    ]

    by_context-IsTeamWrite :
        (token : Text) (o : Option Context) (s : Session)
        → IsTeamWrite s.db (by_context new_id verify user_info now token o s).1.db
    unfolding by_context unauthorized
    by_context-IsTeamWrite token none s = same-IsTeamWrite s.db
    by_context-IsTeamWrite token (some ctx) s =
        by_identity-IsTeamWrite token ctx (get token s.cache) s

    by_token-IsTeamWrite :
        (token : Text) (o : Option Context) (header : Text) (s : Session)
        → IsTeamWrite s.db (by_token new_id verify user_info now token o header s).1.db
    unfolding by_token
    by_token-IsTeamWrite token (some ctx) header s = by_access_key-IsTeamWrite ctx s
    by_token-IsTeamWrite token none header s = by_context-IsTeamWrite token _ s

    -- Whatever the reply of the middleware is, it has written to no table but the teams and their
    -- members.
    pub auth_middleware-IsTeamWrite :
        (authorization x_kamuhub_authz : Option Text) (s : Session)
        → IsTeamWrite s.db
            (auth_middleware new_id verify user_info now authorization x_kamuhub_authz s).1.db
    unfolding auth_middleware unauthorized
    auth_middleware-IsTeamWrite authorization x_kamuhub_authz s =
        elim (Bool-cases (is_empty (bearer_token authorization))) [
          | inl blank ↦ rw blank (same-IsTeamWrite s.db)
          | inr given ↦ rw given (by_token-IsTeamWrite (bearer_token authorization) _ _ s)
        ]

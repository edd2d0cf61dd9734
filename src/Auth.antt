-- ===== src/Auth.antt =====
-- api/src/middleware/auth.ts and grants.ts: who may pass. `verify` is `verifyPlatformContext` and
-- `user_info` is `fetchUserInfo`, whose replies come from outside; `new_id` is as in `Teams`. An
-- error of the team writes is logged and passed over, and is not modelled.
pub mod Admission
pub mod Writes
use kamu_llm_gateway.Prelude.{
  ℕ, ◌+◌, ◌*◌, Bool, true, false, not, ◌&&◌, ◌||◌, Option, none, some, List, [], ◌∷◌, ◌++◌, Text,
  codes, text_eq, is_empty, any, find, length, ltb, if◌then◌else◌,
}
use kamu_llm_gateway.Prelude.Maps.{get, put}
use kamu_llm_gateway.Http.{Reply, ok, err, ◌>>=◌, ◌>>◌, require, some_or, or_blank, bearer_token}
use kamu_llm_gateway.Types.{Role, owner, admin, member, Team, ContextOrg, OrgClaim}
use kamu_llm_gateway.Database.{Db}
use kamu_llm_gateway.Teams.{ensure_teams, reconcile_teams}

abbrev pub resync_ms : ℕ
resync_ms = 5 * 60 * 1000

pub record AuthUser : Type 0 where
  pub id : Text
  pub email : Text
  pub name : Text

pub record UserInfo : Type 0 where
  pub sub : Text
  pub email : Option Text
  pub name : Option Text
  pub email_verified : Option Bool

-- A verified platform context, with the identity that an access key carries.
pub record Context : Type 0 where
  pub sub : Text
  pub email : Option Text
  pub name : Option Text
  pub orgs : List ContextOrg

pub record Hit : Type 0 where
  pub user : AuthUser
  pub sub : Text
  pub exp : ℕ

abbrev pub Cache : Type 0
Cache = List (Text × Hit)

-- `info.name ?? (email || info.sub)`
unfoldable pub provision_user : Text → Option Text → Option Text → AuthUser
provision_user sub email name =
    let e = or_blank email in
    record {
      id = sub;
      email = e;
      name = elim name [ none ↦ if is_empty e then sub else e | some n ↦ n ];
    }

role_of : Text → Role
role_of r =
    if text_eq r (codes "owner") then owner else if text_eq r (codes "admin") then admin else member

-- An organization without the shared id, or with an empty one, is left out.
claim_of : ContextOrg → List OrgClaim
unfolding role_of
claim_of o = elim o.kamuid_org_id [
  | none ↦ []
  | some id ↦
      if is_empty id
      then []
      else record {
        id = id;
        slug = o.slug;
        name = if is_empty o.name then o.slug else o.name;
        role = role_of o.role;
      }
        ∷ []
]

unfoldable pub context_to_org_claims : List ContextOrg → List OrgClaim
unfolding claim_of
context_to_org_claims [] = []
context_to_org_claims (o ∷ os) = claim_of o ++ context_to_org_claims os

-- What the middleware hands to the handlers, and what it leaves behind.
pub record Admitted : Type 0 where
  pub user : AuthUser
  pub platform_context : Option Context

pub record Session : Type 0 where
  pub cache : Cache
  pub db : Db

unauthorized : {A : Type 0} → Reply A
unauthorized = err 401 (codes "Unauthorized")

-- `keyCtx?.sub`
abbrev pub has_sub : Option Context → Option Context
has_sub none = none
has_sub (some c) = if is_empty c.sub then none else some c

is_false : Option Bool → Bool
is_false (some false) = true
is_false _ = false

module _ (new_id : List Team → ℕ) (verify : Text → Option Context)
    (user_info : Text → Option UserInfo) (now : ℕ) where
  -- The access-key path.
  by_access_key : Context → Session → Reply Admitted × Session
  by_access_key ctx s =
      let user = provision_user ctx.sub ctx.email ctx.name in
      (
        ok (record { user = user; platform_context = some ctx }),
        record s { db = ensure_teams new_id now user.id (context_to_org_claims ctx.orgs) s.db },
      )

  -- The checks of the identity against the context.
  check_info : Context → Option UserInfo → Reply UserInfo
  unfolding is_false
  check_info ctx answer = do
    info ← some_or answer 401 (codes "Unauthorized")
    require (not (is_empty info.sub)) 401 (codes "Unauthorized")
    require (not (is_false info.email_verified)) 401 (codes "Unauthorized")
    require (text_eq info.sub ctx.sub) 401 (codes "Unauthorized")
    ok info

  resync : Text → Context → UserInfo → Session → Reply Admitted × Session
  resync token ctx info s =
      let user = provision_user info.sub info.email info.name in
      let kept = if ltb 2000 (length s.cache) then [] else s.cache in
      (
        ok (record { user = user; platform_context = none }),
        record {
          cache = put token (record { user = user; sub = info.sub; exp = now + resync_ms }) kept;
          db = reconcile_teams new_id now user.id (context_to_org_claims ctx.orgs) s.db;
        },
      )

  by_user_info : Text → Context → Session → Reply Admitted × Session
  unfolding check_info resync
  by_user_info token ctx s = elim (check_info ctx (user_info token)) [
    | err status message ↦ (err status message, s)
    | ok info ↦ resync token ctx info s
  ]

  by_hit : Context → Hit → Session → Reply Admitted × Session
  unfolding unauthorized
  by_hit ctx hit s =
      if text_eq hit.sub ctx.sub
      then (ok (record { user = hit.user; platform_context = none }), s)
      else (unauthorized, s)

  -- The opaque path, for a cached identity that has not expired or none.
  by_identity : Text → Context → Option Hit → Session → Reply Admitted × Session
  unfolding by_user_info by_hit
  by_identity token ctx none s = by_user_info token ctx s
  by_identity token ctx (some hit) s =
      if ltb now hit.exp then by_hit ctx hit s else by_user_info token ctx s

  by_context : Text → Option Context → Session → Reply Admitted × Session
  unfolding by_identity unauthorized
  by_context token none s = (unauthorized, s)
  by_context token (some ctx) s = by_identity token ctx (get token s.cache) s

  by_token : Text → Option Context → Text → Session → Reply Admitted × Session
  unfolding by_access_key by_context
  by_token token (some ctx) header s = by_access_key ctx s
  by_token token none header s =
      by_context token (if is_empty header then none else verify header) s

  unfoldable pub auth_middleware : Option Text → Option Text → Session → Reply Admitted × Session
  unfolding by_token unauthorized
  auth_middleware authorization x_kamuhub_authz s =
      let token = bearer_token authorization in
      if is_empty token
      then (unauthorized, s)
      else by_token token (has_sub (verify token)) (or_blank x_kamuhub_authz) s

-- The organization that a grant check is about: the first with the id that the request resolves to.
abbrev pub is_org : Option Text → ContextOrg → Bool
is_org none o = elim o.kamuid_org_id [ none ↦ true | some _ ↦ false ]
is_org (some i) o = elim o.kamuid_org_id [ none ↦ false | some j ↦ text_eq j i ]

-- The context that a grant check reads: the stashed one, or else that of the header.
abbrev pub grant_context : (Text → Option Context) → Option Context → Text → Option Context
grant_context verify (some c) header = some c
grant_context verify none header = if is_empty header then none else verify header

-- `requireGrant`, for the stashed context and the header; `org_id` is what the resolver returns.
unfoldable pub require_grant :
    (Text → Option Context) → Text → Option Context → Option Text → Option Text → Reply (Unit {0})
require_grant verify permission stashed header org_id = do
  ctx ←
      some_or (grant_context verify stashed (or_blank header)) 403
        (codes "platform authorization required")
  org ← some_or (find (is_org org_id) ctx.orgs) 403 (codes "missing grant: " ++ permission)
  require (any (λ g. text_eq g permission) org.grants) 403 (codes "missing grant: " ++ permission)

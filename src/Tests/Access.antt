-- ===== src/Tests/Access.antt =====
-- Examples of the results on authentication and teams.
use kamu_llm_gateway.Prelude.{
  ℕ, ◌≡◌, refl, true, Bool, Option, none, some, List, [], ◌∷◌, Text, codes, text_eq, if◌then◌else◌,
}
use kamu_llm_gateway.Http.{ok}
use kamu_llm_gateway.Types.{Team, OrgClaim, member}
use kamu_llm_gateway.Database.{in_user_teams}
use kamu_llm_gateway.Platform.{
  Jwk, Imported, crypto_key, KeySource, Payload, PlatformEnv, verify_platform_context,
}
use kamu_llm_gateway.Platform.Trust.{IsTrusted, IsFaithful, verify_platform_context-IsTrusted}
use kamu_llm_gateway.Auth.{
  AuthUser, UserInfo, Context, Admitted, Session, auth_middleware, grant_context,
}
use kamu_llm_gateway.Auth.Admission.{auth_middleware-subject}
use kamu_llm_gateway.Teams.{sync_orgs, reconcile_teams}
use kamu_llm_gateway.Teams.Reconcile.{has_number, reconcile_teams_lem}
use kamu_llm_gateway.Tests.Data.{ann, db}

abbrev pub new_id : List Team → ℕ
new_id _ = 2

abbrev ann_context : Context
ann_context = record { sub = ann; email = none; name = none; orgs = [] }

-- Only the text "signed" verifies.
abbrev verify : Text → Option Context
verify t = if text_eq t (codes "signed") then some ann_context else none

abbrev pub user_info : Text → Option UserInfo
user_info t = some (record { sub = ann; email = none; name = none; email_verified = none })

abbrev pub session : Session
session = record { cache = []; db = db }

abbrev admitted : Admitted
admitted = record { user = record { id = ann; email = []; name = ann }; platform_context = none }

passes :
    (auth_middleware new_id verify user_info 3_000
      (some (codes "Bearer opaque"))
      (some (codes "signed"))
      session).0
    ≡ ok admitted
unfolding auth_middleware kamu_llm_gateway.Http.bearer_token kamu_llm_gateway.Prelude.starts_with
    kamu_llm_gateway.Prelude.to_lower_case kamu_llm_gateway.Prelude.trim text_eq
    kamu_llm_gateway.Prelude.Maps.get kamu_llm_gateway.Auth.provision_user
passes = refl

auth_middleware-subject_example :
    (t : Text) × (ctx : Context) × (verify t ≡ some ctx)
    × (ann ≡ ctx.sub)
    × (grant_context verify none (codes "signed") ≡ some ctx)
auth_middleware-subject_example =
    auth_middleware-subject new_id verify user_info 3_000 (some (codes "Bearer opaque"))
      (some (codes "signed")) session admitted tt passes

abbrev other_org : OrgClaim
other_org = record { id = codes "other"; slug = codes "o"; name = codes "Other"; role = member }

-- The user's old team goes, and a new one comes.
reconcile_teams_lem_example :
    in_user_teams ann 1 (reconcile_teams new_id 3_000 ann (other_org ∷ []) db).team_members ≡ (
      if text_eq ann ann
      then has_number 1 (sync_orgs new_id 3_000 ann (other_org ∷ []) db).0
      else in_user_teams ann 1 db.team_members)
reconcile_teams_lem_example = reconcile_teams_lem new_id ann ann 1 3_000 (other_org ∷ []) db

abbrev pub dev_env : PlatformEnv
dev_env = record { kamuhub_jwks_url = codes "dev"; kamuhub_dev_jwk = codes "jwk" }

abbrev pub dev_jwk : Text → Option Jwk
dev_jwk t =
    some (record { kty = some (codes "OKP"); crv = some (codes "Ed25519"); x = some (codes "x") })

abbrev pub import_one : Jwk → Option (Imported ℕ)
import_one k = some (crypto_key 1)

abbrev verify_any : Text → KeySource ℕ → Option (Payload ℕ)
verify_any token source = some (record { orgs_is_array = true; context = 5 })

verify_platform_context-IsTrusted_example :
    IsTrusted dev_jwk import_one verify_any dev_env (codes "t") 5
    × IsFaithful dev_jwk import_one verify_any dev_env
        (verify_platform_context dev_jwk import_one verify_any dev_env (codes "t") none).1
unfolding verify_platform_context text_eq kamu_llm_gateway.Platform.is_ed25519
verify_platform_context-IsTrusted_example =
    verify_platform_context-IsTrusted dev_jwk import_one verify_any dev_env (codes "t") none 5
      (λ k e. absurd (cc e)) refl

-- ===== src/Tests/Routes.antt =====
-- Examples of the results on the routes of the keys: a request with an access key.
use kamu_llm_gateway.Prelude.{
  ℕ, ◌≡◌, refl, true, Option, none, some, List, [], ◌∷◌, Text, codes, text_eq,
}
use kamu_llm_gateway.Http.{ok}
use kamu_llm_gateway.Types.{ContextOrg}
use kamu_llm_gateway.Credentials.{Generated, generate_top_level_key}
use kamu_llm_gateway.Platform.{KeySource, Payload}
use kamu_llm_gateway.Auth.{Context, auth_middleware}
use kamu_llm_gateway.Keys.Create.{Created, new_key, create}
use kamu_llm_gateway.Access.{Headers, post_keys}
use kamu_llm_gateway.Access.Granted.{after_auth}
use kamu_llm_gateway.Access.Routes.{verify, IsPosted, post_keys-IsPosted}
use kamu_llm_gateway.Tests.Data.{ann, plain, create_body}
use kamu_llm_gateway.Tests.Access.{new_id, user_info, session, dev_env, dev_jwk, import_one}

abbrev org : ContextOrg
org = record {
  id = codes "o";
  kamuid_org_id = some (codes "org");
  slug = codes "team";
  name = codes "Team";
  role = codes "owner";
  grants = codes "llm.keys.create" ∷ codes "llm.keys.revoke" ∷ [];
}

abbrev ann_context : Context
ann_context = record { sub = ann; email = none; name = none; orgs = org ∷ [] }

abbrev jwt_verify : Text → KeySource ℕ → Option (Payload Context)
jwt_verify token source = some (record { orgs_is_array = true; context = ann_context })

abbrev verified : Text → Option Context
verified = verify dev_jwk import_one jwt_verify dev_env none

abbrev headers : Headers
headers = record { authorization = some (codes "Bearer jwt"); x_kamuhub_authz = none }

abbrev made : Generated
made = generate_top_level_key plain plain (1 ∷ 2 ∷ [])

abbrev created : Created
created = record {
  key =
      record (new_key 10 3_000 ann made create_body
        (record { team_id = 1; label = codes "new"; models = codes "*" ∷ [] })) {
          root_key_id = some 10;
        };
  secret = made.secret;
}

posted :
    (post_keys new_id verified user_info 3_000 10 made create_body headers session).0 ≡ ok created
unfolding post_keys kamu_llm_gateway.Auth.auth_middleware kamu_llm_gateway.Http.bearer_token
    kamu_llm_gateway.Prelude.starts_with kamu_llm_gateway.Prelude.to_lower_case
    kamu_llm_gateway.Prelude.trim kamu_llm_gateway.Platform.verify_platform_context text_eq
    kamu_llm_gateway.Platform.is_ed25519 kamu_llm_gateway.Auth.provision_user
    kamu_llm_gateway.Auth.require_grant kamu_llm_gateway.Teams.ensure_teams
    kamu_llm_gateway.Teams.sync_orgs kamu_llm_gateway.Auth.context_to_org_claims
    kamu_llm_gateway.Teams.upsert_team kamu_llm_gateway.Teams.upsert_member
    kamu_llm_gateway.Database.in_user_teams kamu_llm_gateway.Keys.Create.team_org_id_from_create
    kamu_llm_gateway.Keys.Create.create kamu_llm_gateway.Keys.Create.check_create
posted = refl

post_keys-IsPosted_example :
    IsPosted dev_jwk import_one jwt_verify dev_env none
      (after_auth new_id verified user_info 3_000 headers session).db
      created
post_keys-IsPosted_example =
    post_keys-IsPosted dev_jwk import_one jwt_verify dev_env none (λ k e. absurd (cc e)) new_id
      user_info 3_000 headers session tt 10 made create_body created posted

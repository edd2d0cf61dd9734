-- ===== src/Tests/DevToken.antt =====
-- Example of the token of the smoke test: a team of the test organization with a key of its own.
use kamu_llm_gateway.Prelude.{
  ℕ, ◌≡◌, refl, true, false, any, is_space, Option, none, some, [], ◌∷◌, Text, codes, text_eq,
}
use kamu_llm_gateway.Http.{Reply}
use kamu_llm_gateway.Platform.{Imported, crypto_key, KeySource, Payload}
use kamu_llm_gateway.Auth.{Context, Session}
use kamu_llm_gateway.Credentials.{Generated, generate_top_level_key}
use kamu_llm_gateway.Keys.Create.{create, team_org_id_from_create, team_org_id_from_key}
use kamu_llm_gateway.Keys.Revoke.{revoke}
use kamu_llm_gateway.Access.{in_session, post_keys, post_revoke}
use kamu_llm_gateway.Access.Granted.{after_auth}
use kamu_llm_gateway.Access.Routes.{verify}
use kamu_llm_gateway.DevToken.{DevClaims, default_ttl, test_user, dev_claims, dev_token}
use kamu_llm_gateway.DevToken.Admitted.{context_of, bearer, IsMatched, granted, dev_token_passes}
use kamu_llm_gateway.Tests.Data.{db, team, plain, create_body}
use kamu_llm_gateway.Tests.Access.{new_id, user_info, dev_env, dev_jwk, import_one}

abbrev smoke : Session
smoke = record {
  cache = [];
  db = record db { teams = record team { kamuid_org_id = codes "org_test_1" } ∷ [] };
}

abbrev seed : Text
seed = codes "0123456789abcdef0123456789abcdef"

abbrev atob : Text → Option Text
atob t = some t

abbrev import_seed : Text → Option (Imported ℕ)
import_seed t = some (crypto_key 1)

abbrev sign : ℕ → DevClaims → Text
sign k claims = codes "jwt"

abbrev jwt_verify : Text → KeySource ℕ → Option (Payload Context)
jwt_verify token source =
    some (record { orgs_is_array = true; context = context_of (dev_claims 3 default_ttl) })

abbrev made : Generated
made = generate_top_level_key plain plain (1 ∷ 2 ∷ [])

printed : dev_token atob plain import_seed sign (some seed) 3 default_ttl ≡ some (codes "jwt")
unfolding dev_token kamu_llm_gateway.DevToken.dev_signing_key
    kamu_llm_gateway.Ed25519.decode_base64_bytes
printed = refl

matched :
    IsMatched atob plain import_seed sign dev_jwk import_one jwt_verify dev_env none
      (some seed)
      3
      default_ttl
unfolding kamu_llm_gateway.Platform.read_dev_key kamu_llm_gateway.Platform.is_ed25519 text_eq
matched = record {
  dev_mode = refl;
  configured = refl;
  public_key = 1;
  read = refl;
  kept = λ k e. absurd (cc e);
  verifies = λ k same. refl;
}

no_space : any is_space (codes "jwt") ≡ false
unfolding is_space
no_space = refl

abbrev verified : Text → Option Context
verified = verify dev_jwk import_one jwt_verify dev_env none

abbrev after_smoke : Session
after_smoke = after_auth new_id verified user_info 3_000 (bearer (codes "jwt")) smoke

abbrev granted_after : {A : Type 0} → Text → Option Text → Reply A × Session → Reply A × Session
granted_after permission org_id handled =
    granted atob plain import_seed sign dev_jwk import_one jwt_verify dev_env none (some seed) 3
      default_ttl new_id user_info 3_000 smoke (codes "jwt") matched printed refl no_space
      permission org_id handled

dev_token_passes_example :
    (post_keys new_id verified user_info 3_000 10 made create_body (bearer (codes "jwt")) smoke
      ≡ granted_after
          (codes "llm.keys.create")
          (team_org_id_from_create after_smoke.db create_body.team_id)
          (in_session after_smoke (create 10 3_000 test_user made create_body after_smoke.db)))
    × (post_revoke new_id verified user_info 3_000 7 (bearer (codes "jwt")) smoke
        ≡ granted_after
            (codes "llm.keys.revoke")
            (team_org_id_from_key after_smoke.db 7)
            (in_session after_smoke (revoke 3_000 test_user 7 after_smoke.db)))
dev_token_passes_example =
    dev_token_passes atob plain import_seed sign dev_jwk import_one jwt_verify dev_env none
      (some seed) 3 default_ttl new_id user_info 3_000 smoke (codes "jwt") matched printed refl
      no_space 10 made create_body 7

-- ===== src/DevToken.antt =====
-- scripts/dev-token.ts: the token of a local smoke test. `atob`, `btoa` and `import_jwk` are as in
-- `Ed25519`, the seed alone making the JWK here, and `sign` is jose's SignJWT. Where the script exits
-- with 1 it prints no token.
pub mod Admitted
use kamu_llm_gateway.Prelude.{
  ℕ, ◌+◌, Option, none, some, List, [], ◌∷◌, Text, codes, is_empty, length, ◌==◌, if◌then◌else◌,
}
use kamu_llm_gateway.Types.{ContextOrg}
use kamu_llm_gateway.Platform.{Imported, as_key}
use kamu_llm_gateway.Ed25519.{decode_base64_bytes, encode_base64url}

-- The payload, its times in seconds.
pub record DevClaims : Type 0 where
  pub user_id : Text
  pub sub : Text
  pub email : Text
  pub name : Text
  pub orgs : List ContextOrg
  pub iat : ℕ
  pub exp : ℕ

abbrev pub default_ttl : ℕ
default_ttl = 3_600

abbrev pub test_user : Text
test_user = codes "user_test_1"

abbrev pub test_org : ContextOrg
test_org = record {
  id = codes "org_test_1";
  kamuid_org_id = some (codes "org_test_1");
  slug = codes "testorg";
  name = codes "Test Org";
  role = codes "owner";
  grants = codes "llm.keys.create" ∷ codes "llm.keys.revoke" ∷ [];
}

abbrev pub dev_claims : ℕ → ℕ → DevClaims
dev_claims now ttl = record {
  user_id = test_user;
  sub = test_user;
  email = codes "test@kamuhub.dev";
  name = codes "Test User";
  orgs = test_org ∷ [];
  iat = now;
  exp = now + ttl;
}

module _ {SigningKey : Type 0} (atob : Text → Option Text) (btoa : List ℕ → Text)
    (import_jwk : Text → Option (Imported SigningKey)) (sign : SigningKey → DevClaims → Text) where
  key_of_seed : Option (List ℕ) → Option SigningKey
  unfolding encode_base64url
  key_of_seed none = none
  key_of_seed (some seed) =
      if length seed == 32 then as_key (import_jwk (encode_base64url btoa seed)) else none

  -- KAMUHUB_DEV_PRIVATE_KEY, decoded and imported.
  unfoldable pub dev_signing_key : Option Text → Option SigningKey
  unfolding key_of_seed decode_base64_bytes
  dev_signing_key none = none
  dev_signing_key (some b64) =
      if is_empty b64 then none else key_of_seed (decode_base64_bytes atob b64)

  signed : Option SigningKey → ℕ → ℕ → Option Text
  signed none now ttl = none
  signed (some k) now ttl = some (sign k (dev_claims now ttl))

  unfoldable pub dev_token : Option Text → ℕ → ℕ → Option Text
  unfolding dev_signing_key signed
  dev_token private_key now ttl = signed (dev_signing_key private_key) now ttl

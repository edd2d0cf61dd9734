-- ===== src/DevToken/Admitted.antt =====
-- The token of the smoke test is one that the api admits and grants the writes to.
use kamu_llm_gateway.Prelude.{
  ℕ, Bool, inl, inr, Bool-cases, if◌then◌else◌, ◌≡◌, refl, sym, ap, ◌∙◌, true, false, Option, none,
  some, List, [], ◌∷◌, ◌++◌, Text, arith, codes, text_eq, text_eq_refl, is_empty, any, is_space,
  trim, starts_with, to_lower_case,
}
use kamu_llm_gateway.Prelude.Trimming.{trim_word, last_of}
use kamu_llm_gateway.Http.{Reply, ok, err, bearer_token}
use kamu_llm_gateway.Types.{Team}
use kamu_llm_gateway.Database.{Db}
use kamu_llm_gateway.Credentials.{Generated}
use kamu_llm_gateway.Keys.Create.{CreateBody, create, team_org_id_from_create, team_org_id_from_key}
use kamu_llm_gateway.Keys.Revoke.{revoke}
use kamu_llm_gateway.Platform.{
  Jwk, Imported, KeySource, dev_key, Payload, PlatformEnv, read_dev_key,
}
use kamu_llm_gateway.Platform.Trust.{IsFaithful, verify_platform_context-dev}
use kamu_llm_gateway.Auth.{
  UserInfo, Context, Admitted, Session, provision_user, auth_middleware, require_grant,
}
use kamu_llm_gateway.Access.{Headers, guarded, permit, in_session, post_keys, post_revoke}
use kamu_llm_gateway.Access.Granted.{after_auth}
use kamu_llm_gateway.Access.Routes.{verify}
use kamu_llm_gateway.DevToken.{
  DevClaims, dev_claims, test_user, test_org, dev_signing_key, signed, dev_token,
}

-- The context that a payload is.
abbrev pub context_of : DevClaims → Context
context_of c = record { sub = c.sub; email = some c.email; name = some c.name; orgs = c.orgs }

first_clean : (c : ℕ) (s : Text) → any is_space (c ∷ s) ≡ false → is_space c ≡ false
first_clean c s clean = ground arith

trim_token : (t : Text) → is_empty t ≡ false → any is_space t ≡ false → trim t ≡ t
trim_token [] given clean = cc given
trim_token (c ∷ s) given clean =
    let (r, d, e, last) = last_of c s clean in trim_word s r c d (first_clean c s clean) last e

abbrev pub bearer : Text → Headers
bearer t = record { authorization = some (codes "Bearer " ++ t); x_kamuhub_authz = none }

bearer_of_token :
    (t : Text)
    → is_empty t ≡ false
    → any is_space t ≡ false
    → bearer_token (some (codes "Bearer " ++ t)) ≡ t
unfolding bearer_token starts_with to_lower_case
bearer_of_token t given clean = trim_token t given clean

module _ {SigningKey VerifyKey : Type 0} (atob : Text → Option Text) (btoa : List ℕ → Text)
    (import_seed : Text → Option (Imported SigningKey)) (sign : SigningKey → DevClaims → Text)
    (parse_json : Text → Option Jwk) (import_jwk : Jwk → Option (Imported VerifyKey))
    (jwt_verify : Text → KeySource VerifyKey → Option (Payload Context)) (env : PlatformEnv)
    (cached : Option VerifyKey) (private_key : Option Text) (issued ttl : ℕ) where
  -- The private key of the script belongs to the public key of the api: what the one signs, the other
  -- verifies; and a copy of the public key that the api keeps is the configured one.
  pub record IsMatched : Type 0 where
    pub dev_mode : env.kamuhub_jwks_url ≡ codes "dev"
    pub configured : is_empty env.kamuhub_dev_jwk ≡ false
    pub public_key : VerifyKey
    pub read : read_dev_key parse_json import_jwk jwt_verify env.kamuhub_dev_jwk ≡ some public_key
    pub kept : IsFaithful parse_json import_jwk jwt_verify env cached
    pub verifies :
        (k : SigningKey)
        → dev_signing_key atob btoa import_seed sign private_key ≡ some k
        → jwt_verify (sign k (dev_claims issued ttl)) (dev_key public_key)
          ≡ some (record { orgs_is_array = true; context = context_of (dev_claims issued ttl) })

  abbrev pub check : Text → Option Context
  check = verify parse_json import_jwk jwt_verify env cached

  verify_of_key :
      (t : Text)
      → IsMatched
      → (key : Option SigningKey) → dev_signing_key atob btoa import_seed sign private_key ≡ key
      → signed atob btoa import_seed sign key issued ttl ≡ some t
      → check t ≡ some (context_of (dev_claims issued ttl))
  unfolding signed
  verify_of_key t m none same e = cc e
  verify_of_key t m (some k) same e =
      let made : sign k (dev_claims issued ttl) ≡ t = cc e in
      let is_dev : text_eq env.kamuhub_jwks_url (codes "dev") ≡ true =
        ap (λ (u : Text). text_eq u (codes "dev")) m.dev_mode ∙ text_eq_refl (codes "dev") in
      ap check (sym made)
      ∙ verify_platform_context-dev parse_json import_jwk jwt_verify env cached
          (sign k (dev_claims issued ttl)) m.public_key _ m.kept is_dev m.configured m.read
          (m.verifies k same) refl

  verify-dev_token :
      (t : Text)
      → IsMatched
      → dev_token atob btoa import_seed sign private_key issued ttl ≡ some t
      → check t ≡ some (context_of (dev_claims issued ttl))
  unfolding dev_token
  verify-dev_token t m e = verify_of_key t m _ refl e

  abbrev ctx : Context
  ctx = context_of (dev_claims issued ttl)

  -- What the middleware hands to the handlers.
  abbrev pub admitted : Admitted
  admitted = record {
    user = provision_user ctx.sub ctx.email ctx.name;
    platform_context = some ctx;
  }

  module _ (new_id : List Team → ℕ) (user_info : Text → Option UserInfo) (now : ℕ) (s : Session)
      (t : Text) (matched : IsMatched)
      (printed : dev_token atob btoa import_seed sign private_key issued ttl ≡ some t)
      (given : is_empty t ≡ false) (clean : any is_space t ≡ false) where
    middleware-dev_token :
        (auth_middleware new_id check user_info now (bearer t).authorization none s).0 ≡ ok admitted
    unfolding auth_middleware
    middleware-dev_token =
        rw (bearer_of_token t given clean, given, verify-dev_token t matched printed) refl

    -- The organization of the token, which has granted both writes.
    abbrev pub is_test_org : Option Text → Bool
    is_test_org none = false
    is_test_org (some id) = text_eq (codes "org_test_1") id

    abbrev pub after : Session
    after = after_auth new_id check user_info now (bearer t) s

    -- A route that asks for one of the grants: its handler, for the test user, or a 403 without it.
    abbrev pub granted : {A : Type 0} → Text → Option Text → Reply A × Session → Reply A × Session
    granted permission org_id handled =
        if is_test_org org_id
        then handled
        else (err 403 (codes "missing grant: " ++ permission), after)

    decided :
        {A : Type 0} (permission : Text) (org_id : Option Text) (handled : Reply A × Session)
        → any (λ g. text_eq g permission) test_org.grants ≡ true
        → permit (require_grant check permission (some ctx) none org_id) after handled
          ≡ granted permission org_id handled
    unfolding require_grant permit
    decided permission none handled has = refl
    decided permission (some id) handled has = elim (Bool-cases (text_eq (codes "org_test_1") id)) [
      | inl same ↦ rw (same, has) refl
      | inr other ↦ rw other refl
    ]

    guarded-dev_token :
        {A : Type 0} (permission : Text) (org_id : Db → Option Text)
        (handler : Text → Db → Reply A × Db)
        → any (λ g. text_eq g permission) test_org.grants ≡ true
        → guarded new_id check user_info now permission org_id handler (bearer t) s
          ≡ granted permission (org_id after.db) (in_session after (handler test_user after.db))
    unfolding guarded provision_user
    guarded-dev_token permission org_id handler has =
        rw middleware-dev_token
          (decided permission (org_id after.db) (in_session after (handler test_user after.db)) has)

    -- With the token that the script prints, non-empty and without white space, and nothing else, in
    -- dev mode, if the api's public key belongs to the script's private key and a kept copy of it is
    -- the configured one: POST /keys is what its handler does for the test user, where the team of
    -- the request is of the test organization, and a 403 where it is not; and POST /keys/:id/revoke
    -- is what its handler does, where the team of the key is, and a 403 where it is not.
    pub dev_token_passes :
        (id : ℕ) (g : Generated) (body : CreateBody) (old : ℕ)
        → (post_keys new_id check user_info now id g body (bearer t) s
            ≡ granted
                (codes "llm.keys.create")
                (team_org_id_from_create after.db body.team_id)
                (in_session after (create id now test_user g body after.db)))
          × (post_revoke new_id check user_info now old (bearer t) s
              ≡ granted
                  (codes "llm.keys.revoke")
                  (team_org_id_from_key after.db old)
                  (in_session after (revoke now test_user old after.db)))
    unfolding post_keys post_revoke text_eq
    dev_token_passes id g body old = (
      guarded-dev_token (codes "llm.keys.create") (λ db. team_org_id_from_create db body.team_id)
          (λ user db. create id now user g body db) refl,
      guarded-dev_token (codes "llm.keys.revoke") (λ db. team_org_id_from_key db old)
          (λ user db. revoke now user old db) refl,
    )

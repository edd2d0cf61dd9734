-- ===== src/Platform/Trust.antt =====
-- Which tokens are taken for a platform context.
use kamu_llm_gateway.Prelude.{
  ◌≡◌, refl, sym, ap, ◌∙◌, inl, inr, true, false, Option, none, some, Text, codes, text_eq,
  is_empty, Bool-cases, Option-cases,
}
use kamu_llm_gateway.Platform.{
  Jwk, Imported, crypto_key, bytes, KeySource, jwks, dev_key, Payload, PlatformEnv, is_ed25519,
  as_key, import_checked, read_dev_key, remember, dev_verify_key, accept, verify_dev,
  verify_platform_context,
}

module _ {Key Context : Type 0} (parse_json : Text → Option Jwk)
    (import_jwk : Jwk → Option (Imported Key))
    (jwt_verify : Text → KeySource Key → Option (Payload Context)) (env : PlatformEnv) where
  -- The keys that the configuration allows: the remote set, or in dev mode the one of an Ed25519 JWK.
  pub data IsConfigured : KeySource Key → Type 0 where
    remote :
        text_eq env.kamuhub_jwks_url (codes "dev") ≡ false
        → IsConfigured (jwks env.kamuhub_jwks_url)
    local :
        (jwk : Jwk) (k : Key)
        → text_eq env.kamuhub_jwks_url (codes "dev") ≡ true
        → parse_json env.kamuhub_dev_jwk ≡ some jwk
        → is_ed25519 jwk ≡ true
        → import_jwk jwk ≡ some (crypto_key k)
        → IsConfigured (dev_key k)

  -- A copy of the dev key is the one that the configuration gives.
  abbrev pub IsFaithful : Option Key → Type 0
  IsFaithful cached =
      (k : Key)
      → cached ≡ some k
      → read_dev_key parse_json import_jwk jwt_verify env.kamuhub_dev_jwk ≡ some k

  accept-some :
      (o : Option (Payload Context)) (c : Context)
      → accept parse_json import_jwk jwt_verify o ≡ some c
      → (p : Payload Context) × (o ≡ some p) × (p.orgs_is_array ≡ true) × (p.context ≡ c)
  accept-some none c e = absurd (cc e)
  accept-some (some p) c e = elim (Bool-cases p.orgs_is_array) [
    | inl array ↦ (p, refl, array, cc (rw array at e))
    | inr other ↦ absurd (cc (rw other at e))
  ]

  as_key-some : (o : Option (Imported Key)) (k : Key) → as_key o ≡ some k → o ≡ some (crypto_key k)
  as_key-some none k e = absurd (cc e)
  as_key-some (some (crypto_key j)) k e = ap (λ (x : Key). some (crypto_key x)) (cc e)
  as_key-some (some bytes) k e = absurd (cc e)

  read_dev_key-some :
      (k : Key)
      → text_eq env.kamuhub_jwks_url (codes "dev") ≡ true
      → read_dev_key parse_json import_jwk jwt_verify env.kamuhub_dev_jwk ≡ some k
      → IsConfigured (dev_key k)
  unfolding read_dev_key
  read_dev_key-some k dev e = elim (Option-cases (parse_json env.kamuhub_dev_jwk)) [
    | inl broken ↦ absurd (cc (rw broken at e))
    | inr (jwk, parsed) ↦
        let read : import_checked parse_json import_jwk jwt_verify (some jwk) ≡ some k =
          ap (λ o. import_checked parse_json import_jwk jwt_verify o) (sym parsed) ∙ e in
        elim (Bool-cases (is_ed25519 jwk)) [
          | inl good ↦
              local jwk k dev parsed good (as_key-some (import_jwk jwk) k (rw good at read))
          | inr bad ↦ absurd (cc (rw bad at read))
        ]
  ]

  -- The dev key that is used is the configured one, and its copy stays so.
  dev_verify_key-IsFaithful :
      (cached : Option Key)
      → IsFaithful cached
      → IsFaithful (dev_verify_key parse_json import_jwk jwt_verify env.kamuhub_dev_jwk cached).0
        × IsFaithful (dev_verify_key parse_json import_jwk jwt_verify env.kamuhub_dev_jwk cached).1
  unfolding dev_verify_key
  dev_verify_key-IsFaithful cached faithful = elim (Bool-cases (is_empty env.kamuhub_dev_jwk)) [
    | inl unset ↦ rw (unset) ((λ k e. absurd (cc e)), faithful)
    | inr given ↦ rw (given) (held cached faithful)
  ]
    where
      held :
          (o : Option Key)
          → IsFaithful o
          → IsFaithful
              (elim o as (λ _. Option Key × Option Key) [
                | some k ↦ (some k, some k)
                | none ↦
                    remember parse_json import_jwk jwt_verify
                      (read_dev_key parse_json import_jwk jwt_verify env.kamuhub_dev_jwk)
              ]).0
            × IsFaithful
                (elim o as (λ _. Option Key × Option Key) [
                  | some k ↦ (some k, some k)
                  | none ↦
                      remember parse_json import_jwk jwt_verify
                        (read_dev_key parse_json import_jwk jwt_verify env.kamuhub_dev_jwk)
                ]).1
      held (some k) f = (f, f)
      held none f = ((λ k e. e), (λ k e. e))

  -- A token that stands for a context has been verified.
  pub record IsTrusted (token : Text) (context : Context) : Type 0 where
    pub source : KeySource Key
    pub configured : IsConfigured source
    pub payload : Payload Context
    pub verified : jwt_verify token source ≡ some payload
    pub has_orgs : payload.orgs_is_array ≡ true
    pub same_context : payload.context ≡ context

  accept-IsTrusted :
      (token : Text) (context : Context) (source : KeySource Key)
      → IsConfigured source
      → accept parse_json import_jwk jwt_verify (jwt_verify token source) ≡ some context
      → IsTrusted token context
  accept-IsTrusted token context source configured e =
      let (p, verified, array, same) = accept-some (jwt_verify token source) context e in
      record {
        source = source;
        configured = configured;
        payload = p;
        verified = verified;
        has_orgs = array;
        same_context = same;
      }

  dev-IsTrusted :
      (token : Text) (context : Context) (held : Option Key × Option Key)
      → text_eq env.kamuhub_jwks_url (codes "dev") ≡ true
      → IsFaithful held.0
      → IsFaithful held.1
      → (verify_dev parse_json import_jwk jwt_verify token held).0 ≡ some context
      → IsTrusted token context
        × IsFaithful (verify_dev parse_json import_jwk jwt_verify token held).1
  dev-IsTrusted token context (none, cached) dev key_ok copy_ok e = absurd (cc e)
  dev-IsTrusted token context (some k, cached) dev key_ok copy_ok e = (
    accept-IsTrusted token context (dev_key k) (read_dev_key-some k dev (key_ok k refl)) e,
    copy_ok,
  )

  -- A token that is accepted has been verified under a key that the configuration names, the remote
  -- set or in dev mode the one Ed25519 key of KAMUHUB_DEV_JWK, and its payload, which is the context,
  -- has an array of organisations; the copy of the dev key that is kept stays the configured one.
  pub verify_platform_context-IsTrusted :
      (token : Text) (cached : Option Key) (context : Context)
      → IsFaithful cached
      → (verify_platform_context parse_json import_jwk jwt_verify env token cached).0 ≡ some context
      → IsTrusted token context
        × IsFaithful (verify_platform_context parse_json import_jwk jwt_verify env token cached).1
  unfolding verify_platform_context
  verify_platform_context-IsTrusted token cached context faithful e =
      elim (Bool-cases (text_eq env.kamuhub_jwks_url (codes "dev"))) [
        | inl dev ↦
            let (key_ok, copy_ok) = dev_verify_key-IsFaithful cached faithful in
            rw dev (
              dev-IsTrusted token context
                (dev_verify_key parse_json import_jwk jwt_verify env.kamuhub_dev_jwk cached) dev
                key_ok copy_ok (rw dev at e))
        | inr live ↦ rw live (
          accept-IsTrusted token context (jwks env.kamuhub_jwks_url) (remote live) (rw live at e),
          faithful,
        )
      ]

  -- In dev mode a token that the key of KAMUHUB_DEV_JWK verifies is accepted, whether the key has been
  -- kept or not.
  pub verify_platform_context-dev :
      (cached : Option Key) (token : Text) (k : Key) (p : Payload Context)
      → IsFaithful cached
      → text_eq env.kamuhub_jwks_url (codes "dev") ≡ true
      → is_empty env.kamuhub_dev_jwk ≡ false
      → read_dev_key parse_json import_jwk jwt_verify env.kamuhub_dev_jwk ≡ some k
      → jwt_verify token (dev_key k) ≡ some p
      → p.orgs_is_array ≡ true
      → (verify_platform_context parse_json import_jwk jwt_verify env token cached).0
        ≡ some p.context
  unfolding verify_platform_context dev_verify_key
  verify_platform_context-dev none token k p faithful dev set read verified array =
      rw (dev, set, read, verified, array) refl
  verify_platform_context-dev (some j) token k p faithful dev set read verified array =
      let same : j ≡ k = cc (faithful j refl, read) in rw (dev, set, same, verified, array) refl

-- ===== src/Platform.antt =====
-- api/src/lib/platform-context.ts: the verification of a platform context. `parse_json` reads the dev
-- JWK, `none` where JSON.parse throws; `import_jwk` is jose's importJWK, `none` where it throws; and
-- `jwt_verify` gives the payload of a token under a key, `none` where jose refuses it. The remote key
-- set is jose's.
pub mod Trust
use kamu_llm_gateway.Prelude.{
  Bool, true, false, ◌&&◌, Option, none, some, Text, codes, text_eq, is_empty, if◌then◌else◌,
}

-- The fields of the JWK that are checked, `none` for one that is no string.
pub record Jwk : Type 0 where
  pub kty : Option Text
  pub crv : Option Text
  pub x : Option Text

-- What importJWK gives: a CryptoKey, or bytes.
pub data Imported (Key : Type 0) : Type 0 where
  crypto_key : Key → Imported Key
  bytes : Imported Key

-- `jwks` is the remote key set, and a dev key is a single one.
pub data KeySource (Key : Type 0) : Type 0 where
  jwks : Text → KeySource Key
  dev_key : Key → KeySource Key

-- A payload, whose `orgs` may be no array.
pub record Payload (Context : Type 0) : Type 0 where
  pub orgs_is_array : Bool
  pub context : Context

pub record PlatformEnv : Type 0 where
  pub kamuhub_jwks_url : Text
  pub kamuhub_dev_jwk : Text

abbrev equals : Option Text → Text → Bool
equals none t = false
equals (some s) t = text_eq s t

-- `jwk.kty === "OKP" && jwk.crv === "Ed25519" && typeof jwk.x === "string"`
unfoldable pub is_ed25519 : Jwk → Bool
is_ed25519 k =
    equals k.kty (codes "OKP")
    && (equals k.crv (codes "Ed25519") && elim k.x [ none ↦ false | some _ ↦ true ])

abbrev pub as_key : {Key : Type 0} → Option (Imported Key) → Option Key
as_key none = none
as_key (some bytes) = none
as_key (some (crypto_key k)) = some k

module _ {Key Context : Type 0} (parse_json : Text → Option Jwk)
    (import_jwk : Jwk → Option (Imported Key))
    (jwt_verify : Text → KeySource Key → Option (Payload Context)) where
  abbrev pub import_checked : Option Jwk → Option Key
  import_checked none = none
  import_checked (some k) = if is_ed25519 k then as_key (import_jwk k) else none

  -- The key of KAMUHUB_DEV_JWK, read anew.
  unfoldable pub read_dev_key : Text → Option Key
  read_dev_key raw = import_checked (parse_json raw)

  abbrev pub remember : Option Key → Option Key × Option Key
  remember k = (k, k)

  -- The key, and the copy that is kept.
  unfoldable pub dev_verify_key : Text → Option Key → Option Key × Option Key
  unfolding read_dev_key
  dev_verify_key raw cached =
      if is_empty raw
      then (none, cached)
      else elim cached [ some k ↦ (some k, some k) | none ↦ remember (read_dev_key raw) ]

  abbrev pub accept : Option (Payload Context) → Option Context
  accept none = none
  accept (some p) = if p.orgs_is_array then some p.context else none

  abbrev pub verify_dev : Text → Option Key × Option Key → Option Context × Option Key
  verify_dev token (none, cached) = (none, cached)
  verify_dev token (some k, cached) = (accept (jwt_verify token (dev_key k)), cached)

  unfoldable pub verify_platform_context :
      PlatformEnv → Text → Option Key → Option Context × Option Key
  unfolding dev_verify_key
  verify_platform_context env token cached =
      if text_eq env.kamuhub_jwks_url (codes "dev")
      then verify_dev token (dev_verify_key env.kamuhub_dev_jwk cached)
      else (accept (jwt_verify token (jwks env.kamuhub_jwks_url)), cached)

-- ===== src/Ed25519.antt =====
-- api/src/lib/ed25519.ts: the key pair that signs sub-keys, loaded from the environment when the
-- module is, and imported on first use. `atob` is `none` where it throws, `btoa` is its inverse, and
-- `import_jwk` is jose's importJWK, `none` where it throws.
pub mod Pair
use kamu_llm_gateway.Prelude.{
  ℕ, ◌%◌, Bool, Option, none, some, List, [], ◌∷◌, map, Text, codes, length, ◌==◌, if◌then◌else◌,
}
use kamu_llm_gateway.Prelude.Trimming.{drop_trailing}
use kamu_llm_gateway.Platform.{Imported, as_key}

abbrev pub url_safe : ℕ → ℕ
url_safe c = if c == b'+' then b'-' else if c == b'/' then b'_' else c

-- `b.replaceAll("+", "-").replaceAll("/", "_").replace(/=+$/, "")`
unfoldable pub b64_to_b64url : Text → Text
b64_to_b64url b = drop_trailing b'=' (map url_safe b)

-- A string of single bytes as an array of them.
abbrev pub to_bytes : Text → List ℕ
to_bytes bin = map (λ c. c % 256) bin

unfoldable pub decode_base64_bytes : (Text → Option Text) → Text → Option (List ℕ)
decode_base64_bytes atob b64 = elim (atob b64) [ none ↦ none | some bin ↦ some (to_bytes bin) ]

-- The fields of the JWK: the public half, and the seed of a private one.
pub record OkpJwk : Type 0 where
  pub x : Text
  pub d : Option Text

-- What loading the module ends with: the halves as base64url, or the error that it throws.
pub data Loaded : Type 0 where
  pair : Text → Text → Loaded
  invalid_base64 : Loaded
  bad_private bad_public : ℕ → Loaded

unfoldable pub encode_base64url : (List ℕ → Text) → List ℕ → Text
unfolding b64_to_b64url
encode_base64url btoa bytes = b64_to_b64url (btoa bytes)

module _ (atob : Text → Option Text) (btoa : List ℕ → Text) where
  check_lengths : List ℕ → List ℕ → Loaded
  unfolding encode_base64url
  check_lengths seed pub_bytes =
      if length seed == 32
      then (if length pub_bytes == 32
          then pair (encode_base64url btoa pub_bytes) (encode_base64url btoa seed)
          else bad_public (length pub_bytes))
      else bad_private (length seed)

  both_decoded : Option (List ℕ) → Option (List ℕ) → Loaded
  unfolding check_lengths
  both_decoded none pub_bytes = invalid_base64
  both_decoded (some seed) none = invalid_base64
  both_decoded (some seed) (some pub_bytes) = check_lengths seed pub_bytes

  unfoldable pub load : Text → Text → Loaded
  unfolding both_decoded decode_base64_bytes
  load private_key public_key =
      both_decoded (decode_base64_bytes atob private_key) (decode_base64_bytes atob public_key)

module _ {CryptoKey : Type 0} (import_jwk : OkpJwk → Option (Imported CryptoKey)) where
  -- The key that is there, or the import of a new one: what is returned, `none` for an error, and
  -- what is kept.
  unfoldable pub get_key : OkpJwk → Option CryptoKey → Option CryptoKey × Option CryptoKey
  get_key jwk (some k) = (some k, some k)
  get_key jwk none = (as_key (import_jwk jwk), as_key (import_jwk jwk))

  unfoldable pub get_signing_key :
      Text → Text → Option CryptoKey → Option CryptoKey × Option CryptoKey
  unfolding get_key
  get_signing_key x d = get_key (record { x = x; d = some d })

  unfoldable pub get_verify_key : Text → Option CryptoKey → Option CryptoKey × Option CryptoKey
  unfolding get_key
  get_verify_key x = get_key (record { x = x; d = none })

-- ===== src/Credentials.antt =====
-- api/src/lib/keys.ts: the secret of a top-level key, the credential that a request presents, and
-- whose usage a credential may read. The text encoder, SHA-256 and the verification of a signed
-- token are parameters: `encode`, `sha256` and `verify_jwt`, which gives the claim `jti` of a
-- token that it accepts (`none` inside where that is no string).
pub mod Liveness
use kamu_llm_gateway.Prelude.{
  ℕ, Bool, true, false, ◌&&◌, ◌||◌, Option, none, some, List, [], ◌∷◌, ◌++◌, Text, codes, is_empty,
  starts_with, to_lower_case, starts_space, trim_start, split, text_eq, take, drop, length, any,
  find, ◌==◌, if◌then◌else◌,
}
use kamu_llm_gateway.Prelude.Hex.{to_hex, pad_start}
use kamu_llm_gateway.Types.{KeyType, Key, SubKeyJwtClaims, is_usable, is_top, is_derived}
use kamu_llm_gateway.Database.{has_id, is_unexpired}

abbrev pub prefix_live : Text
prefix_live = codes "sk_live_"

-- `Array.from(bytes, (b) => b.toString(16).padStart(2, "0")).join("")`
unfoldable pub hex_bytes : List ℕ → Text
hex_bytes [] = []
hex_bytes (b ∷ bytes) = pad_start 2 (to_hex b) ++ hex_bytes bytes

pub record Generated : Type 0 where
  pub secret : Text
  pub hash : Text
  pub prefix : Text

module _ (encode : Text → List ℕ) (sha256 : List ℕ → List ℕ) where
  unfoldable pub hash_key : Text → Text
  hash_key secret = hex_bytes (sha256 (encode secret))

  -- `bytes` are the 32 random ones.
  unfoldable pub generate_top_level_key : List ℕ → Generated
  generate_top_level_key bytes =
      let secret = prefix_live ++ hex_bytes bytes in
      record { secret = secret; hash = hash_key secret; prefix = take 12 secret }

-- The claims of a signed sub-key; jose signs them.
pub record SubKeyJwtPayload : Type 0 where
  pub jti : ℕ
  pub sub : Option ℕ
  pub models : List Text
  pub budget_usd : Option ℕ
  pub metadata : Option Text

unfoldable pub sign_sub_key_jwt {ℓ} :
    {Jwt : Type ℓ} → (SubKeyJwtClaims → Jwt) → SubKeyJwtPayload → ℕ → Jwt
sign_sub_key_jwt sign p exp = sign (record {
  jti = p.jti;
  sub = p.sub;
  models = p.models;
  budget_usd = p.budget_usd;
  exp = exp;
  metadata = p.metadata;
})

-- `.replace(/^Bearer\s+/i, "")`
unfoldable pub strip_bearer : Text → Text
strip_bearer header =
    let rest = drop 6 header in
    if starts_with (to_lower_case header) (codes "bearer") && starts_space rest
    then trim_start rest
    else header

pub record Headers : Type 0 where
  pub x_api_key : Option Text
  pub authorization : Option Text
  pub x_kamuhub_authz : Option Text

abbrev pub or_text : Option Text → Text → Text
or_text none d = d
or_text (some t) _ = t

unfoldable pub extract_credential : Headers → Text
unfolding strip_bearer
extract_credential h = or_text h.x_api_key (strip_bearer (or_text h.authorization []))

pub record UsageScope : Type 0 where
  pub key_id : ℕ
  pub key_type : KeyType

-- The row that a credential names.
pub data Where : Type 0 where
  by_hash : Text → Where
  by_id : ℕ → Where

unfoldable pub has_hash : Text → Option Text → Bool
has_hash h none = false
has_hash h (some t) = text_eq t h

names : Where → Key → Bool
names (by_hash h) k = has_hash h k.key_hash && is_top k.key_type
names (by_id i) k = k.id == i && is_derived k.key_type

-- `status IN ('active', 'over_budget') AND (expires_at IS NULL OR expires_at > now())`
abbrev pub is_live : ℕ → Key → Bool
is_live now k = is_usable k.status && is_unexpired now k.expires_at

-- `COALESCE(k.root_key_id, k.id)`
abbrev pub root_of : Key → ℕ
root_of k = elim k.root_key_id [ none ↦ k.id | some r ↦ r ]

-- The join of a key with its root, under the conditions of the query.
admits : List Key → ℕ → Where → Key → Bool
admits keys now w k =
    names w k && (is_live now k && any (λ r. has_id (root_of k) r && is_live now r) keys)

scope_of : Option Key → Option UsageScope
scope_of none = none
scope_of (some k) = some (record { key_id = k.id; key_type = k.key_type })

unfoldable pub look_up : List Key → ℕ → Where → Option UsageScope
unfolding admits names has_hash scope_of
look_up keys now w = scope_of (find (admits keys now w) keys)

-- The case of a verified token.
by_claim : List Key → ℕ → Option (Option ℕ) → Option UsageScope
by_claim keys now none = none
by_claim keys now (some none) = none
by_claim keys now (some (some jti)) = look_up keys now (by_id jti)

module _ (hash : Text → Text) (verify_jwt : Text → Option (Option ℕ)) where
  unfoldable pub verify_gateway_credential : List Key → ℕ → Text → Option UsageScope
  unfolding by_claim
  verify_gateway_credential keys now presented =
      if starts_with presented prefix_live
      then look_up keys now (by_hash (hash presented))
      else if length (split b'.' presented) == 3
      then by_claim keys now (verify_jwt presented)
      else none

-- ===== src/Keys/Derive.antt =====
-- POST /keys/derive: the checks of the request, the transaction that counts and inserts under the
-- parent's advisory lock, and the handler that runs both. Times are milliseconds, and a lifetime is
-- a number of seconds in thousandths. `hash` is `hashKey`.
pub mod Checks
pub mod Outcomes
pub mod Token
use kamu_llm_gateway.Prelude.{
  ℕ, ◌+◌, ◌*◌, ◌/◌, Bool, true, false, not, ◌&&◌, Option, none, some, List, [], ◌∷◌, Text, codes,
  is_empty, starts_with, trim, count_where, find, ltb, leb, if◌then◌else◌,
}
use kamu_llm_gateway.Http.{Reply, ok, err, ◌>>=◌, ◌>>◌, require, some_or, bearer_token}
use kamu_llm_gateway.Types.{Key, active, derived, is_active, is_top}
use kamu_llm_gateway.Database.{is_id, is_unexpired}
use kamu_llm_gateway.Credentials.{prefix_live, has_hash, SubKeyJwtPayload}
use kamu_llm_gateway.Keys.{ModelsField, absent, strings, ill_typed, star, models_subset}

-- api/src/env.ts, as far as it bounds sub-keys. The lifetimes are in thousandths of a second.
pub record Env : Type 0 where
  pub default_subkey_ttl : ℕ
  pub max_subkey_ttl : ℕ
  pub subkey_derive_rate_per_min : ℕ
  pub subkey_derive_max_active : ℕ

-- `expires_in_seconds`: left out or null, a number that is not negative, a negative one, or
-- anything for which `Number.isFinite` is false.
pub data Lifetime : Type 0 where
  unset : Lifetime
  number : ℕ → Lifetime
  negative not_finite : Lifetime

pub record DeriveBody : Type 0 where
  pub label : Option Text
  pub models : ModelsField
  pub budget_usd : Option ℕ
  pub expires_in_seconds : Lifetime
  pub metadata : Option Text

-- `body.label?.trim() || "derived"`
child_label : Option Text → Text
child_label none = codes "derived"
child_label (some t) = if is_empty (trim t) then codes "derived" else trim t

ill_formed_models : Text
ill_formed_models = codes "models must be a non-empty string array"

unfoldable pub child_models : ModelsField → Reply (List Text)
unfolding ill_formed_models
child_models absent = ok (star ∷ [])
child_models ill_typed = err 400 ill_formed_models
child_models (strings []) = err 400 ill_formed_models
child_models (strings (m ∷ ms)) = ok (m ∷ ms)

requested_ttl : Env → Lifetime → Reply ℕ
requested_ttl env unset = ok env.default_subkey_ttl
requested_ttl env (number ttl) = ok ttl
requested_ttl env _ = err 400 (codes "expires_in_seconds must be a positive number")

-- `Math.floor(t / 1000)`, still in milliseconds.
abbrev pub whole_seconds : ℕ → ℕ
whole_seconds t = t / 1000 * 1000

within_parent : ℕ → Option ℕ → Bool
within_parent exp none = true
within_parent exp (some t) = leb exp (whole_seconds t)

-- The expiry of the child.
unfoldable pub child_expiry : Env → ℕ → Lifetime → Option ℕ → Reply ℕ
unfolding requested_ttl within_parent
child_expiry env now lifetime parent_expires_at = do
  ttl ← requested_ttl env lifetime
  require (ltb 0 ttl) 400 (codes "expires_in_seconds must be a positive number")
  require (leb ttl env.max_subkey_ttl) 400
      (codes "expires_in_seconds exceeds the maximum sub-key TTL")
  let exp = whole_seconds now + ttl
  require (within_parent exp parent_expires_at) 400
      (codes "child expires_at cannot exceed the parent's remaining TTL")
  ok exp

-- What the checks hand to the transaction.
pub record DeriveRequest : Type 0 where
  pub parent : Key
  pub label : Text
  pub models : List Text
  pub budget_usd : Option ℕ
  pub metadata : Option Text
  pub expires_at : ℕ

-- `WHERE key_hash = ${secretHash} AND key_type = 'top'`
abbrev pub is_parent : Text → Key → Bool
is_parent h k = has_hash h k.key_hash && is_top k.key_type

abbrev pub is_null : Option ℕ → Bool
is_null none = true
is_null (some _) = false

module _ (hash : Text → Text) (env : Env) where
  unfoldable pub check_derive : ℕ → Option Text → DeriveBody → List Key → Reply DeriveRequest
  unfolding child_label child_models child_expiry
  check_derive now authorization body keys = do
    let token = bearer_token authorization
    require (not (is_empty token)) 401 (codes "Unauthorized")
    require (starts_with token prefix_live) 401 (codes "derive requires a top-level sk_live_ key")
    parent ← some_or (find (is_parent (hash token)) keys) 401 (codes "Unauthorized")
    require (is_active parent.status) 401 (codes "Unauthorized")
    require (is_null parent.parent_key_id) 403 (codes "key cannot mint sub-keys")
    models ← child_models body.models
    require (models_subset models parent.models) 400
        (codes "child models must be a subset of the parent's models")
    exp ← child_expiry env now body.expires_in_seconds parent.expires_at
    ok (record {
      parent = parent;
      label = child_label body.label;
      models = models;
      budget_usd = body.budget_usd;
      metadata = body.metadata;
      expires_at = exp;
    })

-- `created_at > now() - interval '1 minute'`
abbrev pub is_recent : ℕ → ℕ → Key → Bool
is_recent parent now k = is_id parent k.parent_key_id && ltb now (k.created_at + 60_000)

abbrev pub is_active_child : ℕ → ℕ → Key → Bool
is_active_child parent now k =
    is_id parent k.parent_key_id && (is_active k.status && is_unexpired now k.expires_at)

unfoldable pub child_row : ℕ → ℕ → DeriveRequest → Key
child_row id now r = record {
  id = id;
  team_id = r.parent.team_id;
  label = r.label;
  created_by = none;
  created_at = now;
  models = r.models;
  budget_usd = r.budget_usd;
  status = active;
  revoked_at = none;
  revoked_by = none;
  key_type = derived;
  key_hash = none;
  prefix = none;
  parent_key_id = some r.parent.id;
  root_key_id = r.parent.root_key_id;
  expires_at = some r.expires_at;
  constraints = none;
  metadata = r.metadata;
  updated_at = now;
}

pub data Minted : Type 0 where
  rate_limited too_many_active : Minted
  minted : Key → Minted

-- The transaction. The advisory lock makes it one step among those of the same parent.
unfoldable pub mint : Env → ℕ → ℕ → DeriveRequest → List Key → Minted × List Key
mint env id now r keys =
    if leb env.subkey_derive_rate_per_min (count_where (is_recent r.parent.id now) keys)
    then (rate_limited, keys)
    else if leb env.subkey_derive_max_active (count_where (is_active_child r.parent.id now) keys)
    then (too_many_active, keys)
    else (minted (child_row id now r), child_row id now r ∷ keys)

pub record Derived : Type 0 where
  pub key : Key
  pub claims : SubKeyJwtPayload
  pub exp : ℕ

-- The reply: the row, and what is signed as the sub-key.
reply_of : DeriveRequest → Minted → Reply Derived
reply_of r rate_limited = err 429 (codes "derive rate limit exceeded for this parent")
reply_of r too_many_active = err 429 (codes "too many active children for this parent")
reply_of r (minted child) = ok (record {
  key = child;
  claims = record {
    jti = child.id;
    sub = r.parent.root_key_id;
    models = child.models;
    budget_usd = child.budget_usd;
    metadata = child.metadata;
  };
  exp = r.expires_at;
})

run_mint : Env → ℕ → ℕ → DeriveRequest → List Key → Reply Derived × List Key
unfolding reply_of
run_mint env id later r keys =
    let (outcome, keys') = mint env id later r keys in (reply_of r outcome, keys')

-- The handler: the checks at `now`, and the transaction at the database's `later`.
unfoldable pub derive :
    (Text → Text) → Env → ℕ → ℕ → ℕ → Option Text → DeriveBody → List Key → Reply Derived × List Key
unfolding run_mint
derive hash env id now later authorization body keys =
    elim (check_derive hash env now authorization body keys) [
      | err status message ↦ (err status message, keys)
      | ok r ↦ run_mint env id later r keys
    ]

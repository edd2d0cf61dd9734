-- ===== src/Types.antt =====
-- shared/types.ts: the rows and claims that the surfaces share. Row ids (UUIDs that the code only
-- compares) and times (milliseconds) are numbers, and amounts of money are fixed-point numbers
-- with twelve decimals of a US dollar.
use kamu_llm_gateway.Prelude.{ℕ, Bool, true, false, Option, List, Text}

pub data KeyStatus : Type 0 where
  active revoked over_budget : KeyStatus

pub data KeyType : Type 0 where
  top derived : KeyType

pub data Role : Type 0 where
  owner admin member : Role

pub record Team : Type 0 where
  pub id : ℕ
  pub name : Text
  pub slug : Text
  pub kamuid_org_id : Text
  pub created_at : ℕ
  pub updated_at : ℕ

pub record Membership : Type 0 where
  pub team_id : ℕ
  pub role : Role

-- `root_key_id` is null between the two writes of a mint. Metadata is its JSON text.
pub record Key : Type 0 where
  pub id : ℕ
  pub team_id : ℕ
  pub label : Text
  pub created_by : Option Text
  pub created_at : ℕ
  pub models : List Text
  pub budget_usd : Option ℕ
  pub status : KeyStatus
  pub revoked_at : Option ℕ
  pub revoked_by : Option Text
  pub key_type : KeyType
  pub key_hash : Option Text
  pub prefix : Option Text
  pub parent_key_id : Option ℕ
  pub root_key_id : Option ℕ
  pub expires_at : Option ℕ
  pub constraints : Option Text
  pub metadata : Option Text
  pub updated_at : ℕ

pub record OrgClaim : Type 0 where
  pub id : Text
  pub slug : Text
  pub name : Text
  pub role : Role

pub record ContextOrg : Type 0 where
  pub id : Text
  pub kamuid_org_id : Option Text
  pub slug : Text
  pub name : Text
  pub role : Text
  pub grants : List Text

pub record PlatformContext : Type 0 where
  pub user_id : Text
  pub sub : Text
  pub orgs : List ContextOrg
  pub iat : ℕ
  pub exp : ℕ

pub record SubKeyJwtClaims : Type 0 where
  pub jti : ℕ
  pub sub : Option ℕ
  pub models : List Text
  pub budget_usd : Option ℕ
  pub exp : ℕ
  pub metadata : Option Text

-- `status === "active"`
abbrev pub is_active : KeyStatus → Bool
is_active active = true
is_active _ = false

-- `status IN ('active', 'over_budget')`
abbrev pub is_usable : KeyStatus → Bool
is_usable revoked = false
is_usable _ = true

abbrev pub is_top : KeyType → Bool
is_top top = true
is_top derived = false

abbrev pub is_derived : KeyType → Bool
is_derived derived = true
is_derived top = false

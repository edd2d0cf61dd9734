-- ===== src/Tests/Data.antt =====
-- The data of the tests.
use kamu_llm_gateway.Prelude.{ℕ, Option, none, some, [], ◌∷◌, Text, codes}
use kamu_llm_gateway.Types.{Team, Key, owner, active, top, derived}
use kamu_llm_gateway.Database.{Db, UsageLogRow}
use kamu_llm_gateway.Poller.{UsageRow}
use kamu_llm_gateway.Keys.{star, absent, strings}
use kamu_llm_gateway.Keys.Derive.{Env, DeriveBody, unset}
use kamu_llm_gateway.Keys.Create.{CreateBody}

abbrev pub ann : Text
ann = codes "ann"

abbrev pub team : Team
team = record {
  id = 1;
  name = codes "Team";
  slug = codes "team";
  kamuid_org_id = codes "org";
  created_at = 0;
  updated_at = 0;
}

-- A hash for the tests: the text itself.
abbrev pub plain : Text → Text
plain t = t

abbrev pub no_jwt : Text → Option (Option ℕ)
no_jwt _ = none

abbrev pub secret : Text
secret = codes "sk_live_07"

abbrev pub parent : Key
parent = record {
  id = 7;
  team_id = 1;
  label = codes "parent";
  created_by = some ann;
  created_at = 1_000;
  models = star ∷ [];
  budget_usd = some 10;
  status = active;
  revoked_at = none;
  revoked_by = none;
  key_type = top;
  key_hash = some secret;
  prefix = some secret;
  parent_key_id = none;
  root_key_id = some 7;
  expires_at = none;
  constraints = none;
  metadata = none;
  updated_at = 1_000;
}

abbrev pub child : Key
child = record {
  id = 8;
  team_id = 1;
  label = codes "child";
  created_by = none;
  created_at = 2_000;
  models = codes "m" ∷ [];
  budget_usd = none;
  status = active;
  revoked_at = none;
  revoked_by = none;
  key_type = derived;
  key_hash = none;
  prefix = none;
  parent_key_id = some 7;
  root_key_id = some 7;
  expires_at = some 900_000;
  constraints = none;
  metadata = none;
  updated_at = 2_000;
}

-- A key of its own.
abbrev pub stranger : Key
stranger = record parent { id = 9; key_hash = some (codes "sk_live_09"); root_key_id = some 9 }

abbrev pub db : Db
db = record {
  teams = team ∷ [];
  team_members = record { team_id = 1; user_id = ann; role = owner } ∷ [];
  keys = child ∷ stranger ∷ parent ∷ [];
  usage_log = [];
  key_spend = [];
  model_prices = [];
}

abbrev pub env : Env
env = record {
  default_subkey_ttl = 900_000;
  max_subkey_ttl = 86_400_000;
  subkey_derive_rate_per_min = 10;
  subkey_derive_max_active = 100;
}

abbrev pub derive_body : DeriveBody
derive_body = record {
  label = none;
  models = strings (codes "m" ∷ []);
  budget_usd = none;
  expires_in_seconds = unset;
  metadata = none;
}

abbrev pub create_body : CreateBody
create_body = record {
  team_id = some 1;
  label = some (codes "new");
  models = absent;
  budget_usd = none;
  expires_at = none;
  metadata = none;
}

abbrev pub first_id : Text
first_id = codes "019b76da-a800-7005-8000-000000000001"

-- A request of the sub-key that costs four.
abbrev pub first_row : UsageLogRow
first_row = record {
  usage_id = first_id;
  machine_id = codes "a";
  key_id = 8;
  parent_key_id = some 7;
  root_key_id = some 7;
  model = codes "m";
  cost_usd = some 4;
  price_id = none;
  tokens_in = 1;
  tokens_out = 2;
  cache_read_tokens = 0;
  cache_write_tokens = 0;
  provider_cost = none;
  provider_cost_currency = none;
  created_at = 2_500;
}

-- The feed's row for it.
abbrev pub fed : UsageRow
fed = record {
  usage_id = some first_id;
  machine_id = codes "a";
  key_id = 8;
  parent_key_id = some 7;
  root_key_id = some 7;
  model = codes "m";
  usage = record {
    input_tokens = 1;
    output_tokens = 2;
    cache_read_tokens = 0;
    cache_write_tokens = 0;
  };
  provider_cost = none;
  provider_cost_currency = none;
  created_at = 2_500;
}

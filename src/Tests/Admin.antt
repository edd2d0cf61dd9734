-- ===== src/Tests/Admin.antt =====
-- Examples of the results on the console and on the reading of keys.
use kamu_llm_gateway.Prelude.{
  ℕ, ◌≡◌, ◌≢◌, ◌↔◌, refl, sym, ap, ◌∙◌, inl, inr, true, false, Option, none, some, List, [], ◌∷◌,
  Text, codes, In, length, map, select, Bool-cases, arith, text_eq, is_empty, trim, ◌==◌,
}
use kamu_llm_gateway.Http.{ok}
use kamu_llm_gateway.Types.{Key}
use kamu_llm_gateway.Database.{Db, UsageLogRow}
use kamu_llm_gateway.Credentials.{hash_key, verify_gateway_credential}
use kamu_llm_gateway.Keys.Revoke.{revoke}
use kamu_llm_gateway.Keys.Read.{
  KeyDetail, KeyListRow, in_tree, totals_of, list_keys, key_detail, to_detail_row,
}
use kamu_llm_gateway.Keys.Read.Rollup.{IsOneTeam, key_detail_iff, key_detail_whole}
use kamu_llm_gateway.Admin.{AdminUser}
use kamu_llm_gateway.Admin.Keys.{
  MintForm, with_secret, admin_generate_top_level_key, post_form, revoke_form, revoke_json,
}
use kamu_llm_gateway.Admin.Keys.Revoke.{without_name, revoke_json-revoke}
use kamu_llm_gateway.Admin.Settings.{finite, nan, SettingsRow, save_settings}
use kamu_llm_gateway.Tests.Data.{ann, team, parent, child, db}

abbrev operator : AdminUser
operator = record { id = codes "1"; email = codes "op@x"; name = codes "Op" }

-- A request of the sub-key that costs four.
abbrev log_row : UsageLogRow
log_row = record {
  usage_id = codes "019b76da-a800-7005-8000-000000000001";
  machine_id = codes "a";
  key_id = 8;
  parent_key_id = some 7;
  root_key_id = some 7;
  model = codes "m";
  cost_usd = some 4;
  price_id = none;
  tokens_in = 1;
  tokens_out = 1;
  cache_read_tokens = 0;
  cache_write_tokens = 0;
  provider_cost = none;
  provider_cost_currency = none;
  created_at = 1_500;
}

abbrev used : Db
used = record db { usage_log = log_row ∷ [] }

key_detail_iff_example :
    ((d : KeyDetail) × (key_detail ann 7 used ≡ ok d))
    ↔ ((row : KeyListRow) × In row (list_keys ann used) × (row.id ≡ 7))
key_detail_iff_example = key_detail_iff ann 7 used

abbrev parent_detail : KeyDetail
parent_detail = record { key = to_detail_row parent team; usage = totals_of (log_row ∷ []) }

detailed : key_detail ann 7 used ≡ ok parent_detail
unfolding key_detail kamu_llm_gateway.Database.in_user_teams text_eq
detailed = refl

used-IsOneTeam : IsOneTeam ann 7 used
used-IsOneTeam k r (inl e) same m tree = absurd (ground (arith, ap (λ (x : Key). x.id) e, same))
used-IsOneTeam k r (inr (inl e)) same m tree =
    absurd (ground (arith, ap (λ (x : Key). x.id) e, same))
used-IsOneTeam k r (inr (inr (inr h))) same m tree = absurd h
used-IsOneTeam k r (inr (inr (inl e))) same (inr h) tree = absurd h
used-IsOneTeam k r (inr (inr (inl e))) same (inl f) tree = (
  child,
  inl refl,
  sym (ap (λ (x : UsageLogRow). x.key_id) f),
  sym (ap (λ (x : Key). x.team_id) e),
)

key_detail_whole_example : parent_detail.usage ≡ totals_of (select (in_tree 7) used.usage_log)
key_detail_whole_example = key_detail_whole ann 7 used parent_detail used-IsOneTeam detailed

abbrev form : MintForm
form = record { team_id = some 1; label = some (codes " ci "); budget_usd = none }

abbrev number : Text → Option ℕ
number t = none

abbrev codec : Text → List ℕ
codec t = t

abbrev new_secret : Text
new_secret = codes "sk_live_01"

minted :
    (post_form number 20 3_000 operator
      (admin_generate_top_level_key codec codec (1 ∷ []))
      form
      db).0
    ≡ ok (with_secret new_secret)
unfolding post_form trim kamu_llm_gateway.Admin.Keys.insert_top admin_generate_top_level_key
    kamu_llm_gateway.Credentials.hex_bytes kamu_llm_gateway.Prelude.Hex.to_hex
minted = refl

revoked_two : (revoke 3_000 ann 7 db).0 ≡ ok 2
unfolding revoke kamu_llm_gateway.Database.in_user_teams text_eq
revoked_two = refl

revoke_json-revoke_example :
    ((revoke_json 3_000 operator 7 db).0 ≡ ok 2)
    × (map without_name (revoke_json 3_000 operator 7 db).1.keys
        ≡ map without_name (revoke 3_000 ann 7 db).1.keys)
    × ((revoke_form 3_000 operator 7 db).1 ≡ (revoke_json 3_000 operator 7 db).1)
revoke_json-revoke_example = revoke_json-revoke 3_000 7 2 ann operator db revoked_two

abbrev settings : SettingsRow
settings = record {
  disabled_models = codes "glm" ∷ codes "kimi" ∷ [];
  default_budget_usd = some (finite 5);
  updated_at = 1_000;
  updated_by = none;
}

-- A default that is no number is stored as NaN.
not_a_number :
    (save_settings
      (λ t. nan)
      2_000
      operator
      (record { disabled_models = none; default_budget_usd = some (codes "x") })
      settings).1.default_budget_usd
    ≡ some nan
unfolding save_settings trim
not_a_number = refl

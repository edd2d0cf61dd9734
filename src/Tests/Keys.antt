-- ===== src/Tests/Keys.antt =====
-- Examples of the results on keys.
use kamu_llm_gateway.Prelude.{
  ℕ, ◌≡◌, ◌≢◌, ◌↔◌, refl, inl, inr, true, Option, none, some, List, [], ◌∷◌, Text, codes, In, arith,
  text_eq, ap, split, length, starts_with, false, ◌==◌,
}
use kamu_llm_gateway.Http.{ok, bearer_token}
use kamu_llm_gateway.Types.{Key, KeyType, SubKeyJwtClaims, top}
use kamu_llm_gateway.Database.{in_user_teams}
use kamu_llm_gateway.Credentials.{
  UsageScope, Generated, root_of, look_up, verify_gateway_credential, hash_key,
  generate_top_level_key, hex_bytes, sign_sub_key_jwt, prefix_live,
}
use kamu_llm_gateway.Credentials.Liveness.{IsAdmitted, verify-IsAdmitted}
use kamu_llm_gateway.Keys.{star, models_subset, includes}
use kamu_llm_gateway.Keys.Subset.{allows, models_subset_iff}
use kamu_llm_gateway.Keys.Create.{Created, new_key, create}
use kamu_llm_gateway.Keys.Create.Secret.{create-verifies}
use kamu_llm_gateway.Keys.Revoke.{revoke}
use kamu_llm_gateway.Keys.Derive.{DeriveRequest, Derived, child_row, check_derive, mint, derive}
use kamu_llm_gateway.Keys.Derive.Checks.{IsGranted, IsMinted, derive_attenuates}
use kamu_llm_gateway.Keys.Derive.Token.{OwnRoots, derive-verifies}
use kamu_llm_gateway.System.{World, here, next, Reach, mint_key, tick}
use kamu_llm_gateway.System.Revocation.{revocation_is_final}
use kamu_llm_gateway.System.Caps.{IsCapped, Reach-IsCapped}
use kamu_llm_gateway.Tests.Data.{
  ann, plain, no_jwt, secret, parent, db, env, derive_body, create_body,
}

abbrev request : DeriveRequest
request = record {
  parent = parent;
  label = codes "derived";
  models = codes "m" ∷ [];
  budget_usd = none;
  metadata = none;
  expires_at = 903_000;
}

-- A derive request has been checked.
abbrev first_world : World
first_world = record { now = 3_000; db = db; checked = request ∷ [] }

abbrev stopped : World
stopped = record first_world { db = (revoke 3_000 ann 7 db).1 }

-- The sub-key is inserted after the revocation, and time passes.
abbrev late : World
late = record stopped {
  db = record stopped.db { keys = (mint env 10 3_000 request stopped.db.keys).1 };
}

abbrev later : World
later = record late { now = 4_000 }

revoked_two : (revoke 3_000 ann 7 db).0 ≡ ok 2
unfolding revoke in_user_teams text_eq
revoked_two = refl

run : Reach plain env stopped later
unfolding revoke in_user_teams text_eq kamu_llm_gateway.Database.update_where
run = next (next here (mint_key 10 request (inl refl) refl)) (tick 4_000 (omega arith))

abbrev scope : UsageScope
scope = record { key_id = 9; key_type = top }

-- Only key 9 is accepted.
accepted :
    verify_gateway_credential plain no_jwt later.db.keys 4_000 (codes "sk_live_09") ≡ some scope
unfolding revoke verify_gateway_credential look_up kamu_llm_gateway.Prelude.starts_with mint
    in_user_teams text_eq kamu_llm_gateway.Database.update_where child_row
accepted = refl

revocation_is_final_example :
    (k : Key) × In k later.db.keys × (9 ≡ k.id) × (k.id ≢ 7) × (root_of k ≢ 7)
revocation_is_final_example =
    revocation_is_final 7 plain env no_jwt ann 2 first_world later refl revoked_two run
      (codes "sk_live_09") scope accepted

Reach-IsCapped_example : IsCapped env 7 4_000 later.db.keys
unfolding revoke in_user_teams text_eq kamu_llm_gateway.Database.update_where
Reach-IsCapped_example =
    Reach-IsCapped env 7 plain run (record { slow = omega arith; few = omega arith })

models_subset_iff_example :
    (models_subset (codes "m" ∷ []) (star ∷ []) ≡ true)
    ↔ ((m : Text) → allows (codes "m" ∷ []) m ≡ true → allows (star ∷ []) m ≡ true)
models_subset_iff_example = models_subset_iff (codes "m" ∷ []) (star ∷ [])

accepted_parent :
    verify_gateway_credential plain no_jwt db.keys 3_000 secret
    ≡ some (record { key_id = 7; key_type = top })
unfolding verify_gateway_credential look_up kamu_llm_gateway.Prelude.starts_with text_eq
accepted_parent = refl

verify-IsAdmitted_example : IsAdmitted db.keys 3_000 (record { key_id = 7; key_type = top })
verify-IsAdmitted_example =
    verify-IsAdmitted db.keys 3_000 plain no_jwt secret (record { key_id = 7; key_type = top })
      accepted_parent

abbrev made : Generated
made = generate_top_level_key plain plain (1 ∷ 2 ∷ [])

abbrev created : Created
created = record {
  key =
      record (new_key 10 3_000 ann made create_body
        (record { team_id = 1; label = codes "new"; models = star ∷ [] })) {
          root_key_id = some 10;
        };
  secret = made.secret;
}

created_ok : (create 10 3_000 ann made create_body db).0 ≡ ok created
unfolding create kamu_llm_gateway.Keys.Create.check_create kamu_llm_gateway.Prelude.trim
    in_user_teams text_eq
created_ok = refl

create-verifies_example :
    verify_gateway_credential
      (hash_key plain plain)
      no_jwt
      (create 10 3_000 ann made create_body db).1.keys
      3_000
      created.secret
    ≢ none
create-verifies_example =
    create-verifies plain plain (1 ∷ 2 ∷ []) no_jwt 10 3_000 ann create_body db created created_ok
      refl

abbrev derived_row : Key
derived_row = child_row 10 3_000 request

abbrev derived : Derived
derived = record {
  key = derived_row;
  claims = record {
    jti = 10;
    sub = some 7;
    models = codes "m" ∷ [];
    budget_usd = none;
    metadata = none;
  };
  exp = 903_000;
}

abbrev bearer : Option Text
bearer = some (codes "Bearer sk_live_07")

derived_ok :
    derive plain env 10 3_000 3_000 bearer derive_body db.keys ≡ (ok derived, derived_row ∷ db.keys)
unfolding derive check_derive bearer_token kamu_llm_gateway.Prelude.starts_with
    kamu_llm_gateway.Prelude.to_lower_case kamu_llm_gateway.Prelude.trim
    kamu_llm_gateway.Credentials.has_hash text_eq models_subset mint child_row
derived_ok = refl

derive_attenuates_example :
    (r : DeriveRequest) × IsGranted plain env 3_000 (bearer_token bearer) db.keys r
    × IsMinted 10 3_000 r db.keys (derived_row ∷ db.keys) derived
derive_attenuates_example =
    derive_attenuates plain env 10 3_000 3_000 bearer derive_body db.keys (derived_row ∷ db.keys)
      derived derived_ok

own_roots : OwnRoots db.keys
own_roots k m is_top = elim m [
  | inl at_child ↦ absurd (cc (is_top, ap (λ (x : Key). x.key_type) at_child))
  | inr (inl at_stranger) ↦ rw at_stranger refl
  | inr (inr (inl at_parent)) ↦ rw at_parent refl
  | inr (inr (inr none_left)) ↦ absurd none_left
]

abbrev sign : SubKeyJwtClaims → Text
sign claims = codes "e30.e30.c2ln"

abbrev read_jti : Text → Option (Option ℕ)
read_jti t = some (some 10)

three_parts : (length (split b'.' (sign_sub_key_jwt sign derived.claims derived.exp)) == 3) ≡ true
unfolding sign_sub_key_jwt split
three_parts = refl

no_prefix : starts_with (sign_sub_key_jwt sign derived.claims derived.exp) prefix_live ≡ false
unfolding sign_sub_key_jwt starts_with
no_prefix = refl

derive-verifies_example :
    verify_gateway_credential plain read_jti
      (derived_row ∷ db.keys)
      9_000
      (sign_sub_key_jwt sign derived.claims derived.exp)
    ≡ some (record { key_id = 10; key_type = KeyType.derived })
derive-verifies_example =
    derive-verifies plain env 10 3_000 3_000 bearer derive_body db.keys (derived_row ∷ db.keys)
      derived sign read_jti 9_000 derived_ok own_roots no_prefix three_parts refl (omega arith)

-- ===== src/Keys/Create/Secret.antt =====
-- The secret that a create returns is a working credential.
use kamu_llm_gateway.Prelude.{
  ℕ, ◌≡◌, ◌≢◌, refl, inl, true, Option, none, List, Text, In, starts_with, text_eq_refl, ==_iff,
}
use kamu_llm_gateway.Http.{ok}
use kamu_llm_gateway.Database.{Db, is_unexpired, update_where}
use kamu_llm_gateway.Credentials.{
  hash_key, Generated, generate_top_level_key, has_hash, verify_gateway_credential,
}
use kamu_llm_gateway.Credentials.Liveness.{verify_secret}
use kamu_llm_gateway.Keys.Create.{CreateBody, Created, CreateRequest, new_key, own_root, create}
use kamu_llm_gateway.Keys.Create.Outcomes.{with_row, create_ok}

module _ (encode : Text → List ℕ) (sha256 : List ℕ → List ℕ) (bytes : List ℕ) where
  abbrev generated : Generated
  generated = generate_top_level_key encode sha256 bytes

  row_verifies :
      (verify_jwt : Text → Option (Option ℕ)) (id now : ℕ) (user : Text) (body : CreateBody)
      (db : Db) (r : CreateRequest)
      → is_unexpired now body.expires_at ≡ true
      → verify_gateway_credential
          (hash_key encode sha256)
          verify_jwt
          (with_row id now user generated body db r).keys
          now
          generated.secret
        ≢ none
  unfolding generate_top_level_key update_where new_key starts_with has_hash
  row_verifies verify_jwt id now user body db r live =
      let key = own_root now (new_key id now user generated body r) in
      let first : In key (with_row id now user generated body db r).keys =
        inl (rw ((==_iff id id).1 refl) refl) in
      verify_secret (with_row id now user generated body db r).keys now (hash_key encode sha256)
        verify_jwt generated.secret key key refl first (text_eq_refl generated.hash) refl live first
        refl live

  -- The secret that a successful create returns is accepted from then on, if the key's expiry is
  -- in the future, whatever the hash function and the other rows are.
  pub create-verifies :
      (verify_jwt : Text → Option (Option ℕ)) (id now : ℕ) (user : Text) (body : CreateBody)
      (db : Db) (c : Created)
      → (create id now user (generate_top_level_key encode sha256 bytes) body db).0 ≡ ok c
      → is_unexpired now body.expires_at ≡ true
      → verify_gateway_credential
          (hash_key encode sha256)
          verify_jwt
          (create id now user (generate_top_level_key encode sha256 bytes) body db).1.keys
          now
          c.secret
        ≢ none
  create-verifies verify_jwt id now user body db c e live =
      let (secret, (r, written)) = create_ok id now user generated body db c e in
      rw (secret, written) (row_verifies verify_jwt id now user body db r live)

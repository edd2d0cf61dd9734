-- ===== src/Keys/Derive/Token.antt =====
-- The signed sub-key that a derive returns is a working credential.
use kamu_llm_gateway.Prelude.{
  ℕ, ◌<◌, ◌≡◌, refl, sym, ap, ap₂, ◌∙◌, inr, true, false, Option, none, some, List, arith, Text, In,
  split, length, starts_with, subst, ◌==◌,
}
use kamu_llm_gateway.Http.{ok}
use kamu_llm_gateway.Types.{Key, KeyType, SubKeyJwtClaims, top, derived, is_derived}
use kamu_llm_gateway.Database.{is_unexpired}
use kamu_llm_gateway.Credentials.{
  prefix_live, root_of, is_live, verify_gateway_credential, sign_sub_key_jwt,
}
use kamu_llm_gateway.Credentials.Liveness.{verify_token}
use kamu_llm_gateway.Keys.Derive.{Env, DeriveBody, Derived, derive}
use kamu_llm_gateway.Keys.Derive.Checks.{EndsBy, derive_attenuates}

-- A top-level key is its own root, as a create leaves it.
abbrev pub OwnRoots : List Key → Type 0
OwnRoots keys = (k : Key) → In k keys → k.key_type ≡ top → k.root_key_id ≡ some k.id

unexpired_before :
    (now exp : ℕ) (end : Option ℕ) → now < exp → EndsBy exp end → is_unexpired now end ≡ true
unexpired_before now exp none early ends = refl
unexpired_before now exp (some t) early ends = ground arith

some_inj : {a b : ℕ} → some a ≡ some b → a ≡ b
some_inj e = cc e

root_of_child : (k : Key) (i : ℕ) → k.root_key_id ≡ some i → root_of k ≡ i
root_of_child k i e = rw e refl

module _ (hash : Text → Text) (env : Env) (id now later : ℕ) (authorization : Option Text)
    (body : DeriveBody) (keys keys' : List Key) (d : Derived) where
  -- The token that a successful derive hands out is accepted as its sub-key until it expires, as long
  -- as nothing else is written, if top-level keys are their own roots and the verification reads the
  -- claim `jti` back from the three parts of the signed token.
  pub derive-verifies :
      (sign : SubKeyJwtClaims → Text) (verify_jwt : Text → Option (Option ℕ)) (at : ℕ)
      → derive hash env id now later authorization body keys ≡ (ok d, keys')
      → OwnRoots keys
      → starts_with (sign_sub_key_jwt sign d.claims d.exp) prefix_live ≡ false
      → (length (split b'.' (sign_sub_key_jwt sign d.claims d.exp)) == 3) ≡ true
      → verify_jwt (sign_sub_key_jwt sign d.claims d.exp) ≡ some (some d.claims.jti)
      → at < d.exp
      → verify_gateway_credential hash verify_jwt keys' at (sign_sub_key_jwt sign d.claims d.exp)
        ≡ some (record { key_id = id; key_type = derived })
  derive-verifies sign verify_jwt at e roots other parts claim early =
      let (r, granted, made) =
        derive_attenuates hash env id now later authorization body keys keys' d e in
      let own : d.key.root_key_id ≡ some r.parent.id =
        made.same_root ∙ roots r.parent granted.listed granted.is_top_level in
      let ends : d.key.expires_at ≡ some d.exp = sym made.claimed_end in
      let alive : is_live at d.key ≡ true = rw (made.is_alive, ends) (ground (arith, early)) in
      let same_end : d.exp ≡ r.expires_at = some_inj (made.claimed_end ∙ made.ends) in
      let parent_alive : is_live at r.parent ≡ true =
        rw
          (
            granted.is_alive,
            unexpired_before at r.expires_at r.parent.expires_at (rw same_end at early)
                granted.bounded.inside,
          )
          refl in
      let accepted =
        verify_token keys' at hash verify_jwt (sign_sub_key_jwt sign d.claims d.exp) d.key r.parent
          keys made.inserted other parts (claim ∙ ap (λ j. some (some j)) made.jti_is)
          (ap is_derived made.is_sub_key) alive
          (subst (In r.parent) (sym made.inserted) (inr granted.listed))
          (sym (root_of_child d.key r.parent.id own)) parent_alive in
      accepted
      ∙ ap₂ (λ (i : ℕ) (t : KeyType). some (record { key_id = i; key_type = t })) made.id_is
          made.is_sub_key

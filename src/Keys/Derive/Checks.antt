-- ===== src/Keys/Derive/Checks.antt =====
-- What a derive request has passed when it reaches the transaction, and the row that it mints.
use kamu_llm_gateway.Prelude.{
  ℕ, ◌+◌, ◌≤◌, ◌<◌, ◌≡◌, refl, subst, ap, ap₂, true, not, Option, none, some, List, ◌∷◌, arith,
  Text, text_eq_iff, is_empty, starts_with, find, find-eq-some, In, ltb, leb, ltb→lt, leb→le,
  Option-cases, inl, inr,
}
use kamu_llm_gateway.Http.{
  Reply, ok, >>=-eq-ok, require-then, some_or-then, bearer_token, ok-injective, Reply-cases,
}
use kamu_llm_gateway.Types.{Key, KeyStatus, active, top, derived, is_active}
use kamu_llm_gateway.Credentials.{prefix_live, has_hash}
use kamu_llm_gateway.Credentials.Liveness.{is_top_sound}
use kamu_llm_gateway.Keys.{models_subset}
use kamu_llm_gateway.Keys.Subset.{allows, models_subset_iff}
use kamu_llm_gateway.Keys.Derive.Outcomes.{mint-cases}
use kamu_llm_gateway.Keys.Derive.{
  Env, Lifetime, DeriveBody, DeriveRequest, child_models, child_expiry, whole_seconds,
  within_parent, is_parent, is_null, check_derive, minted, child_row, Derived, reply_of, run_mint,
  derive, requested_ttl,
}

-- Not after the parent's end.
abbrev pub EndsBy : ℕ → Option ℕ → Type 0
EndsBy exp none = Unit
EndsBy exp (some t) = exp ≤ t

within_parent-EndsBy : (exp : ℕ) (end : Option ℕ) → within_parent exp end ≡ true → EndsBy exp end
unfolding within_parent
within_parent-EndsBy exp none h = tt
within_parent-EndsBy exp (some t) h = omega (arith, leb→le exp (whole_seconds t) h)

-- An expiry after the current second, within the ceiling and the parent's own life.
pub record IsBounded (env : Env) (now : ℕ) (end : Option ℕ) (exp : ℕ) : Type 0 where
  pub later : whole_seconds now < exp
  pub capped : exp ≤ now + env.max_subkey_ttl
  pub inside : EndsBy exp end

child_expiry-IsBounded :
    (env : Env) (now : ℕ) (l : Lifetime) (end : Option ℕ) (exp : ℕ)
    → child_expiry env now l end ≡ ok exp
    → IsBounded env now end exp
unfolding child_expiry
child_expiry-IsBounded env now l end exp e =
    let (ttl, _, e₁) = >>=-eq-ok (requested_ttl env l) _ e in
    let (pos, e₂) = require-then (ltb 0 ttl) _ _ _ e₁ in
    let (cap, e₃) = require-then (leb ttl env.max_subkey_ttl) _ _ _ e₂ in
    let (ins, e₄) = require-then (within_parent (whole_seconds now + ttl) end) _ _ _ e₃ in
    let same : whole_seconds now + ttl ≡ exp = cc e₄ in
    let above = ltb→lt 0 ttl pos in
    let below = leb→le ttl env.max_subkey_ttl cap in
    record {
      later = omega (arith, above, same);
      capped = omega (arith, below, same);
      inside = within_parent-EndsBy exp end (rw same at ins);
    }

is_active_sound : (s : KeyStatus) → is_active s ≡ true → s ≡ active
is_active_sound active e = refl
is_active_sound _ e = cc

is_null_sound : (o : Option ℕ) → is_null o ≡ true → o ≡ none
is_null_sound none e = refl
is_null_sound (some i) e = cc

-- The conditions of ADR 0001 §7 on a request, for the key that holds the presented secret.
pub record IsGranted (hash : Text → Text) (env : Env) (now : ℕ) (token : Text) (keys : List Key)
    (r : DeriveRequest) : Type 0 where
  pub listed : In r.parent keys
  pub secret : r.parent.key_hash ≡ some (hash token)
  pub is_top_level : r.parent.key_type ≡ top
  pub is_alive : r.parent.status ≡ active
  pub is_not_derived : r.parent.parent_key_id ≡ none
  pub attenuates : (m : Text) → allows r.models m ≡ true → allows r.parent.models m ≡ true
  pub bounded : IsBounded env now r.parent.expires_at r.expires_at

is_parent_sound :
    (h : Text) (k : Key) → is_parent h k ≡ true → (k.key_hash ≡ some h) × (k.key_type ≡ top)
unfolding has_hash
is_parent_sound h k e = elim (Option-cases k.key_hash) [
  | inl missing ↦ cc (rw missing at e)
  | inr (t, found) ↦ (
    rw found (ap some ((text_eq_iff t h).0 (ground arith))),
    is_top_sound k.key_type (ground arith),
  )
]

module _ (hash : Text → Text) (env : Env) (now : ℕ) (authorization : Option Text)
    (body : DeriveBody) (keys : List Key) where
  check_derive-IsGranted :
      (r : DeriveRequest)
      → check_derive hash env now authorization body keys ≡ ok r
      → IsGranted hash env now (bearer_token authorization) keys r
  unfolding check_derive
  check_derive-IsGranted r e =
      let token = bearer_token authorization in
      let (_, e₁) = require-then (not (is_empty token)) _ _ _ e in
      let (_, e₂) = require-then (starts_with token prefix_live) _ _ _ e₁ in
      let (parent, found, e₃) = some_or-then (find (is_parent (hash token)) keys) _ _ _ e₂ in
      let (alive, e₄) = require-then (is_active parent.status) _ _ _ e₃ in
      let (whole, e₅) = require-then (is_null parent.parent_key_id) _ _ _ e₄ in
      let (models, _, e₆) = >>=-eq-ok (child_models body.models) _ e₅ in
      let (sub, e₇) = require-then (models_subset models parent.models) _ _ _ e₆ in
      let (exp, ends, e₈) =
        >>=-eq-ok (child_expiry env now body.expires_in_seconds parent.expires_at) _ e₇ in
      let (here, fits) = find-eq-some (is_parent (hash token)) keys found in
      let (secret, top_level) = is_parent_sound (hash token) parent fits in
      subst (IsGranted hash env now token keys) (ok-injective e₈) (record {
        listed = here;
        secret = secret;
        is_top_level = top_level;
        is_alive = is_active_sound parent.status alive;
        is_not_derived = is_null_sound parent.parent_key_id whole;
        attenuates = (models_subset_iff models parent.models).0 sub;
        bounded = child_expiry-IsBounded env now body.expires_in_seconds parent.expires_at exp ends;
      })

-- What a successful derive has done: one row more, which carries the parent's team and lineage, and
-- claims that are those of the row.
pub record IsMinted (id later : ℕ) (r : DeriveRequest) (keys keys' : List Key) (d : Derived)
    : Type 0 where
  pub inserted : keys' ≡ d.key ∷ keys
  pub id_is : d.key.id ≡ id
  pub same_team : d.key.team_id ≡ r.parent.team_id
  pub parent_is : d.key.parent_key_id ≡ some r.parent.id
  pub same_root : d.key.root_key_id ≡ r.parent.root_key_id
  pub is_sub_key : d.key.key_type ≡ derived
  pub no_secret : d.key.key_hash ≡ none
  pub is_alive : d.key.status ≡ active
  pub models_are : d.key.models ≡ r.models
  pub budget_is : d.key.budget_usd ≡ r.budget_usd
  pub metadata_is : d.key.metadata ≡ r.metadata
  pub ends : d.key.expires_at ≡ some r.expires_at
  pub jti_is : d.claims.jti ≡ d.key.id
  pub sub_is : d.claims.sub ≡ d.key.root_key_id
  pub claimed_models : d.claims.models ≡ d.key.models
  pub claimed_budget : d.claims.budget_usd ≡ d.key.budget_usd
  pub claimed_metadata : d.claims.metadata ≡ d.key.metadata
  pub claimed_end : some d.exp ≡ d.key.expires_at

pair_of :
    {a b : Derived} {xs ys : List Key}
    → ◌≡◌ {A = Reply Derived × List Key} (ok a, xs) (ok b, ys)
    → ◌≡◌ {A = Derived × List Key} (a, xs) (b, ys)
pair_of e =
    ap₂ (λ (x : Derived) (l : List Key). (x, l))
      (ok-injective (ap (λ (p : Reply Derived × List Key). p.0) e))
      (ap (λ (p : Reply Derived × List Key). p.1) e)

module _ (hash : Text → Text) (env : Env) (id now later : ℕ) (authorization : Option Text)
    (body : DeriveBody) (keys keys' : List Key) (d : Derived) where
  status_of :
      {m : Reply Derived} → ◌≡◌ {A = Reply Derived × List Key} (m, keys) (ok d, keys') → m ≡ ok d
  status_of e = ap (λ (p : Reply Derived × List Key). p.0) e

  minted_of :
      (r : DeriveRequest)
      → ◌≡◌ {A = Reply Derived × List Key}
          (reply_of r (minted (child_row id later r)), child_row id later r ∷ keys)
          (ok d, keys')
      → IsMinted id later r keys keys' d
  unfolding reply_of child_row
  minted_of r e =
      subst (λ (p : Derived × List Key). IsMinted id later r keys p.1 p.0) (pair_of e)
        (record {
          inserted = refl;
          id_is = refl;
          same_team = refl;
          parent_is = refl;
          same_root = refl;
          is_sub_key = refl;
          no_secret = refl;
          is_alive = refl;
          models_are = refl;
          budget_is = refl;
          metadata_is = refl;
          ends = refl;
          jti_is = refl;
          sub_is = refl;
          claimed_models = refl;
          claimed_budget = refl;
          claimed_metadata = refl;
          claimed_end = refl;
        })

  run_mint-IsMinted :
      (r : DeriveRequest)
      → run_mint env id later r keys ≡ (ok d, keys')
      → IsMinted id later r keys keys' d
  unfolding run_mint
  run_mint-IsMinted r e = elim (mint-cases env id later r keys) [
    | inl limited ↦ cc (status_of (rw limited at e))
    | inr (inl full) ↦ cc (status_of (rw full at e))
    | inr (inr passes) ↦ minted_of r (rw passes.inserts at e)
  ]

  -- A derive that succeeds was presented with the secret of a listed, active top-level key that is
  -- no sub-key itself. It inserts one row: of the parent's team, with the parent and its root as
  -- lineage, with a model allowlist that admits nothing beyond the parent's, and with an expiry that
  -- is in the future, within the absolute ceiling and not after the parent's. The claims to be
  -- signed, the metadata included, are those of the row.
  pub derive_attenuates :
      derive hash env id now later authorization body keys ≡ (ok d, keys')
      → (r : DeriveRequest) × IsGranted hash env now (bearer_token authorization) keys r
        × IsMinted id later r keys keys' d
  unfolding derive
  derive_attenuates e = elim (Reply-cases (check_derive hash env now authorization body keys)) [
    | inl (r, passed) ↦ (
      r,
      check_derive-IsGranted hash env now authorization body keys r passed,
      run_mint-IsMinted r (rw (passed, derive) at e),
    )
    | inr (status, message, failed) ↦
        cc (ap (λ (p : Reply Derived × List Key). p.0) (rw (failed, derive) at e))
  ]

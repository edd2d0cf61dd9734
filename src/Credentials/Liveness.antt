-- ===== src/Credentials/Liveness.antt =====
-- Which keys a credential is accepted for.
use kamu_llm_gateway.Prelude.{
  ℕ, ◌≡◌, ◌≢◌, ap, sym, All-In, refl, inl, inr, Bool, true, false, ◌&&◌, Option, none, some, List,
  ◌∷◌, ◌∙◌, ==_iff, arith, Text, text_eq_iff, starts_with, split, length, In, In_of_any, find,
  find-eq-some, find-eq-none, any, any_of_In, ◌==◌, Bool-cases, Option-cases,
}
use kamu_llm_gateway.Types.{Key, KeyType, top, derived, is_top, is_derived}
use kamu_llm_gateway.Database.{has_id}
use kamu_llm_gateway.Credentials.{
  Where, by_hash, by_id, UsageScope, has_hash, names, admits, scope_of, look_up, by_claim, root_of,
  is_live, prefix_live, verify_gateway_credential,
}

pub and_split : (a : Bool) {b : Bool} → (a && b) ≡ true → (a ≡ true) × (b ≡ true)
and_split true e = (refl, e)
and_split false e = cc e

pub is_top_sound : (t : KeyType) → is_top t ≡ true → t ≡ top
is_top_sound top e = refl
is_top_sound derived e = cc

is_derived_sound : (t : KeyType) → is_derived t ≡ true → t ≡ derived
is_derived_sound derived e = refl
is_derived_sound top e = cc

module _ (keys : List Key) (now : ℕ) where
  -- The scope is a live key of the table, and the root of that key is live too.
  pub record IsAdmitted (scope : UsageScope) : Type 0 where
    pub key : Key
    pub stored : In key keys
    pub same_id : scope.key_id ≡ key.id
    pub same_type : scope.key_type ≡ key.key_type
    pub live : is_live now key ≡ true
    pub root : Key
    pub root_stored : In root keys
    pub root_id : root.id ≡ root_of key
    pub root_live : is_live now root ≡ true

  -- An admitted scope whose key the credential names.
  abbrev IsFound : Where → UsageScope → Type 0
  IsFound w scope = (a : IsAdmitted scope) × (names w a.key ≡ true)

  admits-IsFound :
      (w : Where) (scope : UsageScope) (k : Key)
      → find (admits keys now w) keys ≡ some k
      → scope_of (some k) ≡ some scope
      → IsFound w scope
  unfolding admits scope_of
  admits-IsFound w scope k found e =
      let (m, passes) = find-eq-some (admits keys now w) keys found in
      let passed : (names w k
            && (is_live now k && any (λ r. has_id (root_of k) r && is_live now r) keys))
          ≡ true =
        passes in
      let (named, rest) = and_split (names w k) passed in
      let (live, rooted) = and_split (is_live now k) rest in
      let (root, there, both) =
        In_of_any (λ r. has_id (root_of k) r && is_live now r) keys rooted in
      let (hit, root_live) = and_split (has_id (root_of k) root) both in
      (
        record {
          key = k;
          stored = m;
          same_id =
              ap (λ (o : Option UsageScope). elim o [ none ↦ k.id | some x ↦ x.key_id ]) (sym e);
          same_type =
              ap (λ (o : Option UsageScope). elim o [ none ↦ k.key_type | some x ↦ x.key_type ])
                (sym e);
          live = live;
          root = root;
          root_stored = there;
          root_id = ground arith;
          root_live = root_live;
        },
        named,
      )

  look_up-IsFound :
      (w : Where) (scope : UsageScope) → look_up keys now w ≡ some scope → IsFound w scope
  unfolding look_up scope_of
  look_up-IsFound w scope e = elim (Option-cases (find (admits keys now w) keys)) [
    | inl missing ↦ cc (rw missing at e)
    | inr (k, found) ↦ admits-IsFound w scope k found (rw found at e)
  ]

  by_claim-IsFound :
      (claim : Option (Option ℕ)) (scope : UsageScope)
      → by_claim keys now claim ≡ some scope
      → (jti : ℕ) × (claim ≡ some (some jti)) × IsFound (by_id jti) scope
  unfolding by_claim
  by_claim-IsFound none scope e = cc e
  by_claim-IsFound (some none) scope e = cc e
  by_claim-IsFound (some (some jti)) scope e = (jti, refl, look_up-IsFound (by_id jti) scope e)

  look_up_of_admits :
      (w : Where) (k : Key) → In k keys → admits keys now w k ≡ true → look_up keys now w ≢ none
  unfolding look_up scope_of
  look_up_of_admits w k m passes e = elim (Option-cases (find (admits keys now w) keys)) [
    | inl missing ↦ cc (
      passes,
      All-In (λ x. admits keys now w x ≡ false) k keys
          (find-eq-none (admits keys now w) keys missing) m,
    )
    | inr (j, found) ↦ cc (rw found at e)
  ]

  module _ (hash : Text → Text) (verify_jwt : Text → Option (Option ℕ)) where
    -- The key that a presented credential names: the top-level key that stores its hash, or the
    -- sub-key that the claim of its token is the id of.
    pub data IsNamed (presented : Text) (key : Key) : Type 0 where
      by_secret :
          starts_with presented prefix_live ≡ true
          → key.key_hash ≡ some (hash presented)
          → key.key_type ≡ top
          → IsNamed presented key
      by_token :
          starts_with presented prefix_live ≡ false
          → verify_jwt presented ≡ some (some key.id)
          → key.key_type ≡ derived
          → IsNamed presented key

    names_secret :
        (h : Text) (k : Key)
        → names (by_hash h) k ≡ true
        → (k.key_hash ≡ some h) × (k.key_type ≡ top)
    unfolding names has_hash
    names_secret h k e = elim (Option-cases k.key_hash) [
      | inl missing ↦ cc (rw missing at e)
      | inr (t, found) ↦ (
        rw found (ap some ((text_eq_iff t h).0 (ground arith))),
        is_top_sound k.key_type (ground arith),
      )
    ]

    names_claim : (i : ℕ) (k : Key) → names (by_id i) k ≡ true → (k.id ≡ i) × (k.key_type ≡ derived)
    unfolding names
    names_claim i k e =
        ((==_iff k.id i).0 (ground arith), is_derived_sound k.key_type (ground arith))

    -- A credential is accepted only for the key that it names, which is live, as is its root.
    pub verify-IsNamed :
        (presented : Text) (scope : UsageScope)
        → verify_gateway_credential hash verify_jwt keys now presented ≡ some scope
        → (a : IsAdmitted scope) × IsNamed presented a.key
    unfolding verify_gateway_credential
    verify-IsNamed presented scope e = elim (Bool-cases (starts_with presented prefix_live)) [
      | inl live ↦
          let (a, named) = look_up-IsFound (by_hash (hash presented)) scope (rw live at e) in
          let (stored, is) = names_secret (hash presented) a.key named in
          (a, by_secret live stored is)
      | inr other ↦ elim (Bool-cases (length (split b'.' presented) == 3)) [
        | inl token ↦
            let (jti, claim, (a, named)) =
              by_claim-IsFound (verify_jwt presented) scope (rw (other, token) at e) in
            let (same, is) = names_claim jti a.key named in
            (a, by_token other (claim ∙ ap (λ (i : ℕ). some (some i)) (sym same)) is)
        | inr neither ↦ cc (rw (other, neither) at e)
      ]
    ]

    -- A credential is accepted only for a live key whose root is live: neither is revoked or
    -- expired.
    pub verify-IsAdmitted :
        (presented : Text) (scope : UsageScope)
        → verify_gateway_credential hash verify_jwt keys now presented ≡ some scope
        → IsAdmitted scope
    verify-IsAdmitted presented scope e = (verify-IsNamed presented scope e).0

    -- The secret of a live top-level key is accepted, if its root is live.
    pub verify_secret :
        (presented : Text) (k root : Key)
        → starts_with presented prefix_live ≡ true
        → In k keys
        → has_hash (hash presented) k.key_hash ≡ true
        → is_top k.key_type ≡ true
        → is_live now k ≡ true
        → In root keys
        → root.id ≡ root_of k
        → is_live now root ≡ true
        → verify_gateway_credential hash verify_jwt keys now presented ≢ none
    unfolding verify_gateway_credential admits names
    verify_secret presented k root live m h t l rm ri rl e =
        let here : any (λ r. has_id (root_of k) r && is_live now r) keys ≡ true =
          any_of_In (λ r. has_id (root_of k) r && is_live now r) root keys rm
            (ground (arith, ri, rl)) in
        look_up_of_admits (by_hash (hash presented)) k m (rw (h, t, l, here)) (rw live at e)

    -- A token of three parts, whose claim names a live sub-key at the head of the table, is accepted
    -- for it, if its root is live.
    pub verify_token :
        (presented : Text) (k root : Key) (rest : List Key)
        → keys ≡ k ∷ rest
        → starts_with presented prefix_live ≡ false
        → (length (split b'.' presented) == 3) ≡ true
        → verify_jwt presented ≡ some (some k.id)
        → is_derived k.key_type ≡ true
        → is_live now k ≡ true
        → In root keys
        → root.id ≡ root_of k
        → is_live now root ≡ true
        → verify_gateway_credential hash verify_jwt keys now presented
          ≡ some (record { key_id = k.id; key_type = k.key_type })
    unfolding verify_gateway_credential by_claim look_up scope_of admits names
    verify_token presented k root rest listed other parts claim sub live rm ri rl =
        let here : any (λ r. has_id (root_of k) r && is_live now r) keys ≡ true =
          any_of_In (λ r. has_id (root_of k) r && is_live now r) root keys rm
            (ground (arith, ri, rl)) in
        let passes : admits keys now (by_id k.id) k ≡ true =
          rw ((==_iff k.id k.id).1 refl, sub, live, here) refl in
        let found : find (admits keys now (by_id k.id)) keys ≡ some k =
          ap (find (admits keys now (by_id k.id))) listed ∙ rw passes refl in
        rw (other, parts) (ap (by_claim keys now) claim ∙ ap scope_of found)

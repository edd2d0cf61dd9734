-- ===== src/Auth/Admission.antt =====
-- Who the middleware lets in, and as whom.
use kamu_llm_gateway.Prelude.{
  ℕ, ◌≡◌, refl, sym, ◌∙◌, inl, inr, Option, none, some, List, [], ◌∷◌, arith, Text, codes, not,
  text_eq, text_eq_iff, is_empty, All, Bool-cases, ltb, length, if◌then◌else◌, ap,
}
use kamu_llm_gateway.Prelude.Maps.{get, put}
use kamu_llm_gateway.Http.{
  ◌>>◌, require, Reply, ok, err, Reply-cases, require-then, ok-injective, or_blank, bearer_token,
}
use kamu_llm_gateway.Types.{Team}
use kamu_llm_gateway.Auth.{
  UserInfo, Context, Hit, Cache, Admitted, Session, provision_user, has_sub, is_false, unauthorized,
  by_access_key, check_info, resync, by_user_info, by_hit, by_identity, by_context, by_token,
  auth_middleware, grant_context,
}

-- A cached identity belongs to the subject that it is checked by.
abbrev pub IsSane : Cache → Type 0
IsSane cache = All (λ (e : Text × Hit). e.1.user.id ≡ e.1.sub) cache

get-IsSane :
    (token : Text) (cache : Cache) {hit : Hit}
    → IsSane cache
    → get token cache ≡ some hit
    → hit.user.id ≡ hit.sub
unfolding get
get-IsSane token [] sane e = cc e
get-IsSane token ((t, h) ∷ cache) {hit} (first, rest) e = elim (Bool-cases (text_eq t token)) [
  | inl this ↦ let same : h ≡ hit = ground (arith, rw this at e) in rw same at first
  | inr later ↦ get-IsSane token cache rest (rw later at e)
]

put-IsSane :
    (token : Text) (hit : Hit) (cache : Cache)
    → hit.user.id ≡ hit.sub
    → IsSane cache
    → IsSane (put token hit cache)
unfolding put
put-IsSane token hit [] h sane = (h, tt)
put-IsSane token hit ((t, w) ∷ cache) h (first, rest) = elim (Bool-cases (text_eq t token)) [
  | inl this ↦ rw this (h, rest)
  | inr later ↦ rw later (first, put-IsSane token hit cache h rest)
]

module _ (new_id : List Team → ℕ) (verify : Text → Option Context)
    (user_info : Text → Option UserInfo) (now : ℕ) (header : Text) where
  -- The reply lets in, if anybody, the subject of a context that was verified, and the cache stays
  -- sane.
  pub record IsVerified (out : Reply Admitted × Session) : Type 0 where
    pub subject :
        (a : Admitted)
        → out.0 ≡ ok a
        → (t : Text) × (ctx : Context) × (verify t ≡ some ctx)
          × (a.user.id ≡ ctx.sub)
          × (grant_context verify a.platform_context header ≡ some ctx)
    pub sane : IsSane out.1.cache

  unauthorized-IsVerified :
      (status : ℕ) (message : Text) (s : Session)
      → IsSane s.cache
      → IsVerified (err status message, s)
  unauthorized-IsVerified status message s sane = record { subject = λ a e. cc e; sane = sane }

  by_access_key-IsVerified :
      (t : Text) (ctx : Context) (s : Session)
      → verify t ≡ some ctx
      → IsSane s.cache
      → IsVerified (by_access_key new_id verify user_info now ctx s)
  unfolding by_access_key provision_user
  by_access_key-IsVerified t ctx s v sane = record {
    subject = λ a e. (
      t,
      ctx,
      v,
      ap (λ (x : Admitted). x.user.id) (sym (ok-injective e)),
      ap (λ (x : Admitted). grant_context verify x.platform_context header) (sym (ok-injective e)),
    );
    sane = sane;
  }

  by_hit-IsVerified :
      (t : Text) (ctx : Context) (hit : Hit) (s : Session)
      → verify t ≡ some ctx
      → grant_context verify none header ≡ some ctx
      → IsSane s.cache
      → hit.user.id ≡ hit.sub
      → IsVerified (by_hit new_id verify user_info now ctx hit s)
  unfolding by_hit unauthorized
  by_hit-IsVerified t ctx hit s v shown sane own = elim (Bool-cases (text_eq hit.sub ctx.sub)) [
    | inl same ↦ rw same record {
      subject = λ a e. (
        t,
        ctx,
        v,
        ap (λ (x : Admitted). x.user.id) (sym (ok-injective e))
            ∙ (own ∙ (text_eq_iff hit.sub ctx.sub).0 same),
        ap (λ (x : Admitted). grant_context verify x.platform_context header) (sym (ok-injective e))
            ∙ shown,
      );
      sane = sane;
    }
    | inr other ↦ rw other (unauthorized-IsVerified 401 _ s sane)
  ]

  check_info-same :
      (ctx : Context) (answer : Option UserInfo) (info : UserInfo)
      → check_info new_id verify user_info now ctx answer ≡ ok info
      → info.sub ≡ ctx.sub
  unfolding check_info
  check_info-same ctx none info e = cc e
  check_info-same ctx (some got) info e =
      let (_, e1) =
        require-then (not (is_empty got.sub)) 401 (codes "Unauthorized")
          (require (not (is_false got.email_verified)) 401 (codes "Unauthorized")
            >> (require (text_eq got.sub ctx.sub) 401 (codes "Unauthorized") >> ok got))
          e in
      let (_, e2) =
        require-then (not (is_false got.email_verified)) 401 (codes "Unauthorized")
          (require (text_eq got.sub ctx.sub) 401 (codes "Unauthorized") >> ok got) e1 in
      let (same, e3) =
        require-then (text_eq got.sub ctx.sub) 401 (codes "Unauthorized") (ok got) e2 in
      let it : got ≡ info = ok-injective e3 in
      ap (λ (x : UserInfo). x.sub) (sym it) ∙ (text_eq_iff got.sub ctx.sub).0 same

  kept-IsSane :
      (cache : Cache) → IsSane cache → IsSane (if ltb 2000 (length cache) then [] else cache)
  kept-IsSane cache sane = elim (Bool-cases (ltb 2000 (length cache))) [
    | inl over ↦ rw over tt
    | inr fits ↦ rw fits sane
  ]

  by_user_info-IsVerified :
      (t token : Text) (ctx : Context) (s : Session)
      → verify t ≡ some ctx
      → grant_context verify none header ≡ some ctx
      → IsSane s.cache
      → IsVerified (by_user_info new_id verify user_info now token ctx s)
  unfolding by_user_info resync provision_user
  by_user_info-IsVerified t token ctx s v shown sane =
      elim (Reply-cases (check_info new_id verify user_info now ctx (user_info token))) [
        | inr (status, message, refused) ↦
            rw (refused, by_user_info) (unauthorized-IsVerified status message s sane)
        | inl (info, passed) ↦
            rw (passed, by_user_info)
              record {
                subject = λ a e. (
                  t,
                  ctx,
                  v,
                  ap (λ (x : Admitted). x.user.id) (sym (ok-injective e))
                      ∙ check_info-same ctx (user_info token) info passed,
                  ap (λ (x : Admitted). grant_context verify x.platform_context header)
                        (sym (ok-injective e))
                      ∙ shown,
                );
                sane = put-IsSane token _ _ refl (kept-IsSane s.cache sane);
              }
      ]

  by_identity-IsVerified :
      (t token : Text) (ctx : Context) (hit : Option Hit) (s : Session)
      → verify t ≡ some ctx
      → grant_context verify none header ≡ some ctx
      → IsSane s.cache
      → get token s.cache ≡ hit
      → IsVerified (by_identity new_id verify user_info now token ctx hit s)
  unfolding by_identity
  by_identity-IsVerified t token ctx none s v shown sane cached =
      by_user_info-IsVerified t token ctx s v shown sane
  by_identity-IsVerified t token ctx (some hit) s v shown sane cached =
      elim (Bool-cases (ltb now hit.exp)) [
        | inl fresh ↦
            rw fresh
              (by_hit-IsVerified t ctx hit s v shown sane (get-IsSane token s.cache sane cached))
        | inr stale ↦ rw stale (by_user_info-IsVerified t token ctx s v shown sane)
      ]

  by_context-IsVerified :
      (t token : Text) (ctx : Option Context) (s : Session)
      → ((c : Context)
          → ctx ≡ some c
          → (verify t ≡ some c) × (grant_context verify none header ≡ some c))
      → IsSane s.cache
      → IsVerified (by_context new_id verify user_info now token ctx s)
  unfolding by_context unauthorized
  by_context-IsVerified t token none s v sane = unauthorized-IsVerified 401 _ s sane
  by_context-IsVerified t token (some c) s v sane =
      by_identity-IsVerified t token c (get token s.cache) s (v c refl).0 (v c refl).1 sane refl

  header_context :
      (c : Context)
      → grant_context verify none header ≡ some c
      → (verify header ≡ some c) × (grant_context verify none header ≡ some c)
  header_context c e = elim (Bool-cases (is_empty header)) [
    | inl blank ↦ absurd (cc (rw blank at e))
    | inr given ↦ (rw given at e, e)
  ]

  has_sub-verified :
      (answer : Option Context) (c : Context) → has_sub answer ≡ some c → answer ≡ some c
  has_sub-verified none c e = cc e
  has_sub-verified (some d) c e = elim (Bool-cases (is_empty d.sub)) [
    | inl blank ↦ cc (rw blank at e)
    | inr named ↦ rw named at e
  ]

  by_token-IsVerified :
      (token : Text) (key : Option Context) (s : Session)
      → ((c : Context) → key ≡ some c → verify token ≡ some c)
      → IsSane s.cache
      → IsVerified (by_token new_id verify user_info now token key header s)
  unfolding by_token
  by_token-IsVerified token (some c) s v sane = by_access_key-IsVerified token c s (v c refl) sane
  by_token-IsVerified token none s v sane =
      by_context-IsVerified header token _ s header_context sane

module _ (new_id : List Team → ℕ) (verify : Text → Option Context)
    (user_info : Text → Option UserInfo) (now : ℕ) where
  auth_middleware-IsVerified :
      (authorization x_kamuhub_authz : Option Text) (s : Session)
      → IsSane s.cache
      → IsVerified new_id verify user_info now
          (or_blank x_kamuhub_authz)
          (auth_middleware new_id verify user_info now authorization x_kamuhub_authz s)
  unfolding auth_middleware unauthorized
  auth_middleware-IsVerified authorization x_kamuhub_authz s sane =
      elim (Bool-cases (is_empty (bearer_token authorization))) [
        | inl blank ↦ rw blank (
            unauthorized-IsVerified new_id verify user_info now (or_blank x_kamuhub_authz) 401 _ s
              sane)
        | inr named ↦ rw named (
            by_token-IsVerified new_id verify user_info now (or_blank x_kamuhub_authz)
              (bearer_token authorization) _ s
              (has_sub-verified new_id verify user_info now (or_blank x_kamuhub_authz)
                (verify (bearer_token authorization)))
              sane)
      ]

  -- With a sane cache the middleware lets a request in only as the subject of a platform context
  -- that it has verified, whatever the identity provider answers, and this context is the one that a
  -- grant check of the request reads.
  pub auth_middleware-subject :
      (authorization x_kamuhub_authz : Option Text) (s : Session) (a : Admitted)
      → IsSane s.cache
      → (auth_middleware new_id verify user_info now authorization x_kamuhub_authz s).0 ≡ ok a
      → (t : Text) × (ctx : Context) × (verify t ≡ some ctx)
        × (a.user.id ≡ ctx.sub)
        × (grant_context verify a.platform_context (or_blank x_kamuhub_authz) ≡ some ctx)
  auth_middleware-subject authorization x_kamuhub_authz s a sane e =
      (auth_middleware-IsVerified authorization x_kamuhub_authz s sane).subject a e

  -- The middleware keeps the cache sane, on every path.
  pub auth_middleware-IsSane :
      (authorization x_kamuhub_authz : Option Text) (s : Session)
      → IsSane s.cache
      → IsSane (auth_middleware new_id verify user_info now authorization x_kamuhub_authz s).1.cache
  auth_middleware-IsSane authorization x_kamuhub_authz s sane =
      (auth_middleware-IsVerified authorization x_kamuhub_authz s sane).sane

-- ===== src/Access/Granted.antt =====
-- Who a write to the keys is made for: the grant, the identity and the team of one request.
use kamu_llm_gateway.Prelude.{
  ℕ, ◌≡◌, refl, sym, ap, ◌∙◌, true, Option, some, List, Text, codes, In, In_of_any, any, find,
  find-eq-some, text_eq, text_eq_iff, subst,
}
use kamu_llm_gateway.Http.{Reply, ok, err, require-true, some_or-then, or_blank}
use kamu_llm_gateway.Types.{Team, ContextOrg}
use kamu_llm_gateway.Database.{Db}
use kamu_llm_gateway.Auth.{
  UserInfo, Context, Admitted, Session, auth_middleware, grant_context, is_org, require_grant,
}
use kamu_llm_gateway.Auth.Admission.{IsSane, auth_middleware-subject}
use kamu_llm_gateway.Access.{Headers, in_session, admit, permit, guarded}

-- A grant check that passes has found the permission in the context that it reads.
pub require_grant_ok :
    (verify : Text → Option Context) (permission : Text) (stashed : Option Context)
    (header org_id : Option Text)
    → require_grant verify permission stashed header org_id ≡ ok tt
    → (ctx : Context) × (org : ContextOrg) × (grant_context verify stashed (or_blank header)
        ≡ some ctx)
      × In org ctx.orgs
      × (is_org org_id org ≡ true)
      × In permission org.grants
unfolding require_grant
require_grant_ok verify permission stashed header org_id e =
    let (ctx, read, e₁) =
      some_or-then (grant_context verify stashed (or_blank header)) 403
        (codes "platform authorization required") _ e in
    let (org, found, e₂) = some_or-then (find (is_org org_id) ctx.orgs) 403 _ _ e₁ in
    let held : any (λ g. text_eq g permission) org.grants ≡ true =
      require-true (any (λ g. text_eq g permission) org.grants) 403 _ e₂ in
    let (g, here, same) = In_of_any (λ g. text_eq g permission) org.grants held in
    let (listed, of_org) = find-eq-some (is_org org_id) ctx.orgs found in
    (
      ctx,
      org,
      read,
      listed,
      of_org,
      subst (λ (x : Text). In x org.grants) ((text_eq_iff g permission).0 same) here,
    )

module _ {A : Type 0} where
  admit_ok :
      (out : Reply Admitted × Session) (next : Admitted → Session → Reply A × Session) (a : A)
      → (admit out next).0 ≡ ok a
      → (d : Admitted) × (out.0 ≡ ok d) × (admit out next ≡ next d out.1)
  unfolding admit
  admit_ok (err status message, s) next a e = absurd (cc e)
  admit_ok (ok d, s) next a e = (d, refl, refl)

  permit_ok :
      (check : Reply (Unit {0})) (s : Session) (handled : Reply A × Session) (a : A)
      → (permit check s handled).0 ≡ ok a
      → (check ≡ ok tt) × (permit check s handled ≡ handled)
  unfolding permit
  permit_ok (err status message) s handled a e = absurd (cc e)
  permit_ok (ok tt) s handled a e = (refl, refl)

-- The permission has been granted to the user, in a verified context of the user's own and by the
-- organization that the request is about.
pub record IsAuthorized (verify : Text → Option Context) (permission : Text) (org_id : Option Text)
    (user : Text) : Type 0 where
  pub token : Text
  pub context : Context
  pub verified : verify token ≡ some context
  pub subject : user ≡ context.sub
  pub org : ContextOrg
  pub listed : In org context.orgs
  pub of_org : is_org org_id org ≡ true
  pub granted : In permission org.grants

module _ (new_id : List Team → ℕ) (verify : Text → Option Context)
    (user_info : Text → Option UserInfo) (now : ℕ) (h : Headers) (s : Session) where
  -- The session that the middleware leaves to the handler.
  abbrev pub after_auth : Session
  after_auth = (auth_middleware new_id verify user_info now h.authorization h.x_kamuhub_authz s).1

  authorized :
      (permission : Text) (org_id : Option Text) (a : Admitted)
      → IsSane s.cache
      → (auth_middleware new_id verify user_info now h.authorization h.x_kamuhub_authz s).0 ≡ ok a
      → require_grant verify permission a.platform_context h.x_kamuhub_authz org_id ≡ ok tt
      → IsAuthorized verify permission org_id a.user.id
  authorized permission org_id a sane passed granted =
      let (t, ctx, verified, subject, read) =
        auth_middleware-subject new_id verify user_info now h.authorization h.x_kamuhub_authz s a
          sane passed in
      let (ctx', org, read', listed, of_org, holds) =
        require_grant_ok verify permission a.platform_context h.x_kamuhub_authz org_id granted in
      let same : ctx' ≡ ctx = cc (read, read') in
      record {
        token = t;
        context = ctx;
        verified = verified;
        subject = subject;
        org = org;
        listed = subst (λ (c : Context). In org c.orgs) same listed;
        of_org = of_org;
        granted = holds;
      }

  -- A guarded route succeeds for an authorized user alone, and as its handler.
  pub guarded_ok :
      {A : Type 0} (permission : Text) (org_id : Db → Option Text)
      (handler : Text → Db → Reply A × Db) (got : A)
      → IsSane s.cache
      → (guarded new_id verify user_info now permission org_id handler h s).0 ≡ ok got
      → (user : Text) × IsAuthorized verify permission (org_id after_auth.db) user
        × ((handler user after_auth.db).0 ≡ ok got)
        × ((guarded new_id verify user_info now permission org_id handler h s).1.db
            ≡ (handler user after_auth.db).1)
  unfolding guarded in_session
  guarded_ok permission org_id handler got sane e =
      let (a, passed, run) = admit_ok _ _ got e in
      let (granted, handled) = permit_ok _ _ _ got (ap (λ o. o.0) (sym run) ∙ e) in
      (
        a.user.id,
        authorized permission (org_id after_auth.db) a sane passed granted,
        ap (λ o. o.0) (sym handled) ∙ (ap (λ o. o.0) (sym run) ∙ e),
        ap (λ o. o.1.db) (run ∙ handled),
      )

-- ===== src/Access.antt =====
-- api/src/routes/keys.ts behind its middleware: `authMiddleware` stands before every route of the
-- router, and the two routes that write have `requireGrant` before their handler. `verify` is
-- `verifyPlatformContext`, and the other parameters are those of `Auth`.
pub mod Granted
pub mod Routes
use kamu_llm_gateway.Prelude.{ℕ, Option, none, some, List, Text, codes}
use kamu_llm_gateway.Http.{Reply, ok, err}
use kamu_llm_gateway.Types.{Team}
use kamu_llm_gateway.Database.{Db}
use kamu_llm_gateway.Credentials.{Generated}
use kamu_llm_gateway.Auth.{UserInfo, Context, Admitted, Session, auth_middleware, require_grant}
use kamu_llm_gateway.Keys.Create.{
  CreateBody, Created, create, team_org_id_from_create, team_org_id_from_key,
}
use kamu_llm_gateway.Keys.Revoke.{revoke}
use kamu_llm_gateway.Keys.Read.{KeyListRow, KeyDetail, list_keys, key_detail}

-- The headers that the middleware reads.
pub record Headers : Type 0 where
  pub authorization : Option Text
  pub x_kamuhub_authz : Option Text

module _ {A : Type 0} where
  -- A handler's tables go back into the session.
  unfoldable pub in_session : Session → Reply A × Db → Reply A × Session
  in_session s (reply, db) = (reply, record s { db = db })

  -- `await next()`, where the middleware has let the request pass.
  unfoldable pub admit :
      Reply Admitted × Session → (Admitted → Session → Reply A × Session) → Reply A × Session
  admit (err status message, s) next = (err status message, s)
  admit (ok a, s) next = next a s

  unfoldable pub permit : Reply (Unit {0}) → Session → Reply A × Session → Reply A × Session
  permit (err status message) s handled = (err status message, s)
  permit (ok passed) s handled = handled

module _ (new_id : List Team → ℕ) (verify : Text → Option Context)
    (user_info : Text → Option UserInfo) (now : ℕ) where
  -- A route with a grant: the permission, the organization that it is about, and the handler.
  unfoldable pub guarded :
      {A : Type 0}
      → Text
      → (Db → Option Text)
      → (Text → Db → Reply A × Db)
      → Headers
      → Session
      → Reply A × Session
  unfolding admit permit in_session
  guarded permission org_id handler h s =
      admit (auth_middleware new_id verify user_info now h.authorization h.x_kamuhub_authz s)
        (λ a s'.
          permit
            (require_grant verify permission a.platform_context h.x_kamuhub_authz (org_id s'.db)) s'
            (in_session s' (handler a.user.id s'.db)))

  -- A route behind the middleware alone.
  unfoldable pub authenticated :
      {A : Type 0} → (Text → Db → Reply A) → Headers → Session → Reply A × Session
  unfolding admit
  authenticated handler h s =
      admit (auth_middleware new_id verify user_info now h.authorization h.x_kamuhub_authz s)
        (λ a s'. (handler a.user.id s'.db, s'))

  -- POST /keys
  unfoldable pub post_keys :
      ℕ → Generated → CreateBody → Headers → Session → Reply Created × Session
  unfolding guarded
  post_keys id g body =
      guarded (codes "llm.keys.create") (λ db. team_org_id_from_create db body.team_id)
        (λ user db. create id now user g body db)

  -- POST /keys/:id/revoke
  unfoldable pub post_revoke : ℕ → Headers → Session → Reply ℕ × Session
  unfolding guarded
  post_revoke id =
      guarded (codes "llm.keys.revoke") (λ db. team_org_id_from_key db id)
        (λ user db. revoke now user id db)

  -- GET /keys
  unfoldable pub get_keys : Headers → Session → Reply (List KeyListRow) × Session
  unfolding authenticated
  get_keys = authenticated (λ user db. ok (list_keys user db))

  -- GET /keys/:id
  unfoldable pub get_key : ℕ → Headers → Session → Reply KeyDetail × Session
  unfolding authenticated
  get_key id = authenticated (λ user db. key_detail user id db)

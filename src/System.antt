-- ===== src/System.antt =====
-- The api's and the operators' writes to the key table as one transition system: requests are checked and carried out
-- in separate steps, in any interleaving, and time passes between them. `hash` is `hashKey`, and
-- `env` the configuration. A fresh id is one that no row has.
pub mod Caps
pub mod Revocation
pub mod Writes
pub mod Ledger
pub mod Promise
use kamu_llm_gateway.Prelude.{ℕ, ◌≤◌, ◌≡◌, Bool, true, false, Option, List, [], ◌∷◌, Text, In}
use kamu_llm_gateway.Http.{ok}
use kamu_llm_gateway.Database.{Db, UsageLogRow, has_key}
use kamu_llm_gateway.Credentials.{Generated}
use kamu_llm_gateway.Keys.Create.{CreateBody, create}
use kamu_llm_gateway.Keys.Revoke.{revoke}
use kamu_llm_gateway.Keys.Derive.{Env, DeriveBody, DeriveRequest, check_derive, mint}
use kamu_llm_gateway.Poller.{ingest_rows}
use kamu_llm_gateway.Admin.{AdminUser}
use kamu_llm_gateway.Admin.Keys.{MintForm, MintBody, post_form, post_json, revoke_form, revoke_json}

-- `checked` holds the derive requests that have passed their checks and wait for the lock.
pub record World : Type 0 where
  pub now : ℕ
  pub db : Db
  pub checked : List DeriveRequest

module _ (hash : Text → Text) (env : Env) where
  pub data Step (w : World) : World → Type 0 where
    tick : (later : ℕ) → w.now ≤ later → Step w (record w { now = later })
    post_key :
        (id : ℕ) (user : Text) (g : Generated) (body : CreateBody)
        → has_key id w.db.keys ≡ false
        → Step w (record w { db = (create id w.now user g body w.db).1 })
    revoke_key : (user : Text) (id : ℕ) → Step w (record w { db = (revoke w.now user id w.db).1 })
    check :
        (authorization : Option Text) (body : DeriveBody) (r : DeriveRequest)
        → check_derive hash env w.now authorization body w.db.keys ≡ ok r
        → Step w (record w { checked = r ∷ w.checked })
    mint_key :
        (id : ℕ) (r : DeriveRequest)
        → In r w.checked
        → has_key id w.db.keys ≡ false
        → Step w (record w { db = record w.db { keys = (mint env id w.now r w.db.keys).1 } })
    admin_form :
        (parse_number : Text → Option ℕ) (id : ℕ) (admin : AdminUser) (g : Generated)
        (form : MintForm)
        → has_key id w.db.keys ≡ false
        → Step w (record w { db = (post_form parse_number id w.now admin g form w.db).1 })
    admin_json :
        (id : ℕ) (admin : AdminUser) (g : Generated) (body : MintBody)
        → has_key id w.db.keys ≡ false
        → Step w (record w { db = (post_json id w.now admin g body w.db).1 })
    admin_revoke_form :
        (admin : AdminUser) (id : ℕ)
        → Step w (record w { db = (revoke_form w.now admin id w.db).1 })
    admin_revoke_json :
        (admin : AdminUser) (id : ℕ)
        → Step w (record w { db = (revoke_json w.now admin id w.db).1 })
    ingest : (rows : List UsageLogRow) → Step w (record w { db = (ingest_rows w.now rows w.db).1 })

  pub data Reach (w : World) : World → Type 0 where
    here : Reach w w
    next : {u v : World} → Reach w u → Step u v → Reach w v

-- ===== src/Admin.antt =====
-- admin/src: the operators' console. A session is the one gate, and its queries run as the owner of
-- the schema, with no row-level security. better-auth, which keeps the sessions, is `get_session`.
pub mod Keys
pub mod Prices
pub mod Settings
pub mod Usage
use kamu_llm_gateway.Prelude.{ℕ, Bool, true, false, Option, none, some, Text, codes, ◌++◌}

-- Who is signed in.
pub record AdminUser : Type 0 where
  pub id : Text
  pub email : Text
  pub name : Text

pub data Gate : Type 0 where
  passes : AdminUser → Gate
  unauthorized to_login : Gate

gate_of : Option AdminUser → Bool → Gate
gate_of (some admin) wants_json = passes admin
gate_of none true = unauthorized
gate_of none false = to_login

-- `requireSession`; the headers hold the cookie and what the client accepts.
unfoldable pub require_session :
    {Headers : Type 0} → (Headers → Option AdminUser) → (Headers → Bool) → Headers → Gate
unfolding gate_of
require_session get_session accepts_json headers =
    gate_of (get_session headers) (accepts_json headers)

-- `"admin:" + admin.email`
abbrev pub admin_name : AdminUser → Text
admin_name a = codes "admin:" ++ a.email

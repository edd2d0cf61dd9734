-- ===== src/Keys/Revoke.antt =====
-- POST /keys/:id/revoke, after its grant check: the key and all rows of its root are revoked.
pub mod Cascade
use kamu_llm_gateway.Prelude.{
  ℕ, Bool, ◌||◌, ◌&&◌, Option, none, some, [], ◌∷◌, Text, codes, count_where, find, ◌==◌,
  if◌then◌else◌,
}
use kamu_llm_gateway.Http.{Reply, ok, err}
use kamu_llm_gateway.Types.{Key, revoked}
use kamu_llm_gateway.Database.{Db, is_id, has_id, in_user_teams, update_where}

-- `WHERE id = ${id} OR root_key_id = ${id}`
abbrev pub in_subtree : ℕ → Key → Bool
in_subtree id k = k.id == id || is_id id k.root_key_id

abbrev pub revoke_row : ℕ → Text → Key → Key
revoke_row now user k = record k {
  status = revoked;
  revoked_at = some now;
  revoked_by = some user;
  updated_at = now;
}

-- The `owned` row, which the row-level security lets the user see.
abbrev pub is_owned : Text → Db → ℕ → Key → Bool
is_owned user db id k = k.id == id && in_user_teams user k.team_id db.team_members

cascade : ℕ → Text → ℕ → Db → Reply ℕ × Db
cascade now user id db =
    let count = count_where (in_subtree id) db.keys in
    if count == 0
    then (err 404 (codes "Key not found"), db)
    else (ok count, record db { keys = update_where (in_subtree id) (revoke_row now user) db.keys })

unfoldable pub revoke : ℕ → Text → ℕ → Db → Reply ℕ × Db
unfolding cascade
revoke now user id db = elim (find (is_owned user db id) db.keys) [
  | none ↦ (err 404 (codes "Key not found"), db)
  | some _ ↦ cascade now user id db
]

-- ===== src/Admin/Keys/Revoke.antt =====
-- The operators' revocation is the api's, but for the name that it leaves.
use kamu_llm_gateway.Prelude.{
  ℕ, ◌≡◌, refl, inl, inr, Bool, List, [], ◌∷◌, Text, map, none, Bool-cases,
}
use kamu_llm_gateway.Http.{ok}
use kamu_llm_gateway.Types.{Key}
use kamu_llm_gateway.Database.{Db, update_where}
use kamu_llm_gateway.Keys.Revoke.{in_subtree, revoke_row, revoke}
use kamu_llm_gateway.Keys.Revoke.Cascade.{revoke-cases, revoke_count}
use kamu_llm_gateway.Admin.{AdminUser}
use kamu_llm_gateway.Admin.Keys.{admin_revoke_row, admin_cascade, revoke_form, revoke_json}

abbrev pub without_name : Key → Key
without_name k = record k { revoked_by = none }

same_update :
    {B : Type 0} (p : Key → Bool) (f g : Key → Key) (h : Key → B) (keys : List Key)
    → ((k : Key) → h (f k) ≡ h (g k))
    → map h (update_where p f keys) ≡ map h (update_where p g keys)
unfolding update_where
same_update p f g h [] same = refl
same_update p f g h (k ∷ keys) same = elim (Bool-cases (p k)) [
  | inl hit ↦ rw (hit, same k, same_update p f g h keys same)
  | inr miss ↦ rw (miss, same_update p f g h keys same)
]

-- Where a user's revocation on the api succeeds, an operator's of the same key answers the same
-- number of rows and leaves the same keys, but for `revoked_by`; the form leaves what JSON does.
pub revoke_json-revoke :
    (now id n : ℕ) (user : Text) (admin : AdminUser) (db : Db)
    → (revoke now user id db).0 ≡ ok n
    → ((revoke_json now admin id db).0 ≡ ok n)
      × (map without_name (revoke_json now admin id db).1.keys
          ≡ map without_name (revoke now user id db).1.keys)
      × ((revoke_form now admin id db).1 ≡ (revoke_json now admin id db).1)
unfolding revoke_json revoke_form admin_cascade
revoke_json-revoke now id n user admin db done = elim (revoke-cases now user id db) [
  | inl (message, refused) ↦ absurd (cc (rw refused at done))
  | inr (m, cascade) ↦
      let (count, some_rows) = revoke_count now user id db n done in
      (
        rw (some_rows, count) refl,
        rw cascade (
            same_update (in_subtree id) (admin_revoke_row now admin) (revoke_row now user)
              without_name db.keys (λ k. refl)),
        refl,
      )
]

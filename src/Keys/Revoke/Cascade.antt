-- ===== src/Keys/Revoke/Cascade.antt =====
-- A revocation reaches the whole subtree and nothing else.
use kamu_llm_gateway.Prelude.{
  ℕ, ◌≡◌, refl, ap, inl, inr, true, false, Text, In, find, count_where, ◌⊎◌, codes, ◌==◌,
  Bool-cases, Option-cases, if◌then◌else◌,
}
use kamu_llm_gateway.Http.{ok, err, ok-injective}
use kamu_llm_gateway.Types.{Key, revoked}
use kamu_llm_gateway.Database.{Db, update_where, In-update_where, update_where_keeps}
use kamu_llm_gateway.Keys.Revoke.{in_subtree, revoke_row, is_owned, cascade, revoke}

module _ (now : ℕ) (user : Text) (id : ℕ) (db : Db) where
  abbrev pub cascaded : Db
  cascaded = record db { keys = update_where (in_subtree id) (revoke_row now user) db.keys }

  -- The reply is an error and nothing is written, or the one update is made.
  pub revoke-cases :
      ((message : Text) × (revoke now user id db ≡ (err 404 message, db)))
      ⊎ ((n : ℕ) × (revoke now user id db ≡ (ok n, cascaded)))
  unfolding revoke cascade
  revoke-cases = elim (Option-cases (find (is_owned user db id) db.keys)) [
    | inl missing ↦ inl (codes "Key not found", rw (missing, revoke))
    | inr (k, found) ↦ elim (Bool-cases (count_where (in_subtree id) db.keys == 0)) [
      | inl nothing ↦ inl (codes "Key not found", rw (found, revoke, nothing))
      | inr some_rows ↦ inr (count_where (in_subtree id) db.keys, rw (found, revoke, some_rows))
    ]
  ]

  -- A revocation that succeeds counts the rows of the subtree, of which there is one at least.
  pub revoke_count :
      (n : ℕ)
      → (revoke now user id db).0 ≡ ok n
      → (count_where (in_subtree id) db.keys ≡ n)
        × (count_where (in_subtree id) db.keys == 0 ≡ false)
  unfolding revoke cascade
  revoke_count n e = elim (Option-cases (find (is_owned user db id) db.keys)) [
    | inl missing ↦ absurd (cc (rw (missing, revoke) at e))
    | inr (k, found) ↦ elim (Bool-cases (count_where (in_subtree id) db.keys == 0)) [
      | inl nothing ↦ absurd (cc (rw (found, revoke, nothing) at e))
      | inr some_rows ↦ (ok-injective (rw (found, revoke, some_rows) at e), some_rows)
    ]
  ]

  -- A revocation that succeeds has made the one update.
  pub revoke-cascaded :
      (n : ℕ) → (revoke now user id db).0 ≡ ok n → (revoke now user id db).1 ≡ cascaded
  revoke-cascaded n e = elim revoke-cases [
    | inl (message, refused) ↦ absurd (cc (rw refused at e))
    | inr (m, done) ↦ rw done refl
  ]

  pub cascaded_subtree :
      (k : Key) → In k cascaded.keys → in_subtree id k ≡ true → k.status ≡ revoked
  cascaded_subtree k m sub =
      let (old, _, same) = In-update_where k (in_subtree id) (revoke_row now user) db.keys m in
      revoked_row old k same sub
    where
      revoked_row :
          (old k : Key)
          → k ≡ (if in_subtree id old then revoke_row now user old else old)
          → in_subtree id k ≡ true
          → k.status ≡ revoked
      revoked_row old k same sub = elim (Bool-cases (in_subtree id old)) [
        | inl hit ↦ ap (λ (x : Key). x.status) (rw hit at same)
        | inr miss ↦ let e : k ≡ old = rw miss at same in cc (e, miss, sub)
      ]

  -- After a successful revocation every row of the subtree, the key itself or a key with it as
  -- root, is revoked; a refused one writes nothing.
  pub revoke_subtree :
      (n : ℕ) (k : Key)
      → (revoke now user id db).0 ≡ ok n
      → In k (revoke now user id db).1.keys
      → in_subtree id k ≡ true
      → k.status ≡ revoked
  revoke_subtree n k e m sub = elim revoke-cases [
    | inl (message, refused) ↦ cc (rw refused at e)
    | inr (count, done) ↦ cascaded_subtree k (rw done at m) sub
  ]

  -- A row outside the subtree is kept as it was, whatever the reply.
  pub revoke_others :
      (k : Key) → In k db.keys → in_subtree id k ≡ false → In k (revoke now user id db).1.keys
  revoke_others k m other = elim revoke-cases [
    | inl (message, refused) ↦ rw refused m
    | inr (count, done) ↦
        rw done (update_where_keeps k (in_subtree id) (revoke_row now user) db.keys m other)
  ]

-- ===== src/Keys/Read/Rollup.antt =====
-- The detail of a key answers for the keys that the list shows, with the spend of the whole subtree.
use kamu_llm_gateway.Prelude.{
  ℕ, ◌≡◌, ◌↔◌, refl, sym, ap, ◌∙◌, inl, true, ◌&&◌, List, [], ◌∷◌, Text, arith, select, any_of_In,
  select-select, In, In-select, In_of_select,
}
use kamu_llm_gateway.Http.{ok}
use kamu_llm_gateway.Types.{Key}
use kamu_llm_gateway.Database.{Db, UsageLogRow, has_id, in_user_teams}
use kamu_llm_gateway.Usage.{is_visible}
use kamu_llm_gateway.Keys.Read.{
  KeyListRow, KeyDetailRow, KeyDetail, UsageTotals, to_detail_row, sees_key, team_of, join_teams,
  list_keys, head_reply, key_detail, totals_of, in_tree,
}
use kamu_llm_gateway.Keys.Read.Visible.{
  IsSeen, In_of_join, In-join, seen_team, of_team_of, list_keys_iff,
}

module _ (user : Text) (id : ℕ) (db : Db) where
  abbrev found_rows : List KeyDetailRow
  found_rows =
      join_teams to_detail_row (team_of user db)
        (select (has_id id) (select (sees_key user db) db.keys))

  abbrev visible_totals : UsageTotals
  visible_totals = totals_of (select (in_tree id) (select (is_visible user db) db.usage_log))

  In-head_reply :
      (row : KeyDetailRow) (rows : List KeyDetailRow) (totals : UsageTotals)
      → In row rows
      → (d : KeyDetail) × (head_reply rows totals ≡ ok d)
  unfolding head_reply
  In-head_reply row [] totals m = absurd m
  In-head_reply row (first ∷ rows) totals m = (record { key = first; usage = totals }, refl)

  head_reply-ok :
      (rows : List KeyDetailRow) (totals : UsageTotals) (d : KeyDetail)
      → head_reply rows totals ≡ ok d
      → In d.key rows × (d.usage ≡ totals)
  unfolding head_reply
  head_reply-ok [] totals d e = absurd (cc e)
  head_reply-ok (row ∷ rows) totals d e =
      let same : record { key = row; usage = totals } ≡ d = cc e in
      (inl (sym (ap (λ (x : KeyDetail). x.key) same)), sym (ap (λ (x : KeyDetail). x.usage) same))

  detail-IsSeen :
      (d : KeyDetail) → key_detail user id db ≡ ok d → (k : Key) × IsSeen user db k × (k.id ≡ id)
  unfolding key_detail
  detail-IsSeen d e =
      let (m, _) = head_reply-ok found_rows visible_totals d e in
      let (k, t, here, found, _) =
        In_of_join to_detail_row (team_of user db) d.key
          (select (has_id id) (select (sees_key user db) db.keys)) m in
      let (seen, same) = In_of_select (has_id id) k (select (sees_key user db) db.keys) here in
      let (stored, member) = In_of_select (sees_key user db) k db.keys seen in
      (k, of_team_of user db k t stored member found, ground arith)

  seen_detail :
      (k : Key) → IsSeen user db k → k.id ≡ id → (d : KeyDetail) × (key_detail user id db ≡ ok d)
  unfolding key_detail
  seen_detail k seen e =
      let (t, found) = seen_team user db k seen in
      In-head_reply (to_detail_row k t) found_rows visible_totals (
        In-join to_detail_row (team_of user db) k t
          (select (has_id id) (select (sees_key user db) db.keys))
          (In-select (has_id id) k (select (sees_key user db) db.keys)
            (In-select (sees_key user db) k db.keys seen.stored seen.member) (ground arith))
          found)

  -- GET /keys/:id succeeds for exactly the ids in the list that GET /keys answers the same user; for
  -- any other id the reply is an error.
  pub key_detail_iff :
      ((d : KeyDetail) × (key_detail user id db ≡ ok d))
      ↔ ((row : KeyListRow) × In row (list_keys user db) × (row.id ≡ id))
  key_detail_iff = (to, from)
    where
      to :
          (d : KeyDetail) × (key_detail user id db ≡ ok d)
          → (row : KeyListRow) × In row (list_keys user db) × (row.id ≡ id)
      to (d, e) = (list_keys_iff user db id).1 (detail-IsSeen d e)

      from :
          (row : KeyListRow) × In row (list_keys user db) × (row.id ≡ id)
          → (d : KeyDetail) × (key_detail user id db ≡ ok d)
      from listed = let (k, seen, e) = (list_keys_iff user db id).0 listed in seen_detail k seen e

  -- The keys that a row of the subtree is charged to belong to the team of the key itself.
  abbrev pub IsOneTeam : Type 0
  IsOneTeam =
      (k : Key) (r : UsageLogRow)
      → In k db.keys
      → k.id ≡ id
      → In r db.usage_log
      → in_tree id r ≡ true
      → (j : Key) × In j db.keys × (j.id ≡ r.key_id) × (j.team_id ≡ k.team_id)

  -- Where the keys of a subtree are of one team, the totals of the detail are those of all the
  -- subtree's rows of the ledger: the row-level security hides none of them.
  pub key_detail_whole :
      (d : KeyDetail)
      → IsOneTeam
      → key_detail user id db ≡ ok d
      → d.usage ≡ totals_of (select (in_tree id) db.usage_log)
  unfolding key_detail
  key_detail_whole d one_team e =
      let (_, same) = head_reply-ok found_rows visible_totals d e in
      let (k, seen, named) = detail-IsSeen d e in
      same
      ∙ ap totals_of (
          select-select (in_tree id) (is_visible user db) db.usage_log
            (λ r m tree. shown r k (one_team k r seen.stored named m tree) seen))
    where
      shown :
          (r : UsageLogRow) (k : Key)
          → (j : Key) × In j db.keys × (j.id ≡ r.key_id) × (j.team_id ≡ k.team_id)
          → IsSeen user db k
          → is_visible user db r ≡ true
      shown r k (j, here, named, team) seen =
          let member : in_user_teams user j.team_id db.team_members ≡ true = rw team seen.member in
          any_of_In (λ (x : Key). has_id r.key_id x && in_user_teams user x.team_id db.team_members)
            j db.keys here (ground (arith, member, named))

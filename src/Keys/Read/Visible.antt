-- ===== src/Keys/Read/Visible.antt =====
-- Which keys a user sees: those of the user's teams, in the list and in the detail alike.
use kamu_llm_gateway.Prelude.{
  ℕ, ◌≡◌, ◌↔◌, refl, sym, ap, ◌∙◌, inl, inr, true, false, Option, none, some, List, [], ◌∷◌, Text,
  arith, find-eq-some, find-eq-none, select, In, In-select, In_of_select, All-In, In_of_sort_by,
  In-sort_by, IsOrdered, sort_by-IsOrdered, Option-cases,
}
use kamu_llm_gateway.Types.{Key, Team}
use kamu_llm_gateway.Database.{Db, is_team}
use kamu_llm_gateway.Keys.Read.{
  KeyListRow, to_list_row, sees_key, sees_team, team_of, cons_row, join_teams, newer_first,
  list_keys,
}

module _ {Row : Type 0} (to_row : Key → Team → Row) (team : Key → Option Team) where
  pub In_of_join :
      (row : Row) (keys : List Key)
      → In row (join_teams to_row team keys)
      → (k : Key) × (t : Team) × In k keys × (team k ≡ some t) × (row ≡ to_row k t)
  unfolding join_teams
  In_of_join row [] m = absurd m
  In_of_join row (k ∷ keys) m = elim (Option-cases (team k)) [
    | inl missing ↦
        let (j, t, here, found, e) = In_of_join row keys (rw (missing, join_teams) at m) in
        (j, t, inr here, found, e)
    | inr (t, found) ↦
        let here : In row (to_row k t ∷ join_teams to_row team keys) =
          rw (found, join_teams) at m in
        elim here [
          | inl e ↦ (k, t, inl refl, found, e)
          | inr later ↦
              let (j, u, there, has, e) = In_of_join row keys later in (j, u, inr there, has, e)
        ]
  ]

  pub In-join :
      (k : Key) (t : Team) (keys : List Key)
      → In k keys
      → team k ≡ some t
      → In (to_row k t) (join_teams to_row team keys)
  unfolding join_teams
  In-join k t [] m found = absurd m
  In-join k t (j ∷ keys) (inl e) found =
      let at_j : team j ≡ some t = ap team (sym e) ∙ found in
      rw (at_j, join_teams) (inl (ap (λ (x : Key). to_row x t) e))
  In-join k t (j ∷ keys) (inr m) found = later (team j) (In-join k t keys m found)
    where
      later :
          (o : Option Team)
          → In (to_row k t) (join_teams to_row team keys)
          → In (to_row k t) (cons_row to_row j o (join_teams to_row team keys))
      later none h = h
      later (some u) h = inr h

module _ (user : Text) (db : Db) where
  -- A key of one of the user's teams, which is in the table of teams.
  pub record IsSeen (k : Key) : Type 0 where
    pub stored : In k db.keys
    pub member : sees_key user db k ≡ true
    pub team : Team
    pub team_stored : In team db.teams
    pub same_team : team.id ≡ k.team_id

  team_of-some :
      (k : Key) (t : Team) → team_of user db k ≡ some t → In t db.teams × (t.id ≡ k.team_id)
  unfolding team_of
  team_of-some k t found =
      let (here, same) =
        find-eq-some (is_team k.team_id) (select (sees_team user db) db.teams) found in
      ((In_of_select (sees_team user db) t db.teams here).0, ground arith)

  pub of_team_of :
      (k : Key) (t : Team)
      → In k db.keys
      → sees_key user db k ≡ true
      → team_of user db k ≡ some t
      → IsSeen k
  of_team_of k t here member found =
      let (there, same) = team_of-some k t found in
      record { stored = here; member = member; team = t; team_stored = there; same_team = same }

  pub seen_team : (k : Key) → IsSeen k → (t : Team) × (team_of user db k ≡ some t)
  unfolding team_of
  seen_team k seen = elim (Option-cases (team_of user db k)) [
    | inr found ↦ found
    | inl missing ↦
        let t = seen.team in
        let visible : sees_team user db t ≡ true = rw seen.same_team seen.member in
        let here = In-select (sees_team user db) t db.teams seen.team_stored visible in
        let other =
          All-In (λ (u : Team). is_team k.team_id u ≡ false) t (select (sees_team user db) db.teams)
            (find-eq-none (is_team k.team_id) (select (sees_team user db) db.teams) missing) here in
        absurd (ground (arith, other, seen.same_team))
  ]

  -- A key with the id stands in the list exactly if a key with it is seen.
  pub list_keys_iff :
      (i : ℕ)
      → ((row : KeyListRow) × In row (list_keys user db) × (row.id ≡ i))
        ↔ ((k : Key) × IsSeen k × (k.id ≡ i))
  unfolding list_keys to_list_row
  list_keys_iff i = (to, from)
    where
      to :
          (row : KeyListRow) × In row (list_keys user db) × (row.id ≡ i)
          → (k : Key) × IsSeen k × (k.id ≡ i)
      to (row, m, e) =
          let listed =
            In_of_sort_by newer_first row
              (join_teams to_list_row (team_of user db) (select (sees_key user db) db.keys)) m in
          let (k, t, here, found, same) =
            In_of_join to_list_row (team_of user db) row (select (sees_key user db) db.keys)
              listed in
          let (stored, member) = In_of_select (sees_key user db) k db.keys here in
          (k, of_team_of k t stored member found, sym (ap (λ (r : KeyListRow). r.id) same) ∙ e)

      from :
          (k : Key) × IsSeen k × (k.id ≡ i)
          → (row : KeyListRow) × In row (list_keys user db) × (row.id ≡ i)
      from (k, seen, e) =
          let (t, found) = seen_team k seen in
          (
            to_list_row k t,
            In-sort_by newer_first (to_list_row k t)
                (join_teams to_list_row (team_of user db) (select (sees_key user db) db.keys))
                (In-join to_list_row (team_of user db) k t (select (sees_key user db) db.keys)
                  (In-select (sees_key user db) k db.keys seen.stored seen.member) found),
            e,
          )

  pub list_keys-IsOrdered : IsOrdered newer_first (list_keys user db)
  unfolding list_keys
  list_keys-IsOrdered =
      sort_by-IsOrdered newer_first (λ r s h. ground (arith, h)) (λ r s t h k. ground (arith, h, k))
        (join_teams to_list_row (team_of user db) (select (sees_key user db) db.keys))

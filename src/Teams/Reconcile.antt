-- ===== src/Teams/Reconcile.antt =====
-- Whose memberships a synchronisation changes, and how.
use kamu_llm_gateway.Prelude.{
  ℕ, ◌≡◌, refl, ◌∙◌, inl, inr, Bool, not, ◌&&◌, ◌||◌, List, [], ◌∷◌, arith, Text, text_eq,
  text_eq_iff, any, ◌==◌, Bool-cases, if◌then◌else◌,
}
use kamu_llm_gateway.Types.{Role, Team, OrgClaim}
use kamu_llm_gateway.Database.{Db, TeamMember, in_user_teams}
use kamu_llm_gateway.Teams.{
  is_member, upsert_member, drop_memberships, upsert_team, sync_orgs, reconcile_teams,
}

abbrev pub has_number : ℕ → List ℕ → Bool
has_number i ids = any (λ j. j == i) ids

-- An upsert makes the user a member of the team, and keeps all other memberships.
in_user_teams-upsert_member :
    (who user : Text) (i team : ℕ) (role : Role) (members : List TeamMember)
    → in_user_teams who i (upsert_member team user role members)
      ≡ (text_eq user who && team == i || in_user_teams who i members)
unfolding in_user_teams upsert_member
in_user_teams-upsert_member who user i team role [] = refl
in_user_teams-upsert_member who user i team role (m ∷ members) =
    elim (Bool-cases (is_member user team m)) [
      | inl hit ↦
          let u : m.user_id ≡ user = (text_eq_iff m.user_id user).0 (ground arith) in
          let t : m.team_id ≡ team = ground arith in rw hit (rw (← u, ← t) (ground arith))
      | inr miss ↦
          rw (miss, in_user_teams-upsert_member who user i team role members) (ground arith)
    ]

in_user_teams-drop :
    (who user : Text) (i : ℕ) (ids : List ℕ) (members : List TeamMember)
    → in_user_teams who i (drop_memberships user ids members)
      ≡ (in_user_teams who i members && (not (text_eq who user) || has_number i ids))
unfolding in_user_teams drop_memberships
in_user_teams-drop who user i ids [] = refl
in_user_teams-drop who user i ids (m ∷ members) = ground (
  arith,
  in_user_teams-drop who user i ids members,
  text_eq_iff m.user_id user,
  text_eq_iff m.user_id who,
  text_eq_iff who user,
)

module _ (new_id : List Team → ℕ) where
  -- The synchronised organizations' teams are added to the user's, and no membership goes.
  in_user_teams-sync_orgs :
      (who user : Text) (i now : ℕ) (orgs : List OrgClaim) (db : Db)
      → in_user_teams who i (sync_orgs new_id now user orgs db).1.team_members ≡ (
          text_eq user who && has_number i (sync_orgs new_id now user orgs db).0
          || in_user_teams who i db.team_members)
  unfolding sync_orgs
  in_user_teams-sync_orgs who user i now [] db = ground arith
  in_user_teams-sync_orgs who user i now (org ∷ orgs) db =
      let (id, teams) = upsert_team now (new_id db.teams) org db.teams in
      let synced = record db {
        teams = teams;
        team_members = upsert_member id user org.role db.team_members;
      } in
      in_user_teams-sync_orgs who user i now orgs synced
      ∙ rw (in_user_teams-upsert_member who user i id org.role db.team_members) (ground arith)

  -- After a reconciliation the user's teams are exactly those that the loop over the claimed
  -- organizations upserted, and whether anybody else is in a team has not changed.
  pub reconcile_teams_lem :
      (who user : Text) (i now : ℕ) (orgs : List OrgClaim) (db : Db)
      → in_user_teams who i (reconcile_teams new_id now user orgs db).team_members ≡ (
          if text_eq user who
          then has_number i (sync_orgs new_id now user orgs db).0
          else in_user_teams who i db.team_members)
  unfolding reconcile_teams
  reconcile_teams_lem who user i now orgs db =
      in_user_teams-drop who user i (sync_orgs new_id now user orgs db).0 _
      ∙ rw (in_user_teams-sync_orgs who user i now orgs db)
          (ground (arith, text_eq_iff who user, text_eq_iff user who))

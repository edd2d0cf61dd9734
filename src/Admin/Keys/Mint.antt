-- ===== src/Admin/Keys/Mint.antt =====
-- A key that an operator mints works, and what a mint writes.
use kamu_llm_gateway.Prelude.{
  ℕ, ◌≡◌, ◌≢◌, ◌⊎◌, refl, sym, ap, inl, inr, Option, none, List, ◌∷◌, Text, In, is_empty, trim,
  find, starts_with, codes, subst, text_eq_refl, ==_iff, Bool-cases, Option-cases,
}
use kamu_llm_gateway.Http.{Reply, ok, err, ok-injective, or_blank}
use kamu_llm_gateway.Database.{Db, has_id, is_team, update_where}
use kamu_llm_gateway.Credentials.{hash_key, Generated, has_hash, verify_gateway_credential}
use kamu_llm_gateway.Credentials.Liveness.{verify_secret}
use kamu_llm_gateway.Keys.Create.{own_root}
use kamu_llm_gateway.Admin.{AdminUser}
use kamu_llm_gateway.Admin.Keys.{
  admin_hash_key, admin_generate_top_level_key, top_level_row, insert_top, Redirect, with_secret,
  with_error, MintForm, secret_page, read_budget, post_form, MintBody, MintedKey, minted_reply,
  post_json,
}

module _ (id now : ℕ) (admin : AdminUser) (g : Generated) (db : Db) where
  abbrev pub with_top : ℕ → Text → Option ℕ → Db
  with_top team_id label budget = record db {
    keys =
        update_where (has_id id) (own_root now)
          (top_level_row id now admin g team_id label budget ∷ db.keys);
  }

  -- A mint answers its key and writes its row, or throws and writes nothing.
  insert_top-cases :
      (team_id : ℕ) (label : Text) (budget : Option ℕ)
      → (insert_top id now admin g team_id label budget db ≡ (ok g, with_top team_id label budget))
        ⊎ ((message : Text) × (insert_top id now admin g team_id label budget db
              ≡ (err 500 message, db)))
  unfolding insert_top
  insert_top-cases team_id label budget = elim (Option-cases (find (is_team team_id) db.teams)) [
    | inl missing ↦ inr (
      codes "violates foreign key constraint \"keys_team_id_fkey\"",
      rw (missing, insert_top) refl,
    )
    | inr (t, found) ↦ inl (rw (found, insert_top) refl)
  ]

  -- A form or a body is refused, and nothing is written, or it is minted.
  abbrev pub IsRefused : {Page : Type 0} → (Page → Type 0) → Reply Page × Db → Type 0
  IsRefused {Page} shows result =
      ((page : Page) → result.0 ≡ ok page → shows page → ⊥) × (result.1 ≡ db)

  abbrev pub ShowsSecret : Redirect → Type 0
  ShowsSecret (with_secret s) = Unit
  ShowsSecret _ = ⊥

  abbrev pub IsMinted : {Page : Type 0} → Page → Reply Page × Db → Type 0
  IsMinted page result =
      (team_id : ℕ) × (label : Text) × (budget : Option ℕ) × (result
        ≡ (ok page, with_top team_id label budget))

  error_page : (message : Text) → IsRefused ShowsSecret (ok (with_error message), db)
  error_page message = (λ page e shown. hidden (ap shown_by e) shown, refl)
    where
      shown_by : Reply Redirect → Redirect
      shown_by (ok page) = page
      shown_by (err status m) = with_error m

      hidden : {page : Redirect} → with_error message ≡ page → ShowsSecret page → ⊥
      hidden e shown = subst ShowsSecret (sym e) shown

  pub post_form-cases :
      (parse_number : Text → Option ℕ) (form : MintForm)
      → IsRefused ShowsSecret (post_form parse_number id now admin g form db)
        ⊎ IsMinted (with_secret g.secret) (post_form parse_number id now admin g form db)
  unfolding post_form secret_page
  post_form-cases parse_number form = elim (Option-cases form.team_id) [
    | inl missing ↦ inl (rw (missing, post_form) (error_page _))
    | inr (team_id, there) ↦ elim (Bool-cases (is_empty (trim (or_blank form.label)))) [
      | inl blank ↦ inl (rw (there, post_form, blank) (error_page _))
      | inr named ↦
          elim (Option-cases (read_budget parse_number (trim (or_blank form.budget_usd)))) [
            | inl bad ↦ inl (rw (there, post_form, named, bad) (error_page _))
            | inr (budget, read) ↦
                elim (insert_top-cases team_id (trim (or_blank form.label)) budget) [
                  | inl added ↦ inr (
                    team_id,
                    trim (or_blank form.label),
                    budget,
                    rw (there, post_form, named, read, added) refl,
                  )
                  | inr (message, thrown) ↦ inl (
                      rw (there, post_form, named, read, thrown)
                        ((λ page e shown. absurd (cc e)), refl))
                ]
          ]
    ]
  ]

  pub post_json-cases :
      (body : MintBody)
      → IsRefused (λ _. Unit {0}) (post_json id now admin g body db)
        ⊎ IsMinted
            (record { id = id; prefix = g.prefix; secret = g.secret })
            (post_json id now admin g body db)
  unfolding post_json minted_reply
  post_json-cases body = elim (Option-cases body.team_id) [
    | inl missing ↦ inl (rw (missing, post_json) ((λ page e shown. absurd (cc e)), refl))
    | inr (team_id, there) ↦ elim (Bool-cases (is_empty (or_blank body.label))) [
      | inl blank ↦ inl (rw (there, post_json, blank) ((λ page e shown. absurd (cc e)), refl))
      | inr named ↦ elim (insert_top-cases team_id (or_blank body.label) body.budget_usd) [
        | inl added ↦ inr (
          team_id,
          or_blank body.label,
          body.budget_usd,
          rw (there, post_json, named, added) refl,
        )
        | inr (message, thrown) ↦
            inl (rw (there, post_json, named, thrown) ((λ page e shown. absurd (cc e)), refl))
      ]
    ]
  ]

with_secret_injective : {s t : Text} → with_secret s ≡ with_secret t → s ≡ t
with_secret_injective e = cc

module _ (id now : ℕ) (admin : AdminUser) (g : Generated) (db : Db) where
  -- The tables after a mint, by the form or by JSON.
  pub post_form-writes :
      (parse_number : Text → Option ℕ) (form : MintForm)
      → ((post_form parse_number id now admin g form db).1 ≡ db)
        ⊎ ((team_id : ℕ) × (label : Text) × (budget : Option ℕ) × ((post_form parse_number id now
                admin g form db).1
              ≡ with_top id now admin g db team_id label budget))
  post_form-writes parse_number form = elim (post_form-cases id now admin g db parse_number form) [
    | inl (hidden, same) ↦ inl same
    | inr (team_id, label, budget, minted) ↦
        inr (team_id, label, budget, ap (λ (x : Reply Redirect × Db). x.1) minted)
  ]

  pub post_json-writes :
      (body : MintBody)
      → ((post_json id now admin g body db).1 ≡ db)
        ⊎ ((team_id : ℕ) × (label : Text) × (budget : Option ℕ) × ((post_json id now admin g body
                db).1
              ≡ with_top id now admin g db team_id label budget))
  post_json-writes body = elim (post_json-cases id now admin g db body) [
    | inl (hidden, same) ↦ inl same
    | inr (team_id, label, budget, minted) ↦
        inr (team_id, label, budget, ap (λ (x : Reply MintedKey × Db). x.1) minted)
  ]

module _ (encode : Text → List ℕ) (sha256 : List ℕ → List ℕ) (bytes : List ℕ) where
  abbrev generated : Generated
  generated = admin_generate_top_level_key encode sha256 bytes

  top-verifies :
      (verify_jwt : Text → Option (Option ℕ)) (id now : ℕ) (admin : AdminUser) (db : Db)
      (team_id : ℕ) (label : Text) (budget : Option ℕ)
      → verify_gateway_credential
          (hash_key encode sha256)
          verify_jwt
          (with_top id now admin generated db team_id label budget).keys
          now
          generated.secret
        ≢ none
  unfolding admin_generate_top_level_key admin_hash_key update_where top_level_row starts_with
      has_hash hash_key
  top-verifies verify_jwt id now admin db team_id label budget =
      let key = own_root now (top_level_row id now admin generated team_id label budget) in
      let first : In key (with_top id now admin generated db team_id label budget).keys =
        inl (rw ((==_iff id id).1 refl) refl) in
      verify_secret (with_top id now admin generated db team_id label budget).keys now
        (hash_key encode sha256) verify_jwt generated.secret key key refl first
        (text_eq_refl generated.hash) refl refl first refl refl

  -- The secret that the page shows after a form is accepted by the api from then on, whatever the
  -- hash function and the other rows are.
  pub post_form-verifies :
      (verify_jwt : Text → Option (Option ℕ)) (parse_number : Text → Option ℕ) (id now : ℕ)
      (admin : AdminUser) (form : MintForm) (db : Db) (s : Text)
      → (post_form parse_number id now admin generated form db).0 ≡ ok (with_secret s)
      → verify_gateway_credential
          (hash_key encode sha256)
          verify_jwt
          (post_form parse_number id now admin generated form db).1.keys
          now
          s
        ≢ none
  post_form-verifies verify_jwt parse_number id now admin form db s e =
      elim (post_form-cases id now admin generated db parse_number form) [
        | inl (hidden, same) ↦ absurd (hidden (with_secret s) e tt)
        | inr (team_id, label, budget, minted) ↦
            let shown : with_secret generated.secret ≡ with_secret s =
              ok-injective (rw minted at e) in
            rw (minted, ← with_secret_injective shown)
              (top-verifies verify_jwt id now admin db team_id label budget)
      ]

-- ===== src/Migrate/Rows.antt =====
-- What the rows of the tracking table are worth after a run of `up`.
use kamu_llm_gateway.Prelude.{
  ◌≡◌, refl, sym, ap, ◌∙◌, ◌⊎◌, inl, inr, Bool, true, false, not, Option, none, some, List, [], ◌∷◌,
  arith, Text, text_eq, text_eq_iff, text_eq_refl, any, find, find-eq-some, select, In, In-select,
  any_of_In, In_of_any, In-map, In_of_map, Bool-cases, Option-cases,
}
use kamu_llm_gateway.Migrate.{
  Applied, Migration, is_applied, has_filename, is_changed, verify_integrity, file_changed, fill,
  backfill, backfill_by, backfill_hashes, tracked,
}
use kamu_llm_gateway.Migrate.Up.{track_all}

pub not-any :
    {A : Type 0} (p : A → Bool) (xs : List A)
    → not (any p xs) ≡ true
    → (x : A) → In x xs
    → p x ≡ false
not-any p xs h x here = elim (Bool-cases (p x)) [
  | inr miss ↦ miss
  | inl hit ↦ let some_hit : any p xs ≡ true = any_of_In p x xs here hit in ground arith
]

-- A directory has one file of a name.
abbrev pub NamesDiffer : List Migration → Type 0
NamesDiffer ms = (m n : Migration) → In m ms → In n ms → m.filename ≡ n.filename → m ≡ n

module _ (compute_hash : Text → Text) where
  In-track_all :
      (r : Applied) (ms : List Migration) (rows : List Applied)
      → In r (track_all compute_hash ms rows)
      → ((m : Migration) × In m ms × (r ≡ tracked compute_hash m)) ⊎ In r rows
  In-track_all r [] rows h = inr h
  In-track_all r (m ∷ ms) rows h = elim (In-track_all r ms (tracked compute_hash m ∷ rows) h) [
    | inl (n, there, e) ↦ inl (n, inr there, e)
    | inr (inl e) ↦ inl (m, inl refl, e)
    | inr (inr old) ↦ inr old
  ]

  track_all_keeps :
      (r : Applied) (ms : List Migration) (rows : List Applied)
      → In r rows
      → In r (track_all compute_hash ms rows)
  track_all_keeps r [] rows h = h
  track_all_keeps r (m ∷ ms) rows h = track_all_keeps r ms (tracked compute_hash m ∷ rows) (inr h)

  track_all_tracks :
      (m : Migration) (ms : List Migration) (rows : List Applied)
      → In m ms
      → In (tracked compute_hash m) (track_all compute_hash ms rows)
  track_all_tracks m [] rows h = absurd h
  track_all_tracks m (n ∷ ms) rows (inl e) =
      rw e (track_all_keeps (tracked compute_hash n) ms (tracked compute_hash n ∷ rows) (inl refl))
  track_all_tracks m (n ∷ ms) rows (inr h) = track_all_tracks m ms (tracked compute_hash n ∷ rows) h

  -- A row that is not changed, and whose hash is filled in where its file is there.
  pub record IsSettled (migrations : List Migration) (r : Applied) : Type 0 where
    pub intact : is_changed compute_hash migrations r ≡ false
    pub filled : backfill compute_hash migrations r ≡ r

  module _ (migrations : List Migration) (differ : NamesDiffer migrations) where
    -- The file found under a migration's name is the migration, so its hash is the one stored.
    own_hash :
        (m : Migration)
        → In m migrations
        → is_changed compute_hash migrations (tracked compute_hash m) ≡ false
    own_hash m here = elim (Option-cases (find (has_filename m.filename) migrations)) [
      | inl missing ↦
          ap (λ (o : Option Migration). file_changed compute_hash o (compute_hash m.content))
            missing
      | inr (n, found) ↦
          let (there, same) = find-eq-some (has_filename m.filename) migrations found in
          let it : n ≡ m = differ n m there here ((text_eq_iff n.filename m.filename).0 same) in
          ap (λ (o : Option Migration). file_changed compute_hash o (compute_hash m.content))
            (found ∙ ap some it)
          ∙ rw (text_eq_refl (compute_hash m.content)) (ground arith)
    ]

    tracked-IsSettled :
        (m : Migration) → In m migrations → IsSettled migrations (tracked compute_hash m)
    tracked-IsSettled m here = record { intact = own_hash m here; filled = refl }

    backfill-IsSettled :
        (r : Applied)
        → is_changed compute_hash migrations r ≡ false
        → IsSettled migrations (backfill compute_hash migrations r)
    backfill-IsSettled r intact = elim (Option-cases r.hash) [
      | inr (h, kept) ↦
          let same : backfill compute_hash migrations r ≡ r =
            ap (λ (o : Option Text). backfill_by compute_hash migrations o r) kept in
          rw same (record { intact = intact; filled = same })
      | inl unknown ↦ elim (Option-cases (find (has_filename r.filename) migrations)) [
        | inl missing ↦
            let same : backfill compute_hash migrations r ≡ r =
              ap (λ (o : Option Text). backfill_by compute_hash migrations o r) unknown
              ∙ ap (λ (o : Option Migration). fill compute_hash o r) missing in
            rw same (record { intact = intact; filled = same })
        | inr (m, found) ↦
            let (there, name) = find-eq-some (has_filename r.filename) migrations found in
            let named : r.filename ≡ m.filename =
              sym ((text_eq_iff m.filename r.filename).0 name) in
            let filled : backfill compute_hash migrations r ≡ tracked compute_hash m =
              ap (λ (o : Option Text). backfill_by compute_hash migrations o r) unknown
              ∙ (ap (λ (o : Option Migration). fill compute_hash o r) found
                  ∙ ap (λ (f : Text). record { filename = f; hash = some (compute_hash m.content) })
                      named) in
            rw filled (tracked-IsSettled m there)
      ]
    ]

    fill_filename :
        (o : Option Migration) (r : Applied) → (fill compute_hash o r).filename ≡ r.filename
    fill_filename none r = refl
    fill_filename (some m) r = refl

    pub backfill_filename :
        (r : Applied) → (backfill compute_hash migrations r).filename ≡ r.filename
    backfill_filename r = elim (Option-cases r.hash) [
      | inr (h, kept) ↦
          ap (λ (o : Option Text). (backfill_by compute_hash migrations o r).filename) kept
      | inl unknown ↦
          ap (λ (o : Option Text). (backfill_by compute_hash migrations o r).filename) unknown
          ∙ fill_filename (find (has_filename r.filename) migrations) r
    ]

    -- The rows that a run leaves are settled when the old ones were intact.
    pub run-IsSettled :
        (pending : List Migration) (rows : List Applied)
        → ((m : Migration) → In m pending → In m migrations)
        → verify_integrity compute_hash migrations rows ≡ true
        → (r : Applied)
        → In r (track_all compute_hash pending (backfill_hashes compute_hash migrations rows))
        → IsSettled migrations r
    unfolding verify_integrity backfill_hashes
    run-IsSettled pending rows ours intact r here =
        elim (In-track_all r pending (backfill_hashes compute_hash migrations rows) here) [
          | inl (m, there, e) ↦ rw e (tracked-IsSettled m (ours m there))
          | inr old ↦
              let (q, there, e) = In_of_map (backfill compute_hash migrations) r rows old in
              rw e (
                backfill-IsSettled q
                  (not-any (is_changed compute_hash migrations) rows intact q there))
        ]

    -- Every file of the directory has its row after the run.
    pub run_tracks :
        (rows : List Applied) (m : Migration)
        → In m migrations
        → is_applied
            (track_all compute_hash
              (select (λ n. not (is_applied rows n)) migrations)
              (backfill_hashes compute_hash migrations rows))
            m
          ≡ true
    unfolding backfill_hashes
    run_tracks rows m here = elim (Bool-cases (is_applied rows m)) [
      | inr fresh ↦
          any_of_In (λ (r : Applied). text_eq r.filename m.filename) (tracked compute_hash m)
            (track_all compute_hash (select (λ n. not (is_applied rows n)) migrations)
              (backfill_hashes compute_hash migrations rows))
            (track_all_tracks m (select (λ n. not (is_applied rows n)) migrations)
              (backfill_hashes compute_hash migrations rows)
              (In-select (λ n. not (is_applied rows n)) m migrations here (ap not fresh)))
            (text_eq_refl m.filename)
      | inl old ↦
          let (r, there, same) =
            In_of_any (λ (r : Applied). text_eq r.filename m.filename) rows old in
          any_of_In (λ (r : Applied). text_eq r.filename m.filename)
            (backfill compute_hash migrations r)
            (track_all compute_hash (select (λ n. not (is_applied rows n)) migrations)
              (backfill_hashes compute_hash migrations rows))
            (track_all_keeps (backfill compute_hash migrations r)
              (select (λ n. not (is_applied rows n)) migrations)
              (backfill_hashes compute_hash migrations rows)
              (In-map (backfill compute_hash migrations) r rows there))
            (ap (λ (f : Text). text_eq f m.filename) (backfill_filename r) ∙ same)
    ]

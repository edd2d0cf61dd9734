-- ===== src/Migrate/Up.antt =====
-- What `up` leaves behind.
use kamu_llm_gateway.Prelude.{
  ◌≡◌, refl, ap, inl, inr, Option, none, some, List, [], ◌∷◌, ◌++◌, Text, Option-cases,
}
use kamu_llm_gateway.Migrate.{Applied, Migration, done, failed, tracked, apply_all}

module _ {Schema : Type 0} (execute : Text → Schema → Option Schema) where
  -- What the pending migrations do to the schema, one after the other, up to the first that fails.
  abbrev pub replay : List Migration → Schema → Option Schema
  replay [] schema = some schema
  replay (m ∷ ms) schema = elim (execute m.content schema) [
    | none ↦ none
    | some later ↦ replay ms later
  ]

module _ (compute_hash : Text → Text) where
  abbrev pub track_all : List Migration → List Applied → List Applied
  track_all [] rows = rows
  track_all (m ∷ ms) rows = track_all ms (tracked compute_hash m ∷ rows)

  module _ {Schema : Type 0} (execute : Text → Schema → Option Schema) where
    -- The migrations before the failing one are applied and tracked, and nothing of it or after it.
    pub record StoppedAt (pending : List Migration) (schema : Schema) (rows : List Applied)
        (out : Schema × List Applied) : Type 0 where
      pub before : List Migration
      pub culprit : Migration
      pub after : List Migration
      pub splits : pending ≡ before ++ (culprit ∷ after)
      pub replayed : replay execute before schema ≡ some out.0
      pub fails : execute culprit.content out.0 ≡ none
      pub rows_are : out.1 ≡ track_all before rows

    pub apply_all-failed :
        (pending : List Migration) (schema : Schema) (rows : List Applied)
        → (apply_all compute_hash execute pending schema rows).0 ≡ failed
        → StoppedAt pending schema rows (apply_all compute_hash execute pending schema rows).1
    unfolding apply_all
    apply_all-failed [] schema rows e = absurd (cc e)
    apply_all-failed (m ∷ pending) schema rows e = elim (Option-cases (execute m.content schema)) [
      | inl broken ↦
          rw (broken, apply_all)
            record {
              before = [];
              culprit = m;
              after = pending;
              splits = refl;
              replayed = refl;
              fails = broken;
              rows_are = refl;
            }
      | inr (later, worked) ↦
          let ih =
            apply_all-failed pending later (tracked compute_hash m ∷ rows)
              (rw (worked, apply_all) at e) in
          let stopped : StoppedAt (m ∷ pending) schema rows
              (apply_all compute_hash execute pending later (tracked compute_hash m ∷ rows)).1 =
            record {
              before = m ∷ ih.before;
              culprit = ih.culprit;
              after = ih.after;
              splits = ap (λ (l : List Migration). m ∷ l) ih.splits;
              replayed = rw (worked, replay) ih.replayed;
              fails = ih.fails;
              rows_are = ih.rows_are;
            } in
          rw (worked, apply_all) stopped
    ]

    pub apply_all-done :
        (pending : List Migration) (schema : Schema) (rows : List Applied)
        → (apply_all compute_hash execute pending schema rows).0 ≡ done
        → (apply_all compute_hash execute pending schema rows).1.1 ≡ track_all pending rows
    unfolding apply_all
    apply_all-done [] schema rows e = refl
    apply_all-done (m ∷ pending) schema rows e = elim (Option-cases (execute m.content schema)) [
      | inl broken ↦ absurd (cc (rw (broken, apply_all) at e))
      | inr (later, worked) ↦
          rw (worked, apply_all)
            (apply_all-done pending later (tracked compute_hash m ∷ rows)
              (rw (worked, apply_all) at e))
    ]

-- ===== src/Migrate/Down.antt =====
-- What `down` takes back: the row with the greatest file name, and only that one.
use kamu_llm_gateway.Prelude.{
  ℕ, ◌≡◌, refl, sym, ap, ◌∙◌, ◌⊎◌, inl, inr, Bool, true, false, not, Option, some, List, [], ◌∷◌,
  arith, Text, codes, text_eq, text_eq_iff, find, find-eq-some, subst, select, In, Bool-cases,
  Option-cases, ◌<◌,
}
use kamu_llm_gateway.Migrate.{
  Applied, Entry, Migration, Store, done, has_filename, read_migrations, text_lt, last_applied,
  down_filename, roll_back, down_last, down_rows, down,
}

-- `s` does not come after `t`.
abbrev pub NotAfter : Text → Text → Type 0
NotAfter s t = text_lt t s ≡ false

text_lt-cons :
    (c d : ℕ) (s t : Text)
    → text_lt (c ∷ s) (d ∷ t) ≡ false
    → (d < c) ⊎ ((c ≡ d) × (text_lt s t ≡ false))
unfolding text_lt
text_lt-cons c d s t h = ground arith

text_lt-heads :
    (c d : ℕ) (s t : Text)
    → text_lt (c ∷ s) (d ∷ t) ≡ true
    → (c < d) ⊎ ((c ≡ d) × (text_lt s t ≡ true))
unfolding text_lt
text_lt-heads c d s t h = ground arith

text_lt_of :
    (c d : ℕ) (s t : Text)
    → (d < c) ⊎ ((c ≡ d) × (text_lt s t ≡ false))
    → text_lt (c ∷ s) (d ∷ t) ≡ false
unfolding text_lt
text_lt_of c d s t h = ground arith

NotAfter-refl : (s : Text) → NotAfter s s
unfolding text_lt
NotAfter-refl [] = refl
NotAfter-refl (c ∷ s) = text_lt_of c c s s (inr (refl, NotAfter-refl s))

NotAfter-trans : (s t u : Text) → NotAfter s t → NotAfter t u → NotAfter s u
unfolding text_lt
NotAfter-trans [] t [] h k = refl
NotAfter-trans [] t (e ∷ u) h k = refl
NotAfter-trans (c ∷ s) [] u h k = absurd (cc h)
NotAfter-trans (c ∷ s) (d ∷ t) [] h k = absurd (cc k)
NotAfter-trans (c ∷ s) (d ∷ t) (e ∷ u) h k =
    text_lt_of e c u s
      (heads (NotAfter-trans s t u) (text_lt-cons d c t s h) (text_lt-cons e d u t k))
  where
    heads :
        (NotAfter s t → NotAfter t u → NotAfter s u)
        → (c < d) ⊎ ((d ≡ c) × NotAfter s t)
        → (d < e) ⊎ ((e ≡ d) × NotAfter t u)
        → (c < e) ⊎ ((e ≡ c) × NotAfter s u)
    heads later (inl a) (inl b) = inl (omega arith)
    heads later (inl a) (inr (b, y)) = inl (omega arith)
    heads later (inr (a, x)) (inl b) = inl (omega arith)
    heads later (inr (a, x)) (inr (b, y)) = inr (b ∙ a, later x y)

NotAfter-of_lt : (s t : Text) → text_lt s t ≡ true → NotAfter s t
unfolding text_lt
NotAfter-of_lt [] [] h = absurd (cc h)
NotAfter-of_lt [] (d ∷ t) h = refl
NotAfter-of_lt (c ∷ s) [] h = absurd (cc h)
NotAfter-of_lt (c ∷ s) (d ∷ t) h = elim (text_lt-heads c d s t h) [
  | inl less ↦ text_lt_of d c t s (inl less)
  | inr (same, rest) ↦ text_lt_of d c t s (inr (sym same, NotAfter-of_lt s t rest))
]

within :
    (b : Text) (q : Applied) (rows : List Applied)
    → NotAfter q.filename b
    → ((r : Applied) → In r rows → NotAfter r.filename b)
    → (r : Applied) → In r (q ∷ rows)
    → NotAfter r.filename b
within b q rows first rest r (inl e) = rw e first
within b q rows first rest r (inr h) = rest r h

last_applied-last :
    (best : Text) (rows : List Applied)
    → NotAfter best (last_applied best rows)
      × ((r : Applied) → In r rows → NotAfter r.filename (last_applied best rows))
unfolding last_applied
last_applied-last best [] = (NotAfter-refl best, λ r h. absurd h)
last_applied-last best (q ∷ rows) = elim (Bool-cases (text_lt best q.filename)) [
  | inl more ↦
      let (it, rest) = last_applied-last q.filename rows in
      rw (more, last_applied)
        (
          NotAfter-trans best q.filename (last_applied q.filename rows)
              (NotAfter-of_lt best q.filename more) it,
          within (last_applied q.filename rows) q rows it rest,
        )
  | inr less ↦
      let (it, rest) = last_applied-last best rows in
      rw (less, last_applied)
        (
          it,
          within (last_applied best rows) q rows
              (NotAfter-trans q.filename best (last_applied best rows) less it) rest,
        )
]

last_applied-In :
    (row : Applied) (rows : List Applied)
    → (r : Applied) × In r (row ∷ rows) × (r.filename ≡ last_applied row.filename rows)
unfolding last_applied
last_applied-In row [] = (row, inl refl, refl)
last_applied-In row (q ∷ rows) = elim (Bool-cases (text_lt row.filename q.filename)) [
  | inl more ↦ let (r, h, e) = last_applied-In q rows in rw (more, last_applied) (r, inr h, e)
  | inr less ↦ let (r, h, e) = last_applied-In row rows in rw (less, last_applied) (r, skip r h, e)
]
  where
    skip : (r : Applied) → In r (row ∷ rows) → In r (row ∷ q ∷ rows)
    skip r (inl e) = inl e
    skip r (inr h) = inr (inr h)

module _ (compute_hash : Text → Text) {Schema : Type 0} (execute : Text → Schema → Option Schema)
    (le : Text → Text → Bool) (dir : List Entry) where
  -- How a rollback that worked relates the database after it to the one before.
  pub record IsUndone (rows : List Applied) (before after : Store Schema) : Type 0 where
    pub row : Applied
    pub here : In row rows
    pub last : (r : Applied) → In r rows → NotAfter r.filename row.filename
    pub file : Migration
    pub named : file.filename ≡ down_filename row.filename
    pub read : In file (read_migrations le (codes ".down.sql") dir)
    pub ran : execute file.content before.schema ≡ some after.schema
    pub untracked : after.applied ≡ some (select (λ r. not (text_eq r.filename row.filename)) rows)

  roll_back-schema :
      (last : Text) (m : Migration) (schema : Schema) (rows : List Applied)
      → (roll_back compute_hash execute last m schema rows).0 ≡ done
      → (execute m.content schema
          ≡ some (roll_back compute_hash execute last m schema rows).1.schema)
        × ((roll_back compute_hash execute last m schema rows).1.applied
            ≡ some (select (λ r. not (text_eq r.filename last)) rows))
  unfolding roll_back
  roll_back-schema last m schema rows ends = elim (Option-cases (execute m.content schema)) [
    | inl broken ↦ absurd (cc (rw (broken, roll_back) at ends))
    | inr (later, worked) ↦ rw (worked, roll_back) (refl, refl)
  ]

  down_last-IsUndone :
      (schema : Schema) (row : Applied) (rows : List Applied) (tracking : Option (List Applied))
      → (down_last compute_hash execute le dir schema row rows).0 ≡ done
      → IsUndone
          (row ∷ rows)
          (record { schema = schema; applied = tracking })
          (down_last compute_hash execute le dir schema row rows).1
  unfolding down_last
  down_last-IsUndone schema row rows tracking ends =
      let last = last_applied row.filename rows in
      elim (Option-cases
        (find (has_filename (down_filename last)) (read_migrations le (codes ".down.sql") dir))) [
          | inl missing ↦ absurd (cc (rw (missing, down_last) at ends))
          | inr (m, found) ↦
              let (r, here, named) = last_applied-In row rows in
              let (it, rest) = last_applied-last row.filename rows in
              let (read, same) =
                find-eq-some (has_filename (down_filename last))
                  (read_migrations le (codes ".down.sql") dir) found in
              let (ran, gone) =
                roll_back-schema last m schema (row ∷ rows) (rw (found, down_last) at ends) in
              let back = sym named in
              let undone : IsUndone (row ∷ rows) (record { schema = schema; applied = tracking })
                  (roll_back compute_hash execute last m schema (row ∷ rows)).1 =
                record {
                  row = r;
                  here = here;
                  last = λ q h. subst (NotAfter q.filename) back (within last row rows it rest q h);
                  file = m;
                  named =
                      (text_eq_iff m.filename (down_filename last)).0 same ∙ ap down_filename back;
                  read = read;
                  ran = ran;
                  untracked =
                      gone
                      ∙ ap (λ l. some (select (λ q. not (text_eq q.filename l)) (row ∷ rows))) back;
                } in
              rw (found, down_last) undone
        ]

  -- A `down` that ends well on a database with rows takes the migration with the greatest file name
  -- back: it has run the down file of that name, and the row of that name is the only one gone.
  pub down-IsUndone :
      (schema : Schema) (row : Applied) (rows : List Applied)
      → (down compute_hash execute le dir
          (record { schema = schema; applied = some (row ∷ rows) })).0
        ≡ done
      → IsUndone
          (row ∷ rows)
          (record { schema = schema; applied = some (row ∷ rows) })
          (down compute_hash execute le dir
            (record { schema = schema; applied = some (row ∷ rows) })).1
  unfolding down down_rows
  down-IsUndone schema row rows ends = down_last-IsUndone schema row rows (some (row ∷ rows)) ends

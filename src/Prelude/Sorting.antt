-- ===== src/Prelude/Sorting.antt =====
-- Sorting by insertion, which keeps the order of equal elements, and the removal of duplicates.
use Prim.Native.Nat.{◌+◌}
use mathlib.Core.Path.{◌≡◌, refl, ◌∙◌}
use mathlib.Core.Logic.{◌⊎◌, inl, inr}
use mathlib.Core.Bool.{Bool, true, false}
use mathlib.Core.List.{List, [], ◌∷◌}
use native.Mathlib.Omega.{arith}
use kamu_llm_gateway.Prelude.Tests.{if◌then◌else◌, Bool-cases}
use kamu_llm_gateway.Prelude.Lists.{
  length, In, All, All-In, any, In_of_any, any_of_In, any-eq-false,
}

module _ {A : Type 0} (le : A → A → Bool) where
  -- Before the first element that does not come before it.
  unfoldable pub insert_by : A → List A → List A
  insert_by x [] = x ∷ []
  insert_by x (y ∷ ys) = let rest = insert_by x ys in if le x y then x ∷ y ∷ ys else y ∷ rest

  unfoldable pub sort_by : List A → List A
  unfolding insert_by
  sort_by [] = []
  sort_by (x ∷ xs) = insert_by x (sort_by xs)

  In_of_insert_by : (x y : A) (ys : List A) → In x (insert_by y ys) → (x ≡ y) ⊎ In x ys
  unfolding insert_by
  In_of_insert_by x y [] m = m
  In_of_insert_by x y (z ∷ ys) m = elim (Bool-cases (le y z)) [
    | inl before ↦ rw before at m
    | inr after ↦
        let there : In x (z ∷ insert_by y ys) = rw after at m in
        elim there [
          | inl e ↦ inr (inl e)
          | inr later ↦ elim (In_of_insert_by x y ys later) [ inl e ↦ inl e | inr k ↦ inr (inr k) ]
        ]
  ]

  In-insert_by : (x y : A) (ys : List A) → (x ≡ y) ⊎ In x ys → In x (insert_by y ys)
  unfolding insert_by
  In-insert_by x y [] m = m
  In-insert_by x y (z ∷ ys) m = elim (Bool-cases (le y z)) [
    | inl before ↦ rw (before, insert_by) m
    | inr after ↦
        rw (after, insert_by)
          (elim m as (λ _. In x (z ∷ insert_by y ys)) [
            | inl e ↦ inr (In-insert_by x y ys (inl e))
            | inr (inl e) ↦ inl e
            | inr (inr k) ↦ inr (In-insert_by x y ys (inr k))
          ])
  ]

  pub In_of_sort_by : (x : A) (xs : List A) → In x (sort_by xs) → In x xs
  unfolding sort_by
  In_of_sort_by x [] m = m
  In_of_sort_by x (y ∷ ys) m = elim (In_of_insert_by x y (sort_by ys) m) [
    | inl e ↦ inl e
    | inr k ↦ inr (In_of_sort_by x ys k)
  ]

  pub In-sort_by : (x : A) (xs : List A) → In x xs → In x (sort_by xs)
  unfolding sort_by
  In-sort_by x [] m = m
  In-sort_by x (y ∷ ys) (inl e) = In-insert_by x y (sort_by ys) (inl e)
  In-sort_by x (y ∷ ys) (inr m) = In-insert_by x y (sort_by ys) (inr (In-sort_by x ys m))

  length-insert_by : (x : A) (ys : List A) → length (insert_by x ys) ≡ 1 + length ys
  unfolding insert_by
  length-insert_by x [] = refl
  length-insert_by x (y ∷ ys) = elim (Bool-cases (le x y)) [
    | inl before ↦ rw (before, insert_by) (omega arith)
    | inr after ↦ rw (after, insert_by) (omega (arith, length-insert_by x ys))
  ]

  pub length-sort_by : (xs : List A) → length (sort_by xs) ≡ length xs
  unfolding sort_by
  length-sort_by [] = refl
  length-sort_by (x ∷ xs) = omega (arith, length-insert_by x (sort_by xs), length-sort_by xs)

  -- No element comes after a later one.
  abbrev pub IsOrdered : List A → Type 0
  IsOrdered [] = Unit
  IsOrdered (x ∷ xs) = All (λ y. le x y ≡ true) xs × IsOrdered xs

  All-of_In : (P : A → Type 0) (xs : List A) → ((x : A) → In x xs → P x) → All P xs
  All-of_In P [] h = tt
  All-of_In P (x ∷ xs) h = (h x (inl refl), All-of_In P xs (λ y m. h y (inr m)))

  module _ (total : (x y : A) → le x y ≡ false → le y x ≡ true)
      (trans : (x y z : A) → le x y ≡ true → le y z ≡ true → le x z ≡ true) where
    insert_by-IsOrdered : (x : A) (ys : List A) → IsOrdered ys → IsOrdered (insert_by x ys)
    unfolding insert_by
    insert_by-IsOrdered x [] ordered = (tt, tt)
    insert_by-IsOrdered x (y ∷ ys) (first, rest) = elim (Bool-cases (le x y)) [
      | inl before ↦
          rw (before, insert_by)
            (
              (
                before,
                All-of_In (λ z. le x z ≡ true) ys
                    (λ z m. trans x y z before (All-In (λ z. le y z ≡ true) z ys first m)),
              ),
              (first, rest),
            )
      | inr after ↦
          rw (after, insert_by)
            (
              All-of_In (λ z. le y z ≡ true) (insert_by x ys)
                  (λ z m. above z (total x y after) (In_of_insert_by z x ys m)),
              insert_by-IsOrdered x ys rest,
            )
    ]
      where
        above : (z : A) → le y x ≡ true → (z ≡ x) ⊎ In z ys → le y z ≡ true
        above z yx (inl e) = rw e yx
        above z yx (inr m) = All-In (λ z. le y z ≡ true) z ys first m

    pub sort_by-IsOrdered : (xs : List A) → IsOrdered (sort_by xs)
    unfolding sort_by
    sort_by-IsOrdered [] = tt
    sort_by-IsOrdered (x ∷ xs) = insert_by-IsOrdered x (sort_by xs) (sort_by-IsOrdered xs)

module _ {A : Type 0} (same : A → A → Bool) where
  -- One of each, the last of the equal ones.
  unfoldable pub distinct : List A → List A
  distinct [] = []
  distinct (x ∷ xs) = let rest = distinct xs in if any (same x) rest then rest else x ∷ rest

  pub In_of_distinct : (x : A) (xs : List A) → In x (distinct xs) → In x xs
  unfolding distinct
  In_of_distinct x [] m = m
  In_of_distinct x (y ∷ ys) m = elim (Bool-cases (any (same y) (distinct ys))) [
    | inl again ↦ inr (In_of_distinct x ys (rw (again, distinct) at m))
    | inr new ↦
        let here : In x (y ∷ distinct ys) = rw (new, distinct) at m in
        elim here [ inl e ↦ inl e | inr k ↦ inr (In_of_distinct x ys k) ]
  ]

  module _ (same_iff : (x y : A) → same x y ≡ true → x ≡ y)
      (same_refl : (x : A) → same x x ≡ true) where
    pub In-distinct : (x : A) (xs : List A) → In x xs → In x (distinct xs)
    unfolding distinct
    In-distinct x [] m = m
    In-distinct x (y ∷ ys) m = elim (Bool-cases (any (same y) (distinct ys))) [
      | inr new ↦
          rw (new, distinct)
            (elim m as (λ _. In x (y ∷ distinct ys)) [
              | inl e ↦ inl e
              | inr k ↦ inr (In-distinct x ys k)
            ])
      | inl again ↦
          rw (again, distinct)
            (elim m as (λ _. In x (distinct ys)) [
              | inr k ↦ In-distinct x ys k
              | inl e ↦
                  let (z, there, hit) = In_of_any (same y) (distinct ys) again in
                  rw (e ∙ same_iff y z hit) there
            ])
    ]

  -- No element equals a later one.
  abbrev pub AllDiffer : List A → Type 0
  AllDiffer [] = Unit
  AllDiffer (x ∷ xs) = (any (same x) xs ≡ false) × AllDiffer xs

  pub distinct-AllDiffer : (xs : List A) → AllDiffer (distinct xs)
  unfolding distinct
  distinct-AllDiffer [] = tt
  distinct-AllDiffer (x ∷ xs) = elim (Bool-cases (any (same x) (distinct xs))) [
    | inl again ↦ rw (again, distinct) (distinct-AllDiffer xs)
    | inr new ↦ rw (new, distinct) ((new, distinct-AllDiffer xs))
  ]

  module _ (le : A → A → Bool) (same_sym : (x y : A) → same x y ≡ same y x) where
    any-insert_by :
        (p : A → Bool) (x : A) (ys : List A)
        → p x ≡ false
        → any p ys ≡ false
        → any p (insert_by le x ys) ≡ false
    unfolding insert_by
    any-insert_by p x [] h k = rw h
    any-insert_by p x (y ∷ ys) h k = elim (Bool-cases (p y)) [
      | inl hit ↦ absurd (ground (arith, hit, k))
      | inr miss ↦
          let rest : any p ys ≡ false = ground (arith, miss, k) in
          elim (Bool-cases (le x y)) [
            | inl before ↦ rw (before, insert_by, h, miss) rest
            | inr after ↦ rw (after, insert_by, miss) (any-insert_by p x ys h rest)
          ]
    ]

    insert_by-AllDiffer :
        (x : A) (ys : List A)
        → any (same x) ys ≡ false
        → AllDiffer ys
        → AllDiffer (insert_by le x ys)
    unfolding insert_by
    insert_by-AllDiffer x [] h differ = (refl, tt)
    insert_by-AllDiffer x (y ∷ ys) h (first, rest) = elim (Bool-cases (same x y)) [
      | inl hit ↦ absurd (ground (arith, hit, h))
      | inr miss ↦
          let others : any (same x) ys ≡ false = ground (arith, miss, h) in
          elim (Bool-cases (le x y)) [
            | inl before ↦ rw (before, insert_by) ((h, (first, rest)))
            | inr after ↦
                rw (after, insert_by)
                  ((
                    any-insert_by (same y) x ys (same_sym y x ∙ miss) first,
                    insert_by-AllDiffer x ys others rest,
                  ))
          ]
    ]

    pub sort_by-AllDiffer : (xs : List A) → AllDiffer xs → AllDiffer (sort_by le xs)
    unfolding sort_by
    sort_by-AllDiffer [] differ = tt
    sort_by-AllDiffer (x ∷ xs) (first, rest) =
        insert_by-AllDiffer x (sort_by le xs) (absent x xs first) (sort_by-AllDiffer xs rest)
      where
        absent :
            (x : A) (xs : List A) → any (same x) xs ≡ false → any (same x) (sort_by le xs) ≡ false
        absent x xs first = any-eq-false (same x) (sort_by le xs) (λ y m.
            elim (Bool-cases (same x y)) [
              | inl hit ↦
                  absurd
                    (ground (arith, any_of_In (same x) y xs (In_of_sort_by le y xs m) hit, first))
              | inr miss ↦ miss
            ])

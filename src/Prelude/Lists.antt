-- ===== src/Prelude/Lists.antt =====
-- Lists measured by native numbers, and membership as a predicate by recursion.
use Prim.Native.Nat.{ℕ, zero, suc, ◌+◌, ◌≤◌}
use mathlib.Core.Path.{◌≡◌, refl, ap, sym}
use mathlib.Core.Logic.{◌⊎◌, inl, inr}
use mathlib.Core.Bool.{Bool, true, false, ◌&&◌, ◌||◌, and-eq-true_iff}
use mathlib.Core.List.{List, [], ◌∷◌, ◌++◌, map}
use mathlib.Core.Option.{Option, none, some}
use native.Mathlib.Omega.{arith}
use kamu_llm_gateway.Prelude.Tests.{if◌then◌else◌, Bool-cases}

module _ {ℓ} {A : Type ℓ} where
  abbrev pub length : List A → ℕ
  length [] = 0
  length (x ∷ xs) = suc (length xs)

  abbrev pub take : ℕ → List A → List A
  take zero xs = []
  take (suc n) [] = []
  take (suc n) (x ∷ xs) = x ∷ take n xs

  abbrev pub drop : ℕ → List A → List A
  drop zero xs = xs
  drop (suc n) [] = []
  drop (suc n) (x ∷ xs) = drop n xs

  abbrev pub replicate : ℕ → A → List A
  replicate zero a = []
  replicate (suc n) a = a ∷ replicate n a

  -- `xs.find(p)`
  abbrev pub find : (A → Bool) → List A → Option A
  find p [] = none
  find p (x ∷ xs) = if p x then some x else find p xs

  -- `xs.some(p)` and `xs.every(p)`
  abbrev pub any : (A → Bool) → List A → Bool
  any p [] = false
  any p (x ∷ xs) = p x || any p xs

  abbrev pub all : (A → Bool) → List A → Bool
  all p [] = true
  all p (x ∷ xs) = p x && all p xs

  -- `SELECT … WHERE p`
  abbrev pub select : (A → Bool) → List A → List A
  select p [] = []
  select p (x ∷ xs) = let rest = select p xs in if p x then x ∷ rest else rest

  -- `SELECT COUNT(*) … WHERE p`
  abbrev pub count_where : (A → Bool) → List A → ℕ
  count_where p [] = 0
  count_where p (x ∷ xs) = (if p x then 1 else 0) + count_where p xs

  abbrev pub head? : List A → Option A
  head? [] = none
  head? (x ∷ _) = some x

  pub length-append : (xs ys : List A) → length (xs ++ ys) ≡ length xs + length ys
  length-append [] ys = omega arith
  length-append (x ∷ xs) ys = omega (arith, length-append xs ys)

  pub length-replicate : (n : ℕ) (a : A) → length (replicate n a) ≡ n
  length-replicate zero a = refl
  length-replicate (suc n) a = ap suc (length-replicate n a)

module _ {A : Type 0} where
  -- `x` stands in the list.
  abbrev pub In : A → List A → Type 0
  In x [] = ⊥
  In x (y ∷ ys) = (x ≡ y) ⊎ In x ys

  abbrev pub All : (A → Type 0) → List A → Type 0
  All P [] = Unit
  All P (x ∷ xs) = P x × All P xs

  pub All-append : (P : A → Type 0) (xs ys : List A) → All P xs → All P ys → All P (xs ++ ys)
  All-append P [] ys h k = k
  All-append P (x ∷ xs) ys (p, h) k = (p, All-append P xs ys h k)

  pub All-In : (P : A → Type 0) (x : A) (xs : List A) → All P xs → In x xs → P x
  All-In P x [] h m = absurd m
  All-In P x (y ∷ ys) (p, h) (inl e) = rw e p
  All-In P x (y ∷ ys) (p, h) (inr m) = All-In P x ys h m

  pub In-append_left : (x : A) (xs ys : List A) → In x xs → In x (xs ++ ys)
  In-append_left x [] ys m = absurd m
  In-append_left x (z ∷ xs) ys (inl e) = inl e
  In-append_left x (z ∷ xs) ys (inr m) = inr (In-append_left x xs ys m)

  pub In-append_right : (x : A) (xs ys : List A) → In x ys → In x (xs ++ ys)
  In-append_right x [] ys m = m
  In-append_right x (z ∷ xs) ys m = inr (In-append_right x xs ys m)

  pub In-append : (x : A) (xs ys : List A) → In x (xs ++ ys) → In x xs ⊎ In x ys
  In-append x [] ys m = inr m
  In-append x (z ∷ xs) ys (inl e) = inl (inl e)
  In-append x (z ∷ xs) ys (inr m) = elim (In-append x xs ys m) [
    | inl a ↦ inl (inr a)
    | inr b ↦ inr b
  ]

  -- `WHERE p` keeps exactly the rows that pass.
  pub In-select : (p : A → Bool) (x : A) (xs : List A) → In x xs → p x ≡ true → In x (select p xs)
  In-select p x [] m h = absurd m
  In-select p x (y ∷ ys) (inl e) h = rw (← e, h, select) (inl refl)
  In-select p x (y ∷ ys) (inr m) h = elim (Bool-cases (p y)) [
    | inl kept ↦ rw (kept, select) (inr (In-select p x ys m h))
    | inr dropped ↦ rw (dropped, select) (In-select p x ys m h)
  ]

  first_of_select :
      (p : A → Bool) (x y : A) (ys : List A)
      → (In x (select p ys) → In x ys × (p x ≡ true))
      → In x (y ∷ select p ys)
      → p y ≡ true
      → In x (y ∷ ys) × (p x ≡ true)
  first_of_select p x y ys ih (inl e) k = (inl e, rw e k)
  first_of_select p x y ys ih (inr m) k = let (a, b) = ih m in (inr a, b)

  pub In_of_select :
      (p : A → Bool) (x : A) (xs : List A) → In x (select p xs) → In x xs × (p x ≡ true)
  In_of_select p x [] m = absurd m
  In_of_select p x (y ∷ ys) m = elim (Bool-cases (p y)) [
    | inr dropped ↦ let (m', h) = In_of_select p x ys (rw (dropped, select) at m) in (inr m', h)
    | inl kept ↦ first_of_select p x y ys (In_of_select p x ys) (rw (kept, select) at m) kept
  ]

  pub find-eq-some :
      (p : A → Bool) (xs : List A) {x : A} → find p xs ≡ some x → In x xs × (p x ≡ true)
  find-eq-some p [] e = cc
  find-eq-some p (y ∷ ys) {x} e = elim (Bool-cases (p y)) [
    | inl hit ↦ let same : y ≡ x = ground arith in (inl (sym same), rw same at hit)
    | inr miss ↦ let (m, h) = find-eq-some p ys (ground arith) in (inr m, h)
  ]

  pub find-eq-none : (p : A → Bool) (xs : List A) → find p xs ≡ none → All (λ x. p x ≡ false) xs
  find-eq-none p [] e = tt
  find-eq-none p (y ∷ ys) e = elim (Bool-cases (p y)) [
    | inl hit ↦ ground arith
    | inr miss ↦ (miss, find-eq-none p ys (ground arith))
  ]

  pub all-In : (p : A → Bool) (x : A) (xs : List A) → all p xs ≡ true → In x xs → p x ≡ true
  all-In p x [] h m = absurd m
  all-In p x (y ∷ ys) h (inl e) = rw e (((and-eq-true_iff _ _).0 h).0)
  all-In p x (y ∷ ys) h (inr m) = all-In p x ys (((and-eq-true_iff _ _).0 h).1) m

  pub all_of_In : (p : A → Bool) (xs : List A) → ((x : A) → In x xs → p x ≡ true) → all p xs ≡ true
  all_of_In p [] h = refl
  all_of_In p (y ∷ ys) h = rw (h y (inl refl)) (all_of_In p ys (λ x m. h x (inr m)))

  pub any_of_In : (p : A → Bool) (x : A) (xs : List A) → In x xs → p x ≡ true → any p xs ≡ true
  any_of_In p x [] m h = absurd m
  any_of_In p x (y ∷ ys) (inl e) h = rw (← e, h)
  any_of_In p x (y ∷ ys) (inr m) h = elim (Bool-cases (p y)) [
    | inl here ↦ rw here
    | inr there ↦ rw there (any_of_In p x ys m h)
  ]

  pub In_of_any : (p : A → Bool) (xs : List A) → any p xs ≡ true → (x : A) × In x xs × (p x ≡ true)
  In_of_any p [] h = cc
  In_of_any p (y ∷ ys) h = elim (Bool-cases (p y)) [
    | inl here ↦ (y, inl refl, here)
    | inr there ↦ let (x, m, e) = In_of_any p ys (rw there at h) in (x, inr m, e)
  ]

  pub count_where_mono :
      (p q : A → Bool) (xs : List A)
      → ((x : A) → p x ≡ true → q x ≡ true)
      → count_where p xs ≤ count_where q xs
  count_where_mono p q [] h = omega arith
  count_where_mono p q (x ∷ xs) h = ground (arith, count_where_mono p q xs h, h x)

  pub any-eq-false :
      (p : A → Bool) (xs : List A) → ((x : A) → In x xs → p x ≡ false) → any p xs ≡ false
  any-eq-false p [] h = refl
  any-eq-false p (y ∷ ys) h = rw (h y (inl refl)) (any-eq-false p ys (λ x m. h x (inr m)))

  pub select-eq-nil :
      (p : A → Bool) (xs : List A) → ((x : A) → In x xs → p x ≡ false) → select p xs ≡ []
  select-eq-nil p [] h = refl
  select-eq-nil p (y ∷ ys) h = rw (h y (inl refl), select) (select-eq-nil p ys (λ x m. h x (inr m)))

  pub select-eq_self :
      (p : A → Bool) (xs : List A) → ((x : A) → In x xs → p x ≡ true) → select p xs ≡ xs
  select-eq_self p [] h = refl
  select-eq_self p (y ∷ ys) h =
      rw (h y (inl refl), select, select-eq_self p ys (λ x m. h x (inr m)))

  pub map-eq_self : (f : A → A) (xs : List A) → ((x : A) → In x xs → f x ≡ x) → map f xs ≡ xs
  map-eq_self f [] h = refl
  map-eq_self f (y ∷ ys) h = rw (h y (inl refl), map-eq_self f ys (λ x m. h x (inr m)))

  -- A filter whose test follows from that of a second one makes the second one idle.
  pub select-select :
      (p q : A → Bool) (xs : List A)
      → ((x : A) → In x xs → p x ≡ true → q x ≡ true)
      → select p (select q xs) ≡ select p xs
  select-select p q [] h = refl
  select-select p q (x ∷ xs) h =
      let rest = select-select p q xs (λ y m. h y (inr m)) in
      elim (Bool-cases (q x)) [
        | inl kept ↦ rw (kept, select, rest)
        | inr dropped ↦ elim (Bool-cases (p x)) [
          | inl hit ↦ absurd (cc (dropped, h x (inl refl) hit))
          | inr miss ↦ rw (dropped, select, miss) rest
        ]
      ]

module _ {A B : Type 0} where
  pub In-map : (f : A → B) (x : A) (xs : List A) → In x xs → In (f x) (map f xs)
  In-map f x [] m = absurd m
  In-map f x (y ∷ ys) (inl e) = inl (ap f e)
  In-map f x (y ∷ ys) (inr m) = inr (In-map f x ys m)

  pub In_of_map :
      (f : A → B) (y : B) (xs : List A) → In y (map f xs) → (x : A) × In x xs × (y ≡ f x)
  In_of_map f y [] m = absurd m
  In_of_map f y (x ∷ xs) (inl e) = (x, inl refl, e)
  In_of_map f y (x ∷ xs) (inr m) = let (z, there, e) = In_of_map f y xs m in (z, inr there, e)

  pub map-append : (f : A → B) (xs ys : List A) → map f (xs ++ ys) ≡ map f xs ++ map f ys
  map-append f [] ys = refl
  map-append f (x ∷ xs) ys = ap (λ l. f x ∷ l) (map-append f xs ys)

module _ {A : Type 0} where
  pub select-append :
      (p : A → Bool) (xs ys : List A) → select p (xs ++ ys) ≡ select p xs ++ select p ys
  select-append p [] ys = refl
  select-append p (x ∷ xs) ys = elim (Bool-cases (p x)) [
    | inl kept ↦ rw (kept, select) (ap (λ (l : List A). x ∷ l) (select-append p xs ys))
    | inr dropped ↦ rw (dropped, select) (select-append p xs ys)
  ]

  pub take_left : (s t : List A) → take (length s) (s ++ t) ≡ s
  take_left [] t = refl
  take_left (c ∷ s) t = ap (λ (u : List A). c ∷ u) (take_left s t)

  pub drop_left : (s t : List A) → drop (length s) (s ++ t) ≡ t
  drop_left [] t = refl
  drop_left (c ∷ s) t = drop_left s t

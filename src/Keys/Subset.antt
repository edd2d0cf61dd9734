-- ===== src/Keys/Subset.antt =====
-- `modelsSubset` decides that the child's allowlist admits no model that the parent's does not.
use kamu_llm_gateway.Prelude.{
  ℕ, ◌+◌, ◌≤◌, ◌≡◌, refl, ◌↔◌, inl, inr, Bool, true, ◌||◌, List, [], ◌∷◌, arith, Text, text_eq_iff,
  all, all-In, all_of_In, In, length, replicate, length-replicate, Bool-cases, suc,
}
use kamu_llm_gateway.Keys.{star, includes, models_subset}

-- The allowlist admits the model: by `*`, or by name.
abbrev pub allows : List Text → Text → Bool
allows models m = includes star models || includes m models

pub includes_iff : (m : Text) (models : List Text) → (includes m models ≡ true) ↔ In m models
unfolding includes
includes_iff m [] = (λ e. cc, λ h. absurd h)
includes_iff m (x ∷ models) =
    let (to, from) = includes_iff m models in ground (arith, text_eq_iff x m)

-- A text longer than all of a list together.
size : List Text → ℕ
size [] = 0
size (x ∷ xs) = length x + size xs

length-le-size : (m : Text) (xs : List Text) → In m xs → length m ≤ size xs
unfolding size
length-le-size m [] h = absurd h
length-le-size m (x ∷ xs) (inl e) = rw e (omega arith)
length-le-size m (x ∷ xs) (inr h) = omega (arith, length-le-size m xs h)

fresh : List Text → Text
fresh xs = replicate (suc (size xs)) 0

fresh-not-In : (xs : List Text) → ¬ In (fresh xs) xs
unfolding fresh
fresh-not-In xs h = omega (
  arith,
  length-le-size (replicate (suc (size xs)) 0) xs h,
  length-replicate {A = ℕ} (suc (size xs)) 0,
)

named_iff :
    (child parent : List Text)
    → (all (λ m. includes m parent) child ≡ true)
      ↔ ((m : Text) → includes m child ≡ true → includes m parent ≡ true)
named_iff child parent = (
  λ h m e. all-In (λ x. includes x parent) m child h ((includes_iff m child).0 e),
  λ h. all_of_In (λ x. includes x parent) child (λ m i. h m ((includes_iff m child).1 i)),
)

-- A parent that admits everything is `*` itself.
star_of_all :
    (parent : List Text) → ((m : Text) → allows parent m ≡ true) → includes star parent ≡ true
star_of_all parent h = elim (Bool-cases (includes star parent)) [
  | inl is_star ↦ is_star
  | inr named ↦
      let listed = rw named at (h (fresh parent)) in
      absurd (fresh-not-In parent ((includes_iff (fresh parent) parent).0 listed))
]

-- `modelsSubset` accepts exactly when every model that the child's list admits is admitted by the
-- parent's, where `*` admits all models and a name itself.
pub models_subset_iff :
    (child parent : List Text)
    → (models_subset child parent ≡ true)
      ↔ ((m : Text) → allows child m ≡ true → allows parent m ≡ true)
unfolding models_subset
models_subset_iff child parent = elim (Bool-cases (includes star child)) [
  | inl wide ↦ rw wide (λ e m _. rw e, λ h. star_of_all parent (λ m. h m refl))
  | inr narrow ↦ elim (Bool-cases (includes star parent)) [
    | inl all_models ↦ rw (narrow, all_models) (λ _ m _. refl, λ _. refl)
    | inr named ↦ rw (narrow, named) (named_iff child parent)
  ]
]

-- ===== src/Prelude/Splitting.antt =====
-- A list of texts joined by a separator of one character, and its parts again.
use mathlib.Core.Path.{◌≡◌, sym, ap, ◌∙◌}
use mathlib.Core.Logic.{inl, inr}
use mathlib.Core.Bool.{false}
use mathlib.Core.List.{List, [], ◌∷◌, ◌++◌, map, reverse, reverse-cons, append_assoc, append-nil}
use Prim.Native.Nat.{ℕ}
use native.Mathlib.Omega.{arith}
use kamu_llm_gateway.Prelude.Tests.{◌==◌, Bool-cases}
use kamu_llm_gateway.Prelude.Lists.{any}
use kamu_llm_gateway.Prelude.Texts.{Text, split_from, split}

-- `ts.join(sep)`
unfoldable pub join : ℕ → List Text → Text
join sep [] = []
join sep (t ∷ []) = t
join sep (t ∷ u ∷ ts) = t ++ sep ∷ join sep (u ∷ ts)

-- `ts.flat()`
unfoldable pub flat : {A : Type 0} → List (List A) → List A
flat [] = []
flat (xs ∷ xss) = xs ++ flat xss

-- The text does not have the character.
abbrev pub Lacks : ℕ → Text → Type 0
Lacks sep t = any (λ c. c == sep) t ≡ false

module _ (sep : ℕ) where
  split_from-append :
      (cur s t : Text)
      → split_from sep cur (s ++ sep ∷ t) ≡ split_from sep cur s ++ split_from sep [] t
  unfolding split_from
  split_from-append cur [] t = ground arith
  split_from-append cur (c ∷ s) t = elim (Bool-cases (c == sep)) [
    | inl hit ↦ rw hit (ap (λ (l : List Text). reverse cur ∷ l) (split_from-append [] s t))
    | inr miss ↦ rw miss (split_from-append (c ∷ cur) s t)
  ]

  split_from-whole : (cur s : Text) → Lacks sep s → split_from sep cur s ≡ (reverse cur ++ s) ∷ []
  unfolding split_from
  split_from-whole cur [] h = ap (λ (t : Text). t ∷ []) (sym (append-nil (reverse cur)))
  split_from-whole cur (c ∷ s) h = elim (Bool-cases (c == sep)) [
    | inl hit ↦ cc (rw hit at h)
    | inr miss ↦ rw miss (
        split_from-whole (c ∷ cur) s (rw miss at h)
        ∙ ap (λ (t : Text). t ∷ [])
            (ap (λ (t : Text). t ++ s) (reverse-cons c cur)
              ∙ append_assoc (reverse cur) (c ∷ []) s))
  ]

  -- A text without the separator is one part.
  pub split-whole : (s : Text) → Lacks sep s → split sep s ≡ s ∷ []
  unfolding split
  split-whole s h = split_from-whole [] s h

  -- A joined list is split into the parts of its texts, whatever they hold.
  pub split-join :
      (t : Text) (ts : List Text) → split sep (join sep (t ∷ ts)) ≡ flat (map (split sep) (t ∷ ts))
  unfolding split join flat
  split-join t [] = sym (append-nil (split_from sep [] t))
  split-join t (u ∷ ts) =
      split_from-append [] t (join sep (u ∷ ts))
      ∙ ap (λ (l : List Text). split_from sep [] t ++ l) (split-join u ts)

  pub split-append : (s t : Text) → split sep (s ++ sep ∷ t) ≡ split sep s ++ split sep t
  unfolding split
  split-append s t = split_from-append [] s t

pub Lacks-append : (sep : ℕ) (s t : Text) → Lacks sep s → Lacks sep t → Lacks sep (s ++ t)
Lacks-append sep [] t h k = k
Lacks-append sep (c ∷ s) t h k = ground (arith, Lacks-append sep s t)

-- ===== src/Prelude/Trimming.antt =====
-- Texts that `trim` leaves as they are, and the removal of a trailing character.
use mathlib.Core.Path.{◌≡◌, refl, sym, ap, ◌∙◌}
use mathlib.Core.Bool.{Bool, false}
use mathlib.Core.Logic.{◌⊎◌, inl, inr}
use mathlib.Core.List.{[], ◌∷◌, ◌++◌, reverse, reverse-append, reverse-cons, reverse-reverse}
use Prim.Native.Nat.{ℕ}
use native.Mathlib.Omega.{arith}
use kamu_llm_gateway.Prelude.Tests.{◌==◌, Bool-cases, if◌then◌else◌}
use kamu_llm_gateway.Prelude.Lists.{any, all}
use kamu_llm_gateway.Prelude.Texts.{Text, is_empty, is_space, trim_start, trim}

-- A text that neither begins nor ends with white space is trimmed already.
trim_start_same : (c : ℕ) (s : Text) → is_space c ≡ false → trim_start (c ∷ s) ≡ c ∷ s
unfolding trim_start
trim_start_same c s h = rw h

trim_steps : (s : Text) → trim s ≡ reverse (trim_start (reverse (trim_start s)))
unfolding trim
trim_steps s = refl

pub trim_word :
    (s r : Text) (c d : ℕ)
    → is_space c ≡ false
    → is_space d ≡ false
    → c ∷ s ≡ r ++ d ∷ []
    → trim (c ∷ s) ≡ c ∷ s
trim_word s r c d first last e =
    let back : reverse (c ∷ s) ≡ d ∷ reverse r = ap reverse e ∙ reverse-append r (d ∷ []) in
    trim_steps (c ∷ s)
    ∙ ap (λ (t : Text). reverse (trim_start (reverse t))) (trim_start_same c s first)
    ∙ ap (λ (t : Text). reverse (trim_start t)) back
    ∙ ap reverse (trim_start_same d (reverse r) last)
    ∙ ap reverse (sym back)
    ∙ reverse-reverse (c ∷ s)

pub last_of :
    (c : ℕ) (s : Text)
    → any is_space (c ∷ s) ≡ false
    → (r : Text) × (d : ℕ) × (c ∷ s ≡ r ++ d ∷ []) × (is_space d ≡ false)
last_of c [] h = ([], c, refl, ground arith)
last_of c (b ∷ s) h =
    let (r, d, e, last) = last_of b s (ground arith) in (c ∷ r, d, ap (λ (t : Text). c ∷ t) e, last)

trim_start-cases :
    (s : Text)
    → (trim_start s ≡ []) ⊎ ((c : ℕ) × (r : Text) × (trim_start s ≡ c ∷ r) × (is_space c ≡ false))
unfolding trim_start
trim_start-cases [] = inl refl
trim_start-cases (c ∷ s) = elim (Bool-cases (is_space c)) [
  | inl space ↦ rw space (trim_start-cases s)
  | inr other ↦ rw other (inr (c, s, refl, other))
]

all-snoc : (p : ℕ → Bool) (s : Text) (c : ℕ) → p c ≡ false → all p (s ++ c ∷ []) ≡ false
all-snoc p [] c h = ground (arith, h)
all-snoc p (b ∷ s) c h = ground (arith, all-snoc p s c h)

-- A text that is not empty when it is trimmed is not of white space alone.
pub trim_given : (s : Text) → is_empty (trim s) ≡ false → all is_space (trim s) ≡ false
trim_given s given = elim (trim_start-cases (reverse (trim_start s))) [
  | inl blank ↦ absurd (cc (rw (trim_steps s, blank) at given))
  | inr (c, r, first, other) ↦
      ap (all is_space) (trim_steps s ∙ (ap reverse first ∙ reverse-cons c r))
      ∙ all-snoc is_space (reverse r) c other
]

unfoldable pub drop_leading : ℕ → Text → Text
drop_leading c [] = []
drop_leading c (b ∷ s) = if b == c then drop_leading c s else b ∷ s

-- `s.replace(/c+$/, "")`
unfoldable pub drop_trailing : ℕ → Text → Text
unfolding drop_leading
drop_trailing c s = reverse (drop_leading c (reverse s))

drop_trailing_example :
    drop_trailing b'=' (b'a' ∷ b'=' ∷ b'b' ∷ b'=' ∷ b'=' ∷ []) ≡ b'a' ∷ b'=' ∷ b'b' ∷ []
unfolding drop_trailing
drop_trailing_example = refl

-- ===== src/Prelude/Suffixes.antt =====
-- Texts that end with a given text.
use mathlib.Core.Path.{◌≡◌, ap, ap₂, ◌∙◌}
use mathlib.Core.Bool.{true, ◌&&◌}
use mathlib.Core.List.{◌++◌}
use Prim.Native.Nat.{◌-◌}
use native.Mathlib.Omega.{arith}
use kamu_llm_gateway.Prelude.Tests.{leb}
use kamu_llm_gateway.Prelude.Lists.{length, length-append, drop, drop_left}
use kamu_llm_gateway.Prelude.Texts.{Text, text_eq, text_eq_refl, ends_with}

pub length-suffix : (s t : Text) → length (s ++ t) - length t ≡ length s
length-suffix s t = omega (arith, length-append {0} s t)

long_enough : (s t : Text) → leb (length t) (length (s ++ t)) ≡ true
long_enough s t = ground (arith, length-append s t)

pub ends_with-append : (s t : Text) → ends_with (s ++ t) t ≡ true
unfolding ends_with
ends_with-append s t = ap₂ ◌&&◌ (long_enough s t) (
    ap (λ n. text_eq (drop n (s ++ t)) t) (length-suffix s t)
    ∙ ap (λ u. text_eq u t) (drop_left s t)
    ∙ text_eq_refl t)

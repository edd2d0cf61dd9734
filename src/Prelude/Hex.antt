-- ===== src/Prelude/Hex.antt =====
-- Hexadecimal texts: `n.toString(16)`, `s.padStart(w, "0")` and `parseInt(s, 16)`.
use mathlib.Core.List.{append_assoc}
use Prim.Native.Nat.{ℕ, zero, suc, ◌+◌, ◌-◌, ◌*◌, ◌/◌, ◌%◌, ◌^◌, ◌≤◌, ◌<◌}
use mathlib.Core.Path.{◌≡◌, refl, ap, ◌∙◌}
use mathlib.Core.Logic.{inl, inr}
use mathlib.Core.Bool.{Bool, true, not}
use mathlib.Core.List.{List, [], ◌∷◌, ◌++◌}
use native.Mathlib.Omega.{arith}
use native.Mathlib.Nat.{pow-suc, zero-add, suc-add}
use kamu_llm_gateway.Prelude.Tests.{ltb, ◌==◌, if◌then◌else◌, Bool-cases, lt→ltb, ltb→lt}
use kamu_llm_gateway.Prelude.Lists.{length, length-append, replicate, select, take, drop}
use kamu_llm_gateway.Prelude.Texts.{Text}

-- The digit of a value below 16.
abbrev pub hex_digit : ℕ → ℕ
hex_digit d = if ltb d 10 then b'0' + d else b'a' + (d - 10)

-- The value of a lower-case digit.
abbrev pub digit_value : ℕ → ℕ
digit_value c = if ltb c b'a' then c - b'0' else c - b'a' + 10

-- `n.toString(16)`; the fuel is `n`, which has fewer digits than that.
to_hex_from : ℕ → ℕ → Text
to_hex_from zero n = hex_digit (n % 16) ∷ []
to_hex_from (suc f) n =
    let more = to_hex_from f (n / 16) ++ hex_digit (n % 16) ∷ [] in
    if ltb n 16 then hex_digit (n % 16) ∷ [] else more

unfoldable pub to_hex : ℕ → Text
unfolding to_hex_from
to_hex n = to_hex_from n n

-- `s.padStart(w, "0")`
abbrev pub pad_start : ℕ → Text → Text
pad_start w s = replicate (w - length s) b'0' ++ s

-- `parseInt(s, 16)` of a text of lower-case hexadecimal digits.
unfoldable pub parse_from : ℕ → Text → ℕ
parse_from acc [] = acc
parse_from acc (c ∷ s) = parse_from (acc * 16 + digit_value c) s

unfoldable pub parse_hex : Text → ℕ
unfolding parse_from
parse_hex s = parse_from 0 s

-- The last `w` digits.
unfoldable pub hex_fixed : ℕ → ℕ → Text
hex_fixed zero n = []
hex_fixed (suc w) n = hex_fixed w (n / 16) ++ hex_digit (n % 16) ∷ []

pub length-hex_fixed : (w n : ℕ) → length (hex_fixed w n) ≡ w
unfolding hex_fixed
length-hex_fixed zero n = refl
length-hex_fixed (suc w) n = omega (
  arith,
  length-append (hex_fixed w (n / 16)) (hex_digit (n % 16) ∷ []),
  length-hex_fixed w (n / 16),
)

pub digit_value-hex_digit : (d : ℕ) → d < 16 → digit_value (hex_digit d) ≡ d
digit_value-hex_digit d h = ground arith

parse_from-append :
    (acc : ℕ) (s t : Text) → parse_from acc (s ++ t) ≡ parse_from (parse_from acc s) t
unfolding parse_from
parse_from-append acc [] t = refl
parse_from-append acc (c ∷ s) t = parse_from-append (acc * 16 + digit_value c) s t

parse_hex-append_digit :
    (s : Text) (d : ℕ) → d < 16 → parse_hex (s ++ hex_digit d ∷ []) ≡ parse_hex s * 16 + d
unfolding parse_hex
parse_hex-append_digit s d h =
    parse_from-append 0 s (hex_digit d ∷ []) ∙ omega (arith, digit_value-hex_digit d h)

pub parse_hex-hex_fixed : (w n : ℕ) → n < 16 ^ w → parse_hex (hex_fixed w n) ≡ n
unfolding hex_fixed
parse_hex-hex_fixed zero n h = unfold parse_hex in omega arith
parse_hex-hex_fixed (suc w) n h =
    let small : n / 16 < 16 ^ w = omega (arith, pow-suc 16 w) in
    omega (
      arith,
      parse_hex-append_digit (hex_fixed w (n / 16)) (n % 16) (omega arith),
      parse_hex-hex_fixed w (n / 16) small,
    )

replicate_snoc : (w a : ℕ) → replicate w a ++ a ∷ [] ≡ replicate (suc w) a
replicate_snoc zero a = refl
replicate_snoc (suc w) a = ap (λ (s : Text). a ∷ s) (replicate_snoc w a)

hex_fixed-zero : (w n : ℕ) → n ≡ 0 → hex_fixed w n ≡ replicate w b'0'
unfolding hex_fixed
hex_fixed-zero zero n e = refl
hex_fixed-zero (suc w) n e =
    let digit : hex_digit (n % 16) ≡ b'0' = ground arith in
    rw (hex_fixed-zero w (n / 16) (omega arith), digit) (replicate_snoc w b'0')

pad_start-append_digit :
    (w d : ℕ) (s : Text) → pad_start (suc w) (s ++ d ∷ []) ≡ pad_start w s ++ d ∷ []
pad_start-append_digit w d s =
    let width : suc w - length (s ++ d ∷ []) ≡ w - length s =
      omega (arith, length-append s (d ∷ [])) in
    rw (width, append_assoc)

pad_start_small :
    (n w : ℕ) → n < 16 → pad_start (suc w) (hex_digit (n % 16) ∷ []) ≡ hex_fixed (suc w) n
unfolding hex_fixed
pad_start_small n w h =
    let width : suc w - 1 ≡ w = omega arith in rw (width, hex_fixed-zero w (n / 16) (omega arith))

pad_start-to_hex_from :
    (f n w : ℕ) → n ≤ f → n < 16 ^ suc w → pad_start (suc w) (to_hex_from f n) ≡ hex_fixed (suc w) n
unfolding to_hex_from hex_fixed
pad_start-to_hex_from zero n w h k = pad_start_small n w (omega arith)
pad_start-to_hex_from (suc f) n zero h k =
    let one : ltb n 16 ≡ true = lt→ltb n 16 (omega arith) in
    rw one (pad_start_small n zero (omega arith))
pad_start-to_hex_from (suc f) n (suc w) h k = elim (Bool-cases (ltb n 16)) [
  | inl one ↦ rw one (pad_start_small n (suc w) (ltb→lt n 16 one))
  | inr more ↦
      let small : n / 16 < 16 ^ suc w = omega (arith, pow-suc 16 (suc w)) in
      let fuel : n / 16 ≤ f = ground arith in
      let ih = pad_start-to_hex_from f (n / 16) w fuel small in
      rw more (
        pad_start-append_digit (suc w) (hex_digit (n % 16)) (to_hex_from f (n / 16))
        ∙ ap (λ (s : Text). s ++ hex_digit (n % 16) ∷ []) ih)
]

-- `n.toString(16).padStart(w, "0")` is the last `w` digits, where they hold `n`.
pub pad_start-to_hex :
    (n w : ℕ) → n < 16 ^ suc w → pad_start (suc w) (to_hex n) ≡ hex_fixed (suc w) n
unfolding to_hex
pad_start-to_hex n w h = pad_start-to_hex_from n n w (omega arith) h

-- `s.replaceAll("-", "")`
abbrev pub is_dash : ℕ → Bool
is_dash c = c == b'-'

abbrev pub remove_dashes : Text → Text
remove_dashes s = select (λ c. not (is_dash c)) s

pub select-append {ℓ} :
    {A : Type ℓ} (p : A → Bool) (xs ys : List A) → select p (xs ++ ys) ≡ select p xs ++ select p ys
select-append p [] ys = refl
select-append p (x ∷ xs) ys = elim (Bool-cases (p x)) [
  | inl kept ↦ rw (kept, select, select-append p xs ys)
  | inr dropped ↦ rw (dropped, select, select-append p xs ys)
]

pub remove_dashes-hex_fixed : (w n : ℕ) → remove_dashes (hex_fixed w n) ≡ hex_fixed w n
unfolding hex_fixed
remove_dashes-hex_fixed zero n = refl
remove_dashes-hex_fixed (suc w) n =
    let digit : not (is_dash (hex_digit (n % 16))) ≡ true = ground arith in
    select-append (λ c. not (is_dash c)) (hex_fixed w (n / 16)) (hex_digit (n % 16) ∷ [])
    ∙ rw (remove_dashes-hex_fixed w (n / 16), digit)

module _ {ℓ} {A : Type ℓ} where
  pub take-append_length : (n : ℕ) (xs ys : List A) → length xs ≡ n → take n (xs ++ ys) ≡ xs
  take-append_length zero [] ys e = refl
  take-append_length (suc n) [] ys e = absurd (omega arith)
  take-append_length zero (x ∷ xs) ys e = absurd (omega arith)
  take-append_length (suc n) (x ∷ xs) ys e =
      ap (λ (s : List A). x ∷ s) (take-append_length n xs ys (omega arith))

  pub drop-append_length : (n : ℕ) (xs ys : List A) → length xs ≡ n → drop n (xs ++ ys) ≡ ys
  drop-append_length zero [] ys e = refl
  drop-append_length (suc n) [] ys e = absurd (omega arith)
  drop-append_length zero (x ∷ xs) ys e = absurd (omega arith)
  drop-append_length (suc n) (x ∷ xs) ys e = drop-append_length n xs ys (omega arith)

  pub take-append-drop : (n : ℕ) (xs : List A) → take n xs ++ drop n xs ≡ xs
  take-append-drop zero xs = refl
  take-append-drop (suc n) [] = refl
  take-append-drop (suc n) (x ∷ xs) = rw (take-append-drop n xs)

  pub drop-append_add :
      (n m : ℕ) (xs ys : List A) → length xs ≡ n → drop (n + m) (xs ++ ys) ≡ drop m ys
  drop-append_add zero m [] ys e = rw zero-add
  drop-append_add (suc n) m [] ys e = absurd (omega arith)
  drop-append_add zero m (x ∷ xs) ys e = absurd (omega arith)
  drop-append_add (suc n) m (x ∷ xs) ys e = rw suc-add (drop-append_add n m xs ys (omega arith))

pub remove_dashes-split :
    (n : ℕ) (h r : Text)
    → remove_dashes h ≡ h
    → remove_dashes (take n h ++ b'-' ∷ (drop n h ++ r)) ≡ h ++ remove_dashes r
remove_dashes-split n h r e =
    select-append (λ c. not (is_dash c)) (take n h) (b'-' ∷ (drop n h ++ r))
    ∙ rw (
      select-append (λ c. not (is_dash c)) (drop n h) r,
      ← append_assoc,
      ← select-append (λ c. not (is_dash c)) (take n h) (drop n h),
      take-append-drop n h,
      e,
    )

parse_from_digit :
    (acc d : ℕ) (s : Text) → d < 16 → parse_from acc (hex_digit d ∷ s) ≡ parse_from (acc * 16 + d) s
unfolding parse_from
parse_from_digit acc d s h = rw (digit_value-hex_digit d h)

-- Reading `w` more digits.
pub parse_from-hex_fixed :
    (w n acc : ℕ) (s : Text)
    → n < 16 ^ w
    → parse_from acc (hex_fixed w n ++ s) ≡ parse_from (acc * 16 ^ w + n) s
unfolding hex_fixed
parse_from-hex_fixed zero n acc s h = let same : acc * 16 ^ zero + n ≡ acc = omega arith in rw same
parse_from-hex_fixed (suc w) n acc s h =
    let last : (acc * 16 ^ w + n / 16) * 16 + n % 16 ≡ acc * 16 ^ suc w + n =
      omega (arith, pow-suc 16 w, ap (λ (t : ℕ). acc * t) (pow-suc 16 w)) in
    rw append_assoc (
      parse_from-hex_fixed w (n / 16) acc (hex_digit (n % 16) ∷ s) (omega (arith, pow-suc 16 w))
      ∙ parse_from_digit (acc * 16 ^ w + n / 16) (n % 16) s (omega arith)
      ∙ ap (λ (t : ℕ). parse_from t s) last)

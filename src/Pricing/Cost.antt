-- ===== src/Pricing/Cost.antt =====
-- The cost of a request grows with its usage.
use native.Mathlib.Nat.{le_refl}
use kamu_llm_gateway.Prelude.{
  ℕ, ◌*◌, ◌/◌, ◌≤◌, Option, none, some, arith, ltb, Bool-cases, inl, inr, lt→ltb,
}
use kamu_llm_gateway.Pricing.{
  NormUsage, LongContext, Rates, TokenRates, base_rates, tier_rates, prompt_tokens, choose_rates,
  read_rate, write_rate, token_cost, compute_cost_usd,
}

-- Bucket by bucket.
pub record UsageLe (u v : NormUsage) : Type 0 where
  pub input : u.input_tokens ≤ v.input_tokens
  pub output : u.output_tokens ≤ v.output_tokens
  pub cache_read : u.cache_read_tokens ≤ v.cache_read_tokens
  pub cache_write : u.cache_write_tokens ≤ v.cache_write_tokens

-- Rate by rate, as billed.
pub record RatesLe (r s : TokenRates) : Type 0 where
  pub input : r.input ≤ s.input
  pub output : r.output ≤ s.output
  pub cache_read : read_rate r ≤ read_rate s
  pub cache_write : write_rate r ≤ write_rate s

-- A tier that is nowhere cheaper than the base rates.
abbrev pub IsSurcharge : Rates → Option LongContext → Type 0
IsSurcharge m none = Unit
IsSurcharge m (some t) = RatesLe (base_rates m) (tier_rates t)

mul_mono : (a b c d : ℕ) → a ≤ b → c ≤ d → a * c ≤ b * d
mul_mono a b c d h k = grind arith

div_mono : (a b : ℕ) → a ≤ b → a / 1_000_000 ≤ b / 1_000_000
div_mono a b h = omega arith

token_cost_mono :
    (r s : TokenRates) (u v : NormUsage)
    → RatesLe r s
    → UsageLe u v
    → token_cost r u ≤ token_cost s v
unfolding token_cost
token_cost_mono r s u v h k = omega (
  arith,
  mul_mono u.input_tokens v.input_tokens r.input s.input k.input h.input,
  mul_mono u.output_tokens v.output_tokens r.output s.output k.output h.output,
  mul_mono u.cache_read_tokens v.cache_read_tokens (read_rate r) (read_rate s) k.cache_read
      h.cache_read,
  mul_mono u.cache_write_tokens v.cache_write_tokens (write_rate r) (write_rate s) k.cache_write
      h.cache_write,
)

RatesLe-refl : (r : TokenRates) → RatesLe r r
RatesLe-refl r = record {
  input = le_refl _;
  output = le_refl _;
  cache_read = le_refl _;
  cache_write = le_refl _;
}

choose_rates_mono :
    (m : Rates) (o : Option LongContext) (p q : ℕ)
    → IsSurcharge m o
    → p ≤ q
    → RatesLe (choose_rates (base_rates m) o p) (choose_rates (base_rates m) o q)
unfolding choose_rates
choose_rates_mono m none p q h k = RatesLe-refl (base_rates m)
choose_rates_mono m (some t) p q h k = elim (Bool-cases (ltb t.above_prompt_tokens p)) [
  | inl over ↦
      rw (over, lt→ltb t.above_prompt_tokens q (ground arith)) (RatesLe-refl (tier_rates t))
  | inr under ↦ elim (Bool-cases (ltb t.above_prompt_tokens q)) [
    | inl over ↦ rw (under, over) h
    | inr same ↦ rw (under, same) (RatesLe-refl (base_rates m))
  ]
]

-- With a surcharging tier, or none, more usage in any bucket never costs less, also where it
-- crosses the long-context threshold.
pub compute_cost_usd_mono :
    (m : Rates) (u v : NormUsage)
    → IsSurcharge m m.long_context
    → UsageLe u v
    → compute_cost_usd m u ≤ compute_cost_usd m v
unfolding compute_cost_usd
compute_cost_usd_mono m u v h k =
    let rates =
      choose_rates_mono m m.long_context (prompt_tokens u) (prompt_tokens v) h (omega arith) in
    let spread = token_cost_mono _ _ u v rates k in omega (arith, div_mono _ _ spread)

-- ===== src/Keys/Derive/Outcomes.antt =====
-- The three outcomes of the mint transaction.
use kamu_llm_gateway.Prelude.{
  ℕ, ◌<◌, ◌≡◌, ◌⊎◌, inl, inr, List, ◌∷◌, arith, count_where, leb, Bool-cases,
}
use kamu_llm_gateway.Types.{Key}
use kamu_llm_gateway.Keys.Derive.{
  Env, DeriveRequest, is_recent, is_active_child, rate_limited, too_many_active, minted, child_row,
  mint,
}

module _ (env : Env) (id now : ℕ) (r : DeriveRequest) (keys : List Key) where
  abbrev pub recent_count : ℕ
  recent_count = count_where (is_recent r.parent.id now) keys

  abbrev pub active_count : ℕ
  active_count = count_where (is_active_child r.parent.id now) keys

  -- Both counts are below their limits, and the row is inserted.
  pub record Passes : Type 0 where
    pub slow : recent_count < env.subkey_derive_rate_per_min
    pub few : active_count < env.subkey_derive_max_active
    pub inserts : mint env id now r keys ≡ (minted (child_row id now r), child_row id now r ∷ keys)

  pub mint-cases :
      (mint env id now r keys ≡ (rate_limited, keys))
      ⊎ ((mint env id now r keys ≡ (too_many_active, keys)) ⊎ Passes)
  unfolding mint
  mint-cases = elim (Bool-cases (leb env.subkey_derive_rate_per_min recent_count)) [
    | inl over ↦ inl (rw over)
    | inr slow ↦ elim (Bool-cases (leb env.subkey_derive_max_active active_count)) [
      | inl full ↦ inr (inl (rw (slow, full)))
      | inr few ↦
          inr (inr (record { slow = ground arith; few = ground arith; inserts = rw (slow, few) }))
    ]
  ]

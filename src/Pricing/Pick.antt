-- ===== src/Pricing/Pick.antt =====
-- `find` over rows that are sorted newest first.
use kamu_llm_gateway.Prelude.{
  ℕ, ◌≤◌, ◌≡◌, inl, inr, false, none, some, List, [], ◌∷◌, arith, find, In, All, All-In, Bool-cases,
  leb→le, find-eq-some, find-eq-none,
}
use kamu_llm_gateway.Pricing.{StoredPrice, applies}

-- `ORDER BY valid_from DESC`: no row is newer than one before it.
abbrev pub IsNewestFirst : List StoredPrice → Type 0
IsNewestFirst [] = Unit
IsNewestFirst (p ∷ ps) = All (λ q. q.valid_from ≤ p.valid_from) ps × IsNewestFirst ps

module _ (at : ℕ) where
  pub find_sound :
      (ps : List StoredPrice) {r : StoredPrice}
      → find (applies at) ps ≡ some r
      → In r ps × (r.valid_from ≤ at)
  find_sound ps {r} e = let (m, h) = find-eq-some (applies at) ps e in (m, leb→le r.valid_from at h)

  pub find-none :
      (ps : List StoredPrice) (q : StoredPrice)
      → find (applies at) ps ≡ none
      → In q ps
      → ¬ (q.valid_from ≤ at)
  find-none ps q e m h =
      let late = All-In (λ p. applies at p ≡ false) q ps (find-eq-none (applies at) ps e) m in
      ground arith

  pub find_newest :
      (ps : List StoredPrice) {r : StoredPrice} (q : StoredPrice)
      → IsNewestFirst ps
      → find (applies at) ps ≡ some r
      → In q ps
      → q.valid_from ≤ at
      → q.valid_from ≤ r.valid_from
  find_newest [] q s e m h = absurd m
  find_newest (p ∷ ps) {r} q s e (inl same) h =
      let first : p ≡ r = ground arith in rw (same, first) (omega arith)
  find_newest (p ∷ ps) {r} q s e (inr m) h = elim (Bool-cases (applies at p)) [
    | inl hit ↦
        let older = All-In (λ x. x.valid_from ≤ p.valid_from) q ps s.0 m in
        let first : p ≡ r = ground arith in rw first at older
    | inr miss ↦ find_newest ps {r = r} q s.1 (ground arith) m h
  ]

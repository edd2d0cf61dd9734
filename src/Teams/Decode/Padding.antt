-- ===== src/Teams/Decode/Padding.antt =====
-- The base64url of api/src/lib/ed25519.ts is the one that `decodeJwtPayload` reads.
use mathlib.Core.List.{reverse, reverse-cons, reverse-append, reverse-reverse}
use kamu_llm_gateway.Prelude.{
  ℕ, zero, suc, ◌+◌, ◌-◌, ◌%◌, ◌<◌, ◌≡◌, refl, ap, ap₂, ◌∙◌, false, [], ◌∷◌, ◌++◌, map, map-append,
  Text, arith, any, length, ◌==◌,
}
use kamu_llm_gateway.Prelude.Splitting.{Lacks, Lacks-append}
use kamu_llm_gateway.Prelude.Trimming.{drop_trailing, drop_leading}
use kamu_llm_gateway.Ed25519.{url_safe, b64_to_b64url}
use kamu_llm_gateway.Teams.Decode.{standard, pads, padded}

standard-url_safe : (c : ℕ) → c == b'-' ≡ false → c == b'_' ≡ false → standard (url_safe c) ≡ c
standard-url_safe c dash line = ground (arith, dash, line)

map-standard : (t : Text) → Lacks b'-' t → Lacks b'_' t → map standard (map url_safe t) ≡ t
map-standard [] dash line = refl
map-standard (c ∷ t) dash line =
    ap₂ ◌∷◌ (standard-url_safe c (ground arith) (ground arith))
      (map-standard t (ground arith) (ground arith))

url_safe-Lacks : (t : Text) → Lacks b'=' t → Lacks b'=' (map url_safe t)
url_safe-Lacks [] lacks = refl
url_safe-Lacks (c ∷ t) lacks = ground (arith, url_safe-Lacks t)

reverse-Lacks : (sep : ℕ) (t : Text) → Lacks sep t → Lacks sep (reverse t)
reverse-Lacks sep [] lacks = refl
reverse-Lacks sep (c ∷ t) lacks =
    ap (λ (u : Text). any (λ x. x == sep) u) (reverse-cons c t)
    ∙ Lacks-append sep (reverse t) (c ∷ []) (reverse-Lacks sep t (ground arith)) (ground arith)

pads-snoc : (k : ℕ) → pads k ++ b'=' ∷ [] ≡ b'=' ∷ pads k
pads-snoc zero = refl
pads-snoc (suc k) = ap (λ (t : Text). b'=' ∷ t) (pads-snoc k)

reverse-pads : (k : ℕ) → reverse (pads k) ≡ pads k
reverse-pads zero = refl
reverse-pads (suc k) =
    reverse-cons b'=' (pads k) ∙ ap (λ (t : Text). t ++ b'=' ∷ []) (reverse-pads k) ∙ pads-snoc k

map-pads : (k : ℕ) → map url_safe (pads k) ≡ pads k
map-pads zero = refl
map-pads (suc k) = ap (λ (t : Text). b'=' ∷ t) (map-pads k)

drop_leading-Lacks : (t : Text) → Lacks b'=' t → drop_leading b'=' t ≡ t
unfolding drop_leading
drop_leading-Lacks [] lacks = refl
drop_leading-Lacks (c ∷ t) lacks = ground arith

drop_leading-pads : (k : ℕ) (t : Text) → Lacks b'=' t → drop_leading b'=' (pads k ++ t) ≡ t
unfolding drop_leading
drop_leading-pads zero t lacks = drop_leading-Lacks t lacks
drop_leading-pads (suc k) t lacks = drop_leading-pads k t lacks

drop_trailing-pads : (t : Text) (k : ℕ) → Lacks b'=' t → drop_trailing b'=' (t ++ pads k) ≡ t
unfolding drop_trailing
drop_trailing-pads t k lacks =
    ap (λ (u : Text). reverse (drop_leading b'=' u))
      (reverse-append t (pads k) ∙ ap (λ (u : Text). u ++ reverse t) (reverse-pads k))
    ∙ ap reverse (drop_leading-pads k (reverse t) (reverse-Lacks b'=' t lacks))
    ∙ reverse-reverse t

length-map-standard : (t : Text) → length (map standard (map url_safe t)) ≡ length t
length-map-standard [] = refl
length-map-standard (c ∷ t) = ap suc (length-map-standard t)

pads_again : (n k : ℕ) → k < 4 → (n + k) % 4 ≡ 0 → (4 - n % 4) % 4 ≡ k
pads_again n k few whole = omega (arith, few, whole)

-- A base64 text, its length with up to three padding characters a multiple of four, is what comes
-- back when it is written as base64url without the padding and read again.
pub padded-b64_to_b64url :
    (body : Text) (k : ℕ)
    → k < 4
    → (length body + k) % 4 ≡ 0
    → Lacks b'=' body
    → Lacks b'-' body
    → Lacks b'_' body
    → padded (b64_to_b64url (body ++ pads k)) ≡ body ++ pads k
unfolding padded b64_to_b64url
padded-b64_to_b64url body k few whole lacks dash line =
    let stripped : drop_trailing b'=' (map url_safe (body ++ pads k)) ≡ map url_safe body =
      ap (drop_trailing b'=')
        (map-append url_safe body (pads k) ∙ ap (λ (t : Text). map url_safe body ++ t) (map-pads k))
      ∙ drop_trailing-pads (map url_safe body) k (url_safe-Lacks body lacks) in
    ap padded stripped
    ∙ ap₂ ◌++◌ (map-standard body dash line) (
        ap pads (
          pads_again (length (map standard (map url_safe body))) k few
            (ap (λ n. (n + k) % 4) (length-map-standard body) ∙ whole)))

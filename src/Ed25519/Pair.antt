-- ===== src/Ed25519/Pair.antt =====
-- What the loader lets through, and the texts that it makes of the keys.
use kamu_llm_gateway.Prelude.{
  ℕ, ◌≡◌, refl, inl, inr, Option, none, some, List, Text, length, ◌==◌, ==_iff, Bool-cases,
  Option-cases, ap₂,
}
use kamu_llm_gateway.Platform.{Imported}
use kamu_llm_gateway.Ed25519.{
  OkpJwk, pair, check_lengths, both_decoded, decode_base64_bytes, encode_base64url, load, get_key,
}

module _ (atob : Text → Option Text) (btoa : List ℕ → Text) where
  -- The process starts only with a seed and a public key of 32 bytes each, and keeps them.
  pub record IsPair (private_key public_key x d : Text) : Type 0 where
    pub seed : List ℕ
    pub public : List ℕ
    pub seed_read : decode_base64_bytes atob private_key ≡ some seed
    pub public_read : decode_base64_bytes atob public_key ≡ some public
    pub seed_size : length seed ≡ 32
    pub public_size : length public ≡ 32
    pub x_is : x ≡ encode_base64url btoa public
    pub d_is : d ≡ encode_base64url btoa seed

  check_lengths_ok :
      (seed public : List ℕ) (x d : Text)
      → check_lengths atob btoa seed public ≡ pair x d
      → (length seed ≡ 32)
        × (length public ≡ 32)
        × (x ≡ encode_base64url btoa public)
        × (d ≡ encode_base64url btoa seed)
  unfolding check_lengths
  check_lengths_ok seed public x d e = elim (Bool-cases (length seed == 32)) [
    | inr short ↦ absurd (cc (rw short at e))
    | inl fits ↦ elim (Bool-cases (length public == 32)) [
      | inr short ↦ absurd (cc (rw (fits, short) at e))
      | inl fits' ↦ (
        (==_iff (length seed) 32).0 fits,
        (==_iff (length public) 32).0 fits',
        cc (rw (fits, fits') at e),
        cc (rw (fits, fits') at e),
      )
    ]
  ]

  -- The module loads only where both variables are base64 of 32 bytes, and the texts that its keys
  -- are imported from are base64url of these bytes.
  pub load-IsPair :
      (private_key public_key x d : Text)
      → load atob btoa private_key public_key ≡ pair x d
      → IsPair private_key public_key x d
  unfolding load both_decoded
  load-IsPair private_key public_key x d e =
      elim (Option-cases (decode_base64_bytes atob private_key)) [
        | inl broken ↦ absurd (cc (rw (broken, both_decoded) at e))
        | inr (seed, read) ↦ elim (Option-cases (decode_base64_bytes atob public_key)) [
          | inl broken ↦ absurd (cc (rw (read, broken, both_decoded) at e))
          | inr (public, read') ↦
              let (seed_size, public_size, x_is, d_is) =
                check_lengths_ok seed public x d (rw (read, read', both_decoded) at e) in
              record {
                seed = seed;
                public = public;
                seed_read = read;
                public_read = read';
                seed_size = seed_size;
                public_size = public_size;
                x_is = x_is;
                d_is = d_is;
              }
        ]
      ]

-- A key that has been imported is not imported again.
pub get_key_again :
    {CryptoKey : Type 0} (import_jwk other : OkpJwk → Option (Imported CryptoKey)) (jwk : OkpJwk)
    (cached : Option CryptoKey) (k : CryptoKey)
    → (get_key import_jwk jwk cached).0 ≡ some k
    → get_key other jwk (get_key import_jwk jwk cached).1 ≡ (some k, some k)
unfolding get_key
get_key_again import_jwk other jwk (some j) k e = ap₂ (λ a b. (a, b)) e e
get_key_again import_jwk other jwk none k e = rw e refl

-- ===== src/Teams/Decode.antt =====
-- api/src/lib/kamuid-sync.ts: `decodeJwtPayload`, which no code calls. `atob` and `parse_json` are
-- `none` where they throw. What it hands to `atob` undoes `b64ToB64url` of api/src/lib/ed25519.ts.
pub mod Padding
use kamu_llm_gateway.Prelude.{
  ℕ, zero, suc, ◌+◌, ◌-◌, ◌%◌, ◌<◌, ◌≡◌, refl, ap, ap₂, sym, ◌∙◌, inl, inr, false, Option, none,
  some, List, [], ◌∷◌, ◌++◌, map, Text, arith, any, codes, length, length-append, split, is_empty,
  ◌==◌, if◌then◌else◌, drop, head?, get_or, Bool-cases,
}
use kamu_llm_gateway.Prelude.Splitting.{Lacks}
use kamu_llm_gateway.Prelude.Trimming.{drop_trailing}
use kamu_llm_gateway.Ed25519.{url_safe, b64_to_b64url}

abbrev pub standard : ℕ → ℕ
standard c = if c == b'-' then b'+' else if c == b'_' then b'/' else c

-- `"=".repeat(n)`
abbrev pub pads : ℕ → Text
pads zero = []
pads (suc n) = b'=' ∷ pads n

unfoldable pub padded : Text → Text
padded part = let b64 = map standard part in b64 ++ pads ((4 - length b64 % 4) % 4)

module _ {Payload : Type 0} (atob : Text → Option Text) (parse_json : Text → Option Payload) where
  parsed : Option Text → Option Payload
  parsed none = none
  parsed (some t) = parse_json t

  decode_part : Option Text → Option Payload
  unfolding parsed padded
  decode_part none = none
  decode_part (some part) = if is_empty part then none else parsed (atob (padded part))

  -- `jwt.split(".")[1]`
  unfoldable pub decode_jwt_payload : Text → Option Payload
  unfolding decode_part
  decode_jwt_payload jwt = decode_part (head? (drop 1 (split b'.' jwt)))

-- ===== src/UsageId.antt =====
-- Usage ids and their cursors: `cursorOf` and `usageIdAtLeast` of api/src/routes/usage.ts, and
-- `withOverlap` of api/src/lib/usage-poller.ts. A usage id is the text of a UUID.
pub mod Order
use kamu_llm_gateway.Prelude.{
  ℕ, ◌+◌, ◌-◌, ◌*◌, ◌/◌, ◌%◌, Bool, Text, codes, text_eq, take, drop, [], ◌∷◌, ◌++◌, List, ltb,
  if◌then◌else◌, zero, suc, ◌==◌, max,
}
use kamu_llm_gateway.Prelude.Hex.{to_hex, pad_start, parse_hex, remove_dashes, hex_fixed}

-- Date.UTC(2026, 0, 1)
abbrev pub cursor_epoch_ms : ℕ
cursor_epoch_ms = 1_767_225_600_000

abbrev pub overlap_ms : ℕ
overlap_ms = 10_000

-- `s.slice(i, j)`
abbrev pub slice : ℕ → ℕ → Text → Text
slice i j s = take (j - i) (drop i s)

-- Of an id stamped before 2026 the source's cursor is negative, and this one is not.
unfoldable pub cursor_of : Text → ℕ
cursor_of usage_id =
    let hex = remove_dashes usage_id in
    let ms = parse_hex (slice 0 12 hex) in
    let counter = parse_hex (slice 13 16 hex) in (ms - cursor_epoch_ms) * 4096 + counter

unfoldable pub usage_id_at_least : ℕ → Text
usage_id_at_least cursor =
    let ms = cursor / 4096 + cursor_epoch_ms in
    let counter = cursor % 4096 in
    let hex = pad_start 12 (to_hex ms) in
    slice 0 8 hex
    ++ (codes "-"
        ++ (drop 8 hex
            ++ (codes "-7" ++ (pad_start 3 (to_hex counter) ++ codes "-0000-000000000000"))))

-- `s.replace("-", "")`, which removes the first one.
remove_first_dash : Text → Text
remove_first_dash [] = []
remove_first_dash (c ∷ s) = if c == b'-' then s else c ∷ remove_first_dash s

-- `max(0, ms - OVERLAP_MS)` is the subtraction of natural numbers.
unfoldable pub with_overlap : Text → Text
unfolding remove_first_dash
with_overlap usage_id =
    let ms = parse_hex (slice 0 12 (remove_first_dash usage_id)) - overlap_ms in
    let hex = pad_start 12 (to_hex ms) in
    if text_eq usage_id (codes "0")
    then usage_id
    else slice 0 8 hex ++ (codes "-" ++ (drop 8 hex ++ codes "-0000-0000-000000000000"))

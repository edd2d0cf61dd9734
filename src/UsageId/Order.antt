-- ===== src/UsageId/Order.antt =====
-- Cursors order the ids as the database does.
use mathlib.Core.List.{append_assoc, append-nil}
use kamu_llm_gateway.Prelude.{
  ℕ, ◌+◌, ◌-◌, ◌*◌, ◌/◌, ◌%◌, ◌^◌, ◌≤◌, ◌<◌, ◌≡◌, refl, sym, ap, ◌∙◌, ◌↔◌, false, Text, codes,
  text_eq, take, drop, [], ◌∷◌, ◌++◌, arith, zero, suc, All, All-append,
}
use kamu_llm_gateway.Prelude.Hex.{
  parse_hex, remove_dashes, hex_fixed, length-hex_fixed, parse_hex-hex_fixed, pad_start-to_hex,
  remove_dashes-hex_fixed, select-append, take-append_length, drop-append_length, take-append-drop,
  is_dash, remove_dashes-split, parse_from, parse_from-hex_fixed, drop-append_add,
}
use kamu_llm_gateway.UsageId.{
  cursor_epoch_ms, overlap_ms, cursor_of, usage_id_at_least, remove_first_dash, with_overlap,
}

-- The text of a UUID with the given groups: 48 bits of time, a version digit and 12 bits after it,
-- and the last two groups.
abbrev pub uuid_text : (ms version counter clock node : ℕ) → Text
uuid_text ms version counter clock node =
    take 8 (hex_fixed 12 ms)
    ++ (codes "-"
        ++ (drop 8 (hex_fixed 12 ms)
            ++ (codes "-"
                ++ (hex_fixed 1 version
                    ++ (hex_fixed 3 counter
                        ++ (codes "-"
                            ++ (hex_fixed 4 clock ++ (codes "-" ++ hex_fixed 12 node))))))))

-- UUIDs are compared as the numbers that their digits spell.
abbrev pub uuid_value : Text → ℕ
uuid_value u = parse_hex (remove_dashes u)

remove_dashes-uuid_text :
    (ms version counter clock node : ℕ)
    → remove_dashes (uuid_text ms version counter clock node)
      ≡ hex_fixed 12 ms
        ++ (hex_fixed 1 version
            ++ (hex_fixed 3 counter ++ (hex_fixed 4 clock ++ hex_fixed 12 node)))
remove_dashes-uuid_text ms version counter clock node =
    remove_dashes-split 8 (hex_fixed 12 ms) _ (remove_dashes-hex_fixed 12 ms)
    ∙ ap (λ (t : Text). hex_fixed 12 ms ++ t) groups
  where
    groups :
        remove_dashes (
          b'-'
          ∷ (hex_fixed 1 version
              ++ (hex_fixed 3 counter
                  ++ (b'-' ∷ (hex_fixed 4 clock ++ (b'-' ∷ hex_fixed 12 node))))))
        ≡ hex_fixed 1 version ++ (hex_fixed 3 counter ++ (hex_fixed 4 clock ++ hex_fixed 12 node))
    groups = simp (select-append, remove_dashes-hex_fixed)

parse_groups :
    (ms version counter clock node : ℕ)
    → ms < 16 ^ 12
    → version < 16
    → counter < 4096
    → clock < 65536
    → node < 16 ^ 12
    → parse_hex (
        hex_fixed 12 ms
        ++ (hex_fixed 1 version
            ++ (hex_fixed 3 counter ++ (hex_fixed 4 clock ++ hex_fixed 12 node))))
      ≡ (((ms * 16 + version) * 4096 + counter) * 65536 + clock) * 16 ^ 12 + node
unfolding parse_hex parse_from
parse_groups ms version counter clock node a b c d e =
    parse_from-hex_fixed 12 ms 0 _ a
    ∙ parse_from-hex_fixed 1 version (0 * 16 ^ 12 + ms) _ b
    ∙ parse_from-hex_fixed 3 counter _ _ c
    ∙ parse_from-hex_fixed 4 clock _ _ d
    ∙ ap (parse_from _) (sym (append-nil (hex_fixed 12 node)))
    ∙ parse_from-hex_fixed 12 node _ [] e
    ∙ omega arith

module _ (ms version counter clock node : ℕ) where
  -- Every group holds its number.
  abbrev pub Fits : Type 0
  Fits = (ms < 16 ^ 12) × (version < 16) × (counter < 4096) × (clock < 65536) × (node < 16 ^ 12)

  pub uuid_value-uuid_text :
      Fits
      → uuid_value (uuid_text ms version counter clock node)
        ≡ (((ms * 16 + version) * 4096 + counter) * 65536 + clock) * 16 ^ 12 + node
  uuid_value-uuid_text (a, b, c, d, e) =
      ap parse_hex (remove_dashes-uuid_text ms version counter clock node)
      ∙ parse_groups ms version counter clock node a b c d e

  pub cursor_of-uuid_text :
      Fits
      → cursor_of (uuid_text ms version counter clock node)
        ≡ (ms - cursor_epoch_ms) * 4096 + counter
  unfolding cursor_of
  cursor_of-uuid_text (a, b, c, d, e) =
      let tail = hex_fixed 4 clock ++ hex_fixed 12 node in
      let after = hex_fixed 3 counter ++ tail in
      let all = hex_fixed 1 version ++ after in
      rw (
        remove_dashes-uuid_text ms version counter clock node,
        take-append_length 12 (hex_fixed 12 ms) all (length-hex_fixed 12 ms),
        drop-append_add 12 1 (hex_fixed 12 ms) all (length-hex_fixed 12 ms),
        drop-append_length 1 (hex_fixed 1 version) after (length-hex_fixed 1 version),
        take-append_length 3 (hex_fixed 3 counter) tail (length-hex_fixed 3 counter),
        parse_hex-hex_fixed 12 ms a,
        parse_hex-hex_fixed 3 counter c,
      )

-- The text that `usageIdAtLeast` builds.
usage_id_at_least-eq :
    (k : ℕ)
    → k / 4096 + cursor_epoch_ms < 16 ^ 12
    → usage_id_at_least k ≡ uuid_text (k / 4096 + cursor_epoch_ms) 7 (k % 4096) 0 0
unfolding usage_id_at_least hex_fixed
usage_id_at_least-eq k h = rw (
  pad_start-to_hex (k / 4096 + cursor_epoch_ms) 11 h,
  pad_start-to_hex (k % 4096) 2 (omega arith),
)

-- A cursor below the last that a UUIDv7 can hold is the cursor of the id that the database is
-- asked for.
pub cursor_of-usage_id_at_least :
    (k : ℕ) → k / 4096 + cursor_epoch_ms < 16 ^ 12 → cursor_of (usage_id_at_least k) ≡ k
cursor_of-usage_id_at_least k h =
    rw (usage_id_at_least-eq k h) (
      cursor_of-uuid_text (k / 4096 + cursor_epoch_ms) 7 (k % 4096) 0 0 (omega arith) ∙ omega arith)

-- For a UUIDv7 stamped from 2026 on, `usage_id >= usageIdAtLeast(k)` in the database selects
-- exactly the ids whose cursor is at least `k`.
pub usage_id_at_least_iff :
    (k ms counter clock node : ℕ)
    → Fits ms 7 counter clock node
    → cursor_epoch_ms ≤ ms
    → k / 4096 + cursor_epoch_ms < 16 ^ 12
    → (uuid_value (usage_id_at_least k) ≤ uuid_value (uuid_text ms 7 counter clock node))
      ↔ (k ≤ cursor_of (uuid_text ms 7 counter clock node))
usage_id_at_least_iff k ms counter clock node f e h =
    rw
      (
        usage_id_at_least-eq k h,
        uuid_value-uuid_text (k / 4096 + cursor_epoch_ms) 7 (k % 4096) 0 0 (omega arith),
        uuid_value-uuid_text ms 7 counter clock node f,
        cursor_of-uuid_text ms 7 counter clock node f,
      )
      (λ le. omega arith, λ le. omega arith)

abbrev NoDash : Text → Type 0
NoDash = All (λ c. is_dash c ≡ false)

hex_fixed-NoDash : (w n : ℕ) → NoDash (hex_fixed w n)
unfolding hex_fixed
hex_fixed-NoDash zero n = tt
hex_fixed-NoDash (suc w) n =
    All-append _ (hex_fixed w (n / 16)) _ (hex_fixed-NoDash w (n / 16)) (ground arith, tt)

take-NoDash : (k : ℕ) (s : Text) → NoDash s → NoDash (take k s)
take-NoDash zero s h = tt
take-NoDash (suc k) [] h = tt
take-NoDash (suc k) (c ∷ s) (h, hs) = (h, take-NoDash k s hs)

remove_first_dash-append : (s t : Text) → NoDash s → remove_first_dash (s ++ b'-' ∷ t) ≡ s ++ t
unfolding remove_first_dash
remove_first_dash-append [] t h = refl
remove_first_dash-append (c ∷ s) t (h, hs) =
    rw h (ap (λ (r : Text). c ∷ r) (remove_first_dash-append s t hs))

first_digits :
    (ms : ℕ) (r : Text)
    → take 12
        (remove_first_dash (take 8 (hex_fixed 12 ms) ++ b'-' ∷ (drop 8 (hex_fixed 12 ms) ++ r)))
      ≡ hex_fixed 12 ms
first_digits ms r =
    let h = hex_fixed 12 ms in
    rw
      (
        remove_first_dash-append (take 8 h) (drop 8 h ++ r)
            (take-NoDash 8 h (hex_fixed-NoDash 12 ms)),
        ← append_assoc,
        take-append-drop 8 h,
      )
      (take-append_length 12 h r (length-hex_fixed 12 ms))

uuid_text-ne-zero :
    (ms version counter clock node : ℕ)
    → text_eq (uuid_text ms version counter clock node) (codes "0") ≡ false
unfolding text_eq hex_fixed
uuid_text-ne-zero ms version counter clock node = ground arith

zeros_eq :
    codes "-0000-0000-000000000000"
    ≡ codes "-"
      ++ (hex_fixed 1 0
          ++ (hex_fixed 3 0 ++ (codes "-" ++ (hex_fixed 4 0 ++ (codes "-" ++ hex_fixed 12 0)))))
unfolding hex_fixed
zeros_eq = refl

with_overlap-eq :
    (ms version counter clock node : ℕ)
    → ms < 16 ^ 12
    → with_overlap (uuid_text ms version counter clock node) ≡ uuid_text (ms - overlap_ms) 0 0 0 0
unfolding with_overlap
with_overlap-eq ms version counter clock node h = rw (
  uuid_text-ne-zero ms version counter clock node,
  first_digits ms _,
  parse_hex-hex_fixed 12 ms h,
  pad_start-to_hex (ms - overlap_ms) 11 (omega arith),
  zeros_eq,
)

-- Polling from `withOverlap(id)` re-reads exactly the ids whose time is at most ten seconds before
-- that of `id`, whatever their other bits.
pub with_overlap_iff :
    (ms version counter clock node ms' version' counter' clock' node' : ℕ)
    → Fits ms version counter clock node
    → Fits ms' version' counter' clock' node'
    → (uuid_value (with_overlap (uuid_text ms version counter clock node))
        ≤ uuid_value (uuid_text ms' version' counter' clock' node'))
      ↔ (ms ≤ ms' + overlap_ms)
with_overlap_iff ms version counter clock node ms' version' counter' clock' node' f g =
    rw
      (
        with_overlap-eq ms version counter clock node f.0,
        uuid_value-uuid_text (ms - overlap_ms) 0 0 0 0 (omega arith),
        uuid_value-uuid_text ms' version' counter' clock' node' g,
      )
      (λ le. omega arith, λ le. omega arith)

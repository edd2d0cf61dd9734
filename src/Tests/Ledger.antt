-- ===== src/Tests/Ledger.antt =====
-- Examples of the results on the usage ledger.
use kamu_llm_gateway.Prelude.{
  ℕ, zero, suc, ◌+◌, ◌*◌, ◌^◌, ◌/◌, ◌≤◌, ◌<◌, ◌≡◌, ◌↔◌, ◌⊎◌, refl, sym, ap, ◌∙◌, get_or, inl, inr,
  true, Option, none, some, List, [], ◌∷◌, Text, codes, In, arith, text_eq, length, take, drop, any,
  false,
}
use kamu_llm_gateway.Types.{top}
use kamu_llm_gateway.Database.{Db, UsageLogRow}
use kamu_llm_gateway.Credentials.{UsageScope}
use kamu_llm_gateway.Catalog.{Models}
use kamu_llm_gateway.UsageId.{overlap_ms, cursor_of, usage_id_at_least, with_overlap}
use kamu_llm_gateway.UsageId.Order.{uuid_text, uuid_value, with_overlap_iff}
use kamu_llm_gateway.Poller.{UsageRow, lacks_id, ingest_rows, page_limit}
use kamu_llm_gateway.Poller.Repeat.{ingest_rows_again}
use kamu_llm_gateway.Poller.Pages.{Tick, poll_once, last_cursor}
use kamu_llm_gateway.Poller.Pages.Complete.{IsFeed, IsComplete, poll_once_stores}
use kamu_llm_gateway.Usage.{
  Window, Group, PageQuery, shares_cursor, from_since, key_usage, row_cost, page_rows, visible_rows,
  usage_breakdown,
}
use kamu_llm_gateway.Usage.Paging.{IsDue, IdsDiffer, IsCut, key_usage_next}
use kamu_llm_gateway.Tests.Data.{db, first_row, fed}

abbrev pub logged : Db
logged = record db { usage_log = first_row ∷ [] }

ingest_rows_again_example :
    ingest_rows 4_000 (first_row ∷ []) (ingest_rows 3_000 (first_row ∷ []) db).1
    ≡ (zero, (ingest_rows 3_000 (first_row ∷ []) db).1)
ingest_rows_again_example = ingest_rows_again 3_000 4_000 (first_row ∷ []) db

-- A feed of one row that has been read after its id.
abbrev rows_after : Text → List UsageRow
rows_after [] = fed ∷ []
rows_after (c ∷ t) = []

abbrev feed : Text → Option (List UsageRow)
feed c = some (rows_after c)

abbrev tick : ℕ → Tick
tick n = record { now = 3_000; prices = [] }

abbrev no_models : Models
no_models = []

feed-IsFeed : IsFeed page_limit feed rows_after
unfolding last_cursor
feed-IsFeed = record { pages = pages; resumes = resumes; has_ids = has_ids }
  where
    pages : (c : Text) → feed c ≡ some (take page_limit (rows_after c))
    pages [] = refl
    pages (c ∷ t) = refl

    resumes :
        (c : Text)
        → rows_after (last_cursor c (take page_limit (rows_after c)))
          ≡ drop page_limit (rows_after c)
    resumes [] = refl
    resumes (c ∷ t) = refl

    has_ids : (c : Text) → any lacks_id (rows_after c) ≡ false
    has_ids [] = refl
    has_ids (c ∷ t) = refl

poll_once_stores_example :
    IsComplete (rows_after []) db (poll_once (λ n. n) no_models tick feed 1 [] db)
poll_once_stores_example =
    poll_once_stores (λ n. n) no_models tick feed rows_after 1 [] db feed-IsFeed (omega arith)

with_overlap_iff_example :
    (uuid_value (with_overlap (uuid_text 1_767_225_620_000 7 5 9 11))
      ≤ uuid_value (uuid_text 1_767_225_612_000 7 1 2 3))
    ↔ (1_767_225_620_000 ≤ 1_767_225_612_000 + overlap_ms)
with_overlap_iff_example =
    with_overlap_iff 1_767_225_620_000 7 5 9 11 1_767_225_612_000 7 1 2 3
      (omega arith, omega arith, omega arith, omega arith, omega arith)
      (omega arith, omega arith, omega arith, omega arith, omega arith)

abbrev pub scope : UsageScope
scope = record { key_id = 7; key_type = top }

abbrev pub query : PageQuery
query = record { since = none; limit = none; key_ids = []; name = none }

pub shown : In first_row (page_rows scope query logged)
unfolding page_rows kamu_llm_gateway.Usage.page_size kamu_llm_gateway.Prelude.sort_by
    kamu_llm_gateway.Usage.in_scope kamu_llm_gateway.Prelude.Hex.parse_hex usage_id_at_least
    kamu_llm_gateway.Prelude.Hex.to_hex kamu_llm_gateway.Usage.since_of
    kamu_llm_gateway.Usage.is_asked
shown = inl refl

-- A page of one row is full.
abbrev one_row : PageQuery
one_row = record { since = none; limit = some 1; key_ids = []; name = none }

first_row-IsDue : IsDue scope one_row logged first_row
unfolding kamu_llm_gateway.Usage.in_scope kamu_llm_gateway.Prelude.Hex.parse_hex usage_id_at_least
    kamu_llm_gateway.Prelude.Hex.to_hex kamu_llm_gateway.Usage.since_of
    kamu_llm_gateway.Usage.is_asked
first_row-IsDue = record { stored = inl refl; covered = refl; since = refl; asked = refl }

logged-IdsDiffer : IdsDiffer scope one_row logged
logged-IdsDiffer s t (inl e) (inl f) same = e ∙ sym f
logged-IdsDiffer s t (inl e) (inr h) same = absurd h
logged-IdsDiffer s t (inr h) k same = absurd h

first_row-IsCut : IsCut scope one_row logged first_row
unfolding kamu_llm_gateway.Usage.in_scope kamu_llm_gateway.Prelude.Hex.parse_hex
first_row-IsCut = record { fits = omega arith; timed = timed }
  where
    timed :
        (t : UsageLogRow)
        → In t logged.usage_log
        → shares_cursor first_row t ≡ true
        → cursor_of t.usage_id ≡ cursor_of first_row.usage_id
    timed t (inl e) shares = ap (λ (x : UsageLogRow). cursor_of x.usage_id) e
    timed t (inr h) shares = absurd h

logged-IsCut : (last : UsageLogRow) → In last logged.usage_log → IsCut scope one_row logged last
logged-IsCut last (inl e) = rw e first_row-IsCut
logged-IsCut last (inr h) = absurd h

key_usage_next_example :
    In first_row (page_rows scope one_row logged)
    ⊎ ((m : ℕ) × ((key_usage scope one_row logged).max_id ≡ some m)
        × (from_since (record one_row { since = some m }) first_row ≡ true))
key_usage_next_example =
    key_usage_next scope one_row logged first_row first_row-IsDue logged-IdsDiffer logged-IsCut

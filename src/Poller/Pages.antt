-- ===== src/Poller/Pages.antt =====
-- `pollOnce`: all pages of one machine that are newer than a cursor, and `pollAll`, over the
-- machines. The machine is `feed`, which answers a request for the rows after a cursor, `none` where
-- the fetch fails or the reply is not ok. `tick` gives the clock and the price table at each page.
pub mod Complete
pub mod Pass
pub mod Honest
use kamu_llm_gateway.Prelude.{
  ℕ, zero, suc, ◌+◌, Bool, true, false, Option, none, some, List, [], ◌∷◌, Text, codes, any, length,
  ltb, map, ◌==◌, text_eq, get_or, is_empty, ◌||◌, select, if◌then◌else◌, ◌++◌,
}
use kamu_llm_gateway.Prelude.Hex.{parse_hex, remove_dashes}
use kamu_llm_gateway.Catalog.{Models}
use kamu_llm_gateway.Pricing.{PriceTable}
use kamu_llm_gateway.Database.{Db, UsageLogRow}
use kamu_llm_gateway.UsageId.{with_overlap}
use kamu_llm_gateway.Poller.{UsageRow, lacks_id, id_text, to_log_row, ingest_rows, page_limit}

pub record Tick : Type 0 where
  pub now : ℕ
  pub prices : PriceTable

-- What the loop ends with; `unfinished` is the loop that has run out of fuel.
pub data Polled : Type 0 where
  done : ℕ → Polled
  failed no_usage_id unfinished : Polled

-- `page.rows[page.rows.length - 1].usage_id`
unfoldable pub last_cursor : Text → List UsageRow → Text
last_cursor cursor [] = cursor
last_cursor cursor (r ∷ rows) = last_cursor (id_text r) rows

module _ (to_numeric : ℕ → ℕ) (models : Models) (limit : ℕ) (tick : ℕ → Tick)
    (feed : Text → Option (List UsageRow)) where
  unfoldable pub store_page : ℕ → List UsageRow → Db → ℕ × Db
  store_page n rows db =
      ingest_rows (tick n).now (map (to_log_row to_numeric models (tick n).prices) rows) db

  -- The body of the loop, with the later iterations as `resume`.
  unfoldable pub poll_page :
      ℕ → ℕ → Db → Option (List UsageRow) → (List UsageRow → ℕ → Db → Polled × Db) → Polled × Db
  unfolding store_page
  poll_page n inserted db none resume = (failed, db)
  poll_page n inserted db (some []) resume = (done inserted, db)
  poll_page n inserted db (some (r ∷ rows)) resume =
      let stored = store_page n (r ∷ rows) db in
      let total = inserted + stored.0 in
      if any lacks_id (r ∷ rows)
      then (no_usage_id, db)
      else if ltb (length (r ∷ rows)) limit
      then (done total, stored.1)
      else resume (r ∷ rows) total stored.1

  -- `n` counts the pages, and `inserted` the rows so far.
  unfoldable pub poll_from : ℕ → ℕ → Text → ℕ → Db → Polled × Db
  unfolding poll_page last_cursor
  poll_from zero n cursor inserted db = (unfinished, db)
  poll_from (suc fuel) n cursor inserted db =
      poll_page n inserted db (feed cursor)
        (λ page total stored. poll_from fuel (suc n) (last_cursor cursor page) total stored)

module _ (to_numeric : ℕ → ℕ) (models : Models) (tick : ℕ → Tick) where
  -- `fuel` bounds the pages.
  unfoldable pub poll_once : (Text → Option (List UsageRow)) → ℕ → Text → Db → Polled × Db
  unfolding poll_from
  poll_once feed fuel after db = poll_from to_numeric models page_limit tick feed fuel 0 after 0 db

pub record Satellite : Type 0 where
  pub origin : Text
  pub machine_id : Option Text

abbrev pub id_value : Text → ℕ
id_value u = parse_hex (remove_dashes u)

-- `ORDER BY usage_id DESC LIMIT 1`, or "0" where there is no row.
newest_of : Text → List UsageLogRow → Text
newest_of best [] = best
newest_of best (r ∷ rows) =
    newest_of (if ltb (id_value best) (id_value r.usage_id) then r.usage_id else best) rows

-- `machineId ? …`, for which an empty id counts as none.
is_from : Option Text → UsageLogRow → Bool
is_from none r = true
is_from (some m) r = is_empty m || text_eq r.machine_id m

unfoldable pub newest_stored : Option Text → List UsageLogRow → Text
unfolding newest_of is_from
newest_stored machine log = newest_of (codes "0") (select (is_from machine) log)

abbrev pub is_done : Polled → Bool
is_done (done _) = true
is_done _ = false

module _ (to_numeric : ℕ → ℕ) (models : Models) (tick : ℕ → Tick)
    (feeds : Text → Text → Option (List UsageRow)) (fuel : ℕ) where
  unfoldable pub poll_satellite : Satellite → Db → Polled × Db
  unfolding poll_once newest_stored with_overlap
  poll_satellite s db =
      poll_once to_numeric models tick (feeds s.origin) fuel
        (with_overlap (newest_stored s.machine_id db.usage_log)) db

  -- The machines that failed, and the tables: a failing machine is skipped.
  unfoldable pub poll_all : List Satellite → Db → List Text × Db
  unfolding poll_satellite
  poll_all [] db = ([], db)
  poll_all (s ∷ targets) db =
      let polled = poll_satellite s db in
      let rest = poll_all targets polled.1 in
      if is_done polled.0 then rest else (get_or s.machine_id s.origin ∷ rest.0, rest.1)

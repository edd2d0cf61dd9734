-- ===== src/Usage/Read.antt =====
-- api/src/routes/usage.ts: GET /usage of a key holder, which waits for a pass over the proxy machines
-- before it reads the ledger. `wait` is what becomes of the tables and the pass until the race
-- between `ingestNow` and the timer of INGEST_WAIT_MS is over.
pub mod Fresh
use kamu_llm_gateway.Prelude.{ℕ, Option, none, some, List, [], ◌∷◌, Text, codes}
use kamu_llm_gateway.Prelude.Splitting.{join}
use kamu_llm_gateway.Http.{Reply, ok, err}
use kamu_llm_gateway.Database.{Db}
use kamu_llm_gateway.Credentials.{
  Headers, UsageScope, extract_credential, verify_gateway_credential,
}
use kamu_llm_gateway.Usage.{PageQuery, Page, key_usage}

-- The pass has ended, with the machines that failed, or the time was up first.
pub data Race : Type 0 where
  ended : List Text → Db → Race
  timeout : Db → Race

-- The pass ended first.
abbrev pub after_pass : List Text × Db → Race
after_pass (failed, db) = ended failed db

abbrev pub failed_of : Race → List Text
failed_of (ended machines db) = machines
failed_of (timeout db) = codes "timeout" ∷ []

abbrev pub tables_of : Race → Db
tables_of (ended machines db) = db
tables_of (timeout db) = db

-- The header X-Usage-Partial, and the body.
pub record Answer : Type 0 where
  pub partial : Option Text
  pub page : Page

abbrev pub partial_of : List Text → Option Text
partial_of [] = none
partial_of (machine ∷ failed) = some (join b',' (machine ∷ failed))

unfoldable pub answer_of : PageQuery → Race → UsageScope → Answer
answer_of q race scope = record {
  partial = partial_of (failed_of race);
  page = key_usage scope q (tables_of race);
}

module _ (hash : Text → Text) (verify_jwt : Text → Option (Option ℕ)) (wait : Db → Race)
    (now : ℕ) where
  read_as : Option UsageScope → PageQuery → Db → Reply Answer × Db
  unfolding answer_of
  read_as none q db = (err 401 (codes "unauthorized"), db)
  read_as (some scope) q db = (ok (answer_of q (wait db) scope), tables_of (wait db))

  unfoldable pub get_usage : Headers → PageQuery → Db → Reply Answer × Db
  unfolding read_as
  get_usage h q db =
      read_as (verify_gateway_credential hash verify_jwt db.keys now (extract_credential h)) q db

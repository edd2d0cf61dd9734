-- ===== src/Tests/Poll.antt =====
-- Examples of the results on the machines that are polled.
use kamu_llm_gateway.Prelude.{
  ℕ, ◌≡◌, refl, inl, inr, true, false, Bool, Option, none, some, List, [], ◌∷◌, ◌++◌, Text, codes,
  In, arith, text_eq, text_eq_iff, any, All, length, ◌*◌, ◌<◌, take, drop, Bool-cases,
  if◌then◌else◌,
}
use kamu_llm_gateway.Prelude.Splitting.{flat}
use kamu_llm_gateway.Catalog.{Models}
use kamu_llm_gateway.UsageId.{with_overlap}
use kamu_llm_gateway.Poller.{UsageRow, lacks_id, page_limit}
use kamu_llm_gateway.Poller.Pages.{Tick, Satellite, last_cursor, newest_stored}
use kamu_llm_gateway.Poller.Pages.Complete.{IsFeed, has_usage}
use kamu_llm_gateway.Poller.Pages.Pass.{pass_db, poll_all_stores}
use kamu_llm_gateway.Poller.Satellites.{Url, machine_at, satellites}
use kamu_llm_gateway.Poller.Satellites.Listed.{Vm, IsClean, satellites_listed}
use kamu_llm_gateway.Tests.Data.{db, first_id, fed}

abbrev pub tick : ℕ → Tick
tick n = record { now = 3_000; prices = [] }

abbrev pub no_models : Models
no_models = []

-- A machine whose one row comes first.
abbrev pub rest : Text → List UsageRow
rest c = if text_eq c (codes "0") then fed ∷ [] else []

-- The machine "bad" does not answer.
abbrev pub feeds : Text → Text → Option (List UsageRow)
feeds origin c = if text_eq origin (codes "bad") then none else some (rest c)

pub feeds-IsFeed : IsFeed page_limit (feeds (codes "good")) rest
unfolding last_cursor text_eq
feeds-IsFeed = record { pages = pages; resumes = resumes; has_ids = has_ids }
  where
    pages : (c : Text) → feeds (codes "good") c ≡ some (take page_limit (rest c))
    pages c = elim (Bool-cases (text_eq c (codes "0"))) [
      | inl first ↦ rw first refl
      | inr later ↦ rw later refl
    ]

    resumes :
        (c : Text) → rest (last_cursor c (take page_limit (rest c))) ≡ drop page_limit (rest c)
    resumes c = elim (Bool-cases (text_eq c (codes "0"))) [
      | inl first ↦ rw first refl
      | inr later ↦ rw later (rw later refl)
    ]

    has_ids : (c : Text) → any lacks_id (rest c) ≡ false
    has_ids c = elim (Bool-cases (text_eq c (codes "0"))) [
      | inl first ↦ rw first refl
      | inr later ↦ rw later refl
    ]

abbrev bad : Satellite
bad = record { origin = codes "bad"; machine_id = some (codes "b") }

abbrev pub good : Satellite
good = record { origin = codes "good"; machine_id = some (codes "a") }

rows_fit : (c : Text) → length (rest c) < 1 * page_limit
rows_fit c = elim (Bool-cases (text_eq c (codes "0"))) [
  | inl first ↦ rw first (omega arith)
  | inr later ↦ rw later (omega arith)
]

pub first_in : In fed (
    rest (
      with_overlap (
        newest_stored good.machine_id
          (pass_db (λ n. n) no_models tick feeds 1 (bad ∷ []) db).usage_log)))
unfolding text_eq with_overlap newest_stored kamu_llm_gateway.Poller.Pages.poll_all
first_in = inl refl

poll_all_stores_example :
    has_usage first_id (pass_db (λ n. n) no_models tick feeds 1 (bad ∷ good ∷ bad ∷ []) db) ≡ true
poll_all_stores_example =
    poll_all_stores (λ n. n) no_models tick feeds 1 (bad ∷ []) (bad ∷ []) good rest db fed
      feeds-IsFeed rows_fit first_in refl

abbrev url : Url
url = record {
  protocol = codes "http:";
  hostname = codes "llm.internal";
  port = [];
  origin = codes "http://llm.internal";
}

abbrev machines : List (List Vm)
machines =
    (record { id = codes "e1"; region = codes "arn" }
      ∷ record { id = codes "e2"; region = codes "fra" }
      ∷ [])
    ∷ (record { id = codes "e3"; region = codes "ams" } ∷ [])
    ∷ []

abbrev txt : Text → Option (List (List Text))
txt name = some ((codes "e1 arn,e2 fra" ∷ codes "e3 ams" ∷ []) ∷ [])

clean : All (All IsClean) machines
unfolding kamu_llm_gateway.Prelude.is_space
clean = (
  (((refl, refl), (refl, refl)), (((refl, refl), (refl, refl)), tt)),
  ((((refl, refl), (refl, refl)), tt), tt),
)

satellites_listed_example :
    satellites (λ t. some url) txt (codes "http://llm.internal")
    ≡ some (
        machine_at url (codes "llm") (codes "e1")
        ∷ machine_at url (codes "llm") (codes "e2")
        ∷ machine_at url (codes "llm") (codes "e3")
        ∷ [])
unfolding flat kamu_llm_gateway.Prelude.Splitting.join
satellites_listed_example =
    satellites_listed (λ t. some url) txt (codes "http://llm.internal") (codes "llm") url
      ((codes "e1 arn,e2 fra" ∷ codes "e3 ams" ∷ []) ∷ []) machines refl refl refl refl clean

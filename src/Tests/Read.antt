-- ===== src/Tests/Read.antt =====
-- Examples of the results on the reads of a key holder: one machine with one row of a sub-key.
use kamu_llm_gateway.Prelude.{
  ℕ, ◌≡◌, refl, ap, subst, sym, ◌∙◌, inl, inr, true, Option, none, some, List, [], ◌∷◌, Text, codes,
  In, In-map, arith, select, length, ◌≤◌, Bool, Bool-cases, text_eq,
}
use kamu_llm_gateway.Http.{ok}
use kamu_llm_gateway.Database.{Db, UsageLogRow}
use kamu_llm_gateway.Credentials.{Headers, extract_credential, verify_gateway_credential, look_up}
use kamu_llm_gateway.UsageId.{with_overlap, cursor_of}
use kamu_llm_gateway.Poller.{UsageRow, page_limit, to_log_row}
use kamu_llm_gateway.Poller.Pages.{Satellite, newest_stored}
use kamu_llm_gateway.Poller.Pages.Honest.{IsHonest}
use kamu_llm_gateway.Usage.{PageQuery, key_usage, page_rows, max_limit}
use kamu_llm_gateway.Usage.Paging.{IsCut, IdsDiffer}
use kamu_llm_gateway.Usage.Read.{Answer, Race, timeout, answer_of, get_usage}
use kamu_llm_gateway.Usage.Read.Fresh.{
  IsOwn, IsAnswered, to_row, wait_for, passed, get_usage-IsOwn, get_usage-IsFresh,
}
use kamu_llm_gateway.Tests.Ledger.{logged, scope, query, shown}
use kamu_llm_gateway.Tests.Data.{db, first_row, secret, plain, no_jwt, fed}
use kamu_llm_gateway.Tests.Poll.{tick, no_models, rest, feeds, feeds-IsFeed, good}

abbrev headers : Headers
headers = record { x_api_key = some secret; authorization = none; x_kamuhub_authz = none }

abbrev one_row : PageQuery
one_row = record { since = none; limit = some 1; key_ids = []; name = none }

abbrev after : Db
after = passed plain no_jwt 3_000 headers one_row db (λ n. n) no_models tick feeds 1 (good ∷ [])

abbrev wait : Db → Race
wait = wait_for plain no_jwt 3_000 headers one_row db (λ n. n) no_models tick feeds 1 (good ∷ [])

abbrev row : UsageLogRow
row = to_log_row (λ n. n) no_models [] fed

log_is : after.usage_log ≡ row ∷ []
unfolding text_eq with_overlap newest_stored kamu_llm_gateway.Poller.Pages.poll_all
    kamu_llm_gateway.Poller.ingest_rows kamu_llm_gateway.Poller.charge_spend
    kamu_llm_gateway.Poller.insert_rows to_log_row
log_is = refl

feeds-IsHonest : IsHonest page_limit (feeds (codes "good")) rest
feeds-IsHonest = record {
  answers = λ c. inr (feeds-IsFeed.pages c);
  resumes = feeds-IsFeed.resumes;
}

accepted :
    verify_gateway_credential plain no_jwt db.keys 3_000 (extract_credential headers) ≡ some scope
unfolding verify_gateway_credential look_up kamu_llm_gateway.Prelude.starts_with text_eq
    extract_credential
accepted = refl

abbrev answer : Answer
answer = answer_of one_row (wait db) scope

answered : (get_usage plain no_jwt wait 3_000 headers one_row db).0 ≡ ok answer
unfolding get_usage
answered = rw accepted refl

whole : answer.partial ≡ none
unfolding answer_of text_eq with_overlap newest_stored kamu_llm_gateway.Poller.Pages.poll_all
    kamu_llm_gateway.Poller.Satellites.poll_pass
whole = refl

only : (s : UsageLogRow) → In s after.usage_log → s ≡ row
only s m = elim (subst (In s) log_is m) [ inl e ↦ e | inr h ↦ absurd h ]

after-IdsDiffer : IdsDiffer scope one_row after
after-IdsDiffer s t m n same = only s m ∙ sym (only t n)

at_most_one : (p : UsageLogRow → Bool) (x : UsageLogRow) → length (select p (x ∷ [])) ≤ max_limit
at_most_one p x = elim (Bool-cases (p x)) [
  | inl kept ↦ rw kept (omega arith)
  | inr dropped ↦ rw dropped (omega arith)
]

few :
    (p : UsageLogRow → Bool) (rows : List UsageLogRow)
    → rows ≡ row ∷ []
    → length (select p rows) ≤ max_limit
few p rows e =
    subst (λ (l : List UsageLogRow). length (select p l) ≤ max_limit) (sym e) (at_most_one p row)

after-IsCut : (last : UsageLogRow) → In last after.usage_log → IsCut scope one_row after last
after-IsCut last m = record {
  fits = few _ after.usage_log log_is;
  timed =
      λ t n shares. ap (λ (x : UsageLogRow). cursor_of x.usage_id) (only t n ∙ sym (only last m));
}

first_in : In fed (
    rest (
      with_overlap (
        newest_stored good.machine_id
          (passed plain no_jwt 3_000 headers one_row db
            (λ n. n)
            no_models
            tick
            feeds
            1
            []).usage_log)))
unfolding text_eq with_overlap newest_stored kamu_llm_gateway.Poller.Pages.poll_all
first_in = inl refl

get_usage-IsFresh_example : IsAnswered plain no_jwt 3_000 headers one_row db scope after fed answer
get_usage-IsFresh_example =
    get_usage-IsFresh plain no_jwt 3_000 headers one_row db (λ n. n) no_models tick feeds 1 [] []
      good rest fed scope answer accepted answered whole feeds-IsHonest first_in refl
      after-IdsDiffer after-IsCut

-- The time is up after another request has stored the row.
abbrev slow : Db → Race
slow d = timeout logged

abbrev late : Answer
late = answer_of query (slow db) scope

answered_late : (get_usage plain no_jwt slow 3_000 headers query db).0 ≡ ok late
unfolding get_usage
answered_late = rw accepted refl

on_page : In (to_row first_row) late.page.rows
unfolding answer_of key_usage
on_page = In-map to_row first_row (page_rows scope query logged) shown

get_usage-IsOwn_example : IsOwn plain no_jwt 3_000 headers query db logged (to_row first_row)
get_usage-IsOwn_example =
    get_usage-IsOwn plain no_jwt 3_000 headers query db slow late (to_row first_row) answered_late
      on_page

-- ===== src/Usage/Scope.antt =====
-- A key holder's page shows the rows of its scope.
use kamu_llm_gateway.Prelude.{
  ℕ, zero, suc, ◌≡◌, inl, inr, Bool, true, ◌&&◌, List, [], ◌∷◌, Option, none, some, arith, In,
  In-append, In_of_select, In_of_sort_by, take, length, ◌==◌, Bool-cases,
}
use kamu_llm_gateway.Database.{Db, UsageLogRow}
use kamu_llm_gateway.Credentials.{UsageScope}
use kamu_llm_gateway.Usage.{
  PageQuery, in_scope, is_asked, id_le, select_rows, tail_of, last_row, page_rows, page_size,
  from_since, shares_cursor, max_limit,
}

pub In_of_take : {A : Type 0} (n : ℕ) (x : A) (xs : List A) → In x (take n xs) → In x xs
In_of_take zero x xs m = absurd m
In_of_take (suc n) x [] m = absurd m
In_of_take (suc n) x (y ∷ xs) (inl e) = inl e
In_of_take (suc n) x (y ∷ xs) (inr m) = inr (In_of_take n x xs m)

module _ (scope : UsageScope) (q : PageQuery) (db : Db) where
  -- A row of the ledger that the scope covers and the query asks for.
  pub record IsShown (r : UsageLogRow) : Type 0 where
    pub stored : In r db.usage_log
    pub covered : in_scope scope r ≡ true
    pub asked : is_asked q db.keys r ≡ true

  select_rows-IsShown :
      (range : UsageLogRow → Bool) (n : ℕ) (r : UsageLogRow)
      → In r (select_rows scope q db range n)
      → IsShown r
  unfolding select_rows
  select_rows-IsShown range n r m =
      let p : UsageLogRow → Bool = λ x. in_scope scope x && (range x && is_asked q db.keys x) in
      let (here, passed) =
        In_of_select p r db.usage_log (In_of_sort_by id_le r _ (In_of_take n r _ m)) in
      record { stored = here; covered = ground arith; asked = ground arith }

  tail_of-IsShown :
      (last : Option UsageLogRow) (r : UsageLogRow) → In r (tail_of scope q db last) → IsShown r
  unfolding tail_of
  tail_of-IsShown none r m = absurd m
  tail_of-IsShown (some last) r m = select_rows-IsShown (shares_cursor last) max_limit r m

  -- Every row of a page is a row of the ledger that belongs to the credential's scope, the key as
  -- root or the sub-key itself, and passes the filters of the query; the rows that are added to
  -- complete the last cursor are no exception.
  pub page_rows-IsShown : (r : UsageLogRow) → In r (page_rows scope q db) → IsShown r
  unfolding page_rows
  page_rows-IsShown r m =
      let rows = select_rows scope q db (from_since q) (page_size q.limit) in
      elim (Bool-cases (length rows == page_size q.limit)) [
        | inl full ↦ elim (In-append r rows (tail_of scope q db (last_row rows)) (rw full at m)) [
          | inl here ↦ select_rows-IsShown (from_since q) (page_size q.limit) r here
          | inr more ↦ tail_of-IsShown (last_row rows) r more
        ]
        | inr short ↦ select_rows-IsShown (from_since q) (page_size q.limit) r (rw short at m)
      ]

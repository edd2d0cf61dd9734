-- ===== src/Usage/Paging.antt =====
-- The pages of a key holder lose no row: what a page leaves out comes after its cursor.
use kamu_llm_gateway.Prelude.{
  ℕ, ◌≤◌, ◌≡◌, ◌⊎◌, sym, ap, ◌∙◌, inl, inr, Bool, true, ◌&&◌, List, ◌++◌, some, arith, In, select,
  In-select, In_of_select, In-append_left, In-append_right, In-sort_by, In_of_sort_by, sort_by,
  sort_by-IsOrdered, length-sort_by, subst, take, ltb, length, ◌==◌, Bool-cases,
}
use kamu_llm_gateway.Database.{Db, UsageLogRow}
use kamu_llm_gateway.Credentials.{UsageScope}
use kamu_llm_gateway.UsageId.{cursor_of}
use kamu_llm_gateway.Usage.Scope.{In_of_take}
use kamu_llm_gateway.Usage.{
  PageQuery, in_scope, is_asked, id_value, id_le, row_cursor, select_rows, tail_of, last_row,
  page_rows, key_usage, page_size, from_since, since_of, shares_cursor, max_limit,
}
use kamu_llm_gateway.Usage.Cut.{take_all, take_or_after, page_size-suc, In_of_last, page_last_of}

module _ (scope : UsageScope) (q : PageQuery) (db : Db) where
  -- A stored row that the scope covers, the query asks for and the cursor `since` has not passed.
  pub record IsDue (r : UsageLogRow) : Type 0 where
    pub stored : In r db.usage_log
    pub covered : in_scope scope r ≡ true
    pub since : from_since q r ≡ true
    pub asked : is_asked q db.keys r ≡ true

  abbrev first_rows : List UsageLogRow
  first_rows = select_rows scope q db (from_since q) (page_size q.limit)

  -- The rows whose ids stand between that of `last` and the first of the next cursor fit into one
  -- answer, and have the cursor of `last`: a usage id is a UUIDv7, of which the cursor is the head.
  pub record IsCut (last : UsageLogRow) : Type 0 where
    pub fits :
        length (
          select
            (λ x. in_scope scope x && (shares_cursor last x && is_asked q db.keys x))
            db.usage_log)
        ≤ max_limit
    pub timed :
        (t : UsageLogRow)
        → In t db.usage_log
        → shares_cursor last t ≡ true
        → cursor_of t.usage_id ≡ cursor_of last.usage_id

  -- No two rows have ids of one value.
  abbrev pub IdsDiffer : Type 0
  IdsDiffer =
      (s t : UsageLogRow)
      → In s db.usage_log
      → In t db.usage_log
      → id_value s.usage_id ≡ id_value t.usage_id
      → s ≡ t

  due_first :
      (r : UsageLogRow)
      → IsDue r
      → In r first_rows
        ⊎ ((last : UsageLogRow) × (last_row first_rows ≡ some last)
            × (id_le last r ≡ true)
            × (length first_rows ≡ page_size q.limit))
  unfolding select_rows
  due_first r due =
      let p : UsageLogRow → Bool =
        λ x. in_scope scope x && (from_since q x && is_asked q db.keys x) in
      let (n, size) = page_size-suc q.limit in
      let kept : p r ≡ true = ground (arith, due.covered, due.since, due.asked) in
      let here =
        In-sort_by id_le r (select p db.usage_log) (In-select p r db.usage_log due.stored kept) in
      let ordered =
        sort_by-IsOrdered id_le (λ x y h. ground (arith, h)) (λ x y z h k. ground (arith, h, k))
          (select p db.usage_log) in
      rw size (take_or_after n r (sort_by id_le (select p db.usage_log)) ordered here)

  -- A row after `last` is in the tail, or its cursor is a later one.
  due_later :
      (last r : UsageLogRow)
      → IsDue r
      → IsCut last
      → IdsDiffer
      → In last db.usage_log
      → id_le last r ≡ true
      → (r ≡ last)
        ⊎ (In r (tail_of scope q db (some last))
            ⊎ (from_since (record q { since = some (cursor_of last.usage_id) }) r ≡ true))
  unfolding tail_of select_rows since_of
  due_later last r due cut differ stored after =
      let next : PageQuery = record q { since = some (cursor_of last.usage_id) } in
      elim (Bool-cases (from_since next r)) [
        | inl later ↦ inr (inr later)
        | inr sooner ↦ elim (Bool-cases (ltb (id_value last.usage_id) (id_value r.usage_id))) [
          | inr level ↦ inl (differ r last due.stored stored (ground (arith, level, after)))
          | inl above ↦
              let p : UsageLogRow → Bool =
                λ x. in_scope scope x && (shares_cursor last x && is_asked q db.keys x) in
              let kept : p r ≡ true = ground (arith, due.covered, due.asked, above, sooner) in
              let here =
                In-sort_by id_le r (select p db.usage_log)
                  (In-select p r db.usage_log due.stored kept) in
              let fits = cut.fits in
              let all : take max_limit (sort_by id_le (select p db.usage_log))
                  ≡ sort_by id_le (select p db.usage_log) =
                take_all max_limit (sort_by id_le (select p db.usage_log))
                  (omega (arith, fits, length-sort_by id_le (select p db.usage_log))) in
              inr (inl (subst (In r) (sym all) here))
        ]
      ]

  of_select_rows :
      (range : UsageLogRow → Bool) (n : ℕ) (r : UsageLogRow)
      → In r (select_rows scope q db range n)
      → In r db.usage_log × (range r ≡ true)
  unfolding select_rows
  of_select_rows range n r m =
      let p : UsageLogRow → Bool = λ x. in_scope scope x && (range x && is_asked q db.keys x) in
      let (here, passed) = In_of_select p r db.usage_log (
        In_of_sort_by id_le r (select p db.usage_log)
          (In_of_take n r (sort_by id_le (select p db.usage_log)) m)) in
      (here, ground arith)

  -- The last row of a full page has the cursor of the last row of its first query.
  page_last :
      (last : UsageLogRow)
      → IsCut last
      → last_row first_rows ≡ some last
      → (t : UsageLogRow) × (last_row (first_rows ++ tail_of scope q db (some last)) ≡ some t)
        × (cursor_of t.usage_id ≡ cursor_of last.usage_id)
  unfolding tail_of
  page_last last cut cut_at =
      page_last_of last first_rows (tail_of scope q db (some last)) cut_at (λ t m.
        let (here, shares) = of_select_rows (shares_cursor last) max_limit t m in
        cut.timed t here shares)

  full_page :
      (last : UsageLogRow)
      → last_row first_rows ≡ some last
      → length first_rows ≡ page_size q.limit
      → page_rows scope q db ≡ first_rows ++ tail_of scope q db (some last)
  unfolding page_rows
  full_page last cut_at full =
      let hit : length first_rows == page_size q.limit ≡ true = ground (arith, full) in
      rw hit (ap (λ o. first_rows ++ tail_of scope q db o) cut_at)

  first_shown : (r : UsageLogRow) → In r first_rows → In r (page_rows scope q db)
  unfolding page_rows
  first_shown r m = elim (Bool-cases (length first_rows == page_size q.limit)) [
    | inl full ↦ rw full (In-append_left r first_rows (tail_of scope q db (last_row first_rows)) m)
    | inr short ↦ rw short m
  ]

  max_id_of :
      (t : UsageLogRow)
      → last_row (page_rows scope q db) ≡ some t
      → (key_usage scope q db).max_id ≡ some (cursor_of t.usage_id)
  unfolding key_usage
  max_id_of t e = ap row_cursor e

  -- A stored row that the scope covers, the query asks for and its `since` has not passed stands on
  -- the page, or is due for the query that continues from the page's max_id, so no row is lost
  -- between two pages; this where no two rows have ids of one value and every row is a cut: the rows
  -- after it that share its cursor fit into one answer, and have that cursor, as UUIDv7s do.
  pub key_usage_next :
      (r : UsageLogRow)
      → IsDue r
      → IdsDiffer
      → ((last : UsageLogRow) → In last db.usage_log → IsCut last)
      → In r (page_rows scope q db)
        ⊎ ((m : ℕ) × ((key_usage scope q db).max_id ≡ some m)
            × (from_since (record q { since = some m }) r ≡ true))
  key_usage_next r due differ cut = elim (due_first r due) [
    | inl here ↦ inl (first_shown r here)
    | inr (last, cut_at, after, full) ↦
        let last_here = In_of_last last first_rows cut_at in
        let (stored, _) = of_select_rows (from_since q) (page_size q.limit) last last_here in
        let page = full_page last cut_at full in
        elim (due_later last r due (cut last stored) differ stored after) [
          | inl same ↦ inl (rw same (first_shown last last_here))
          | inr (inl tail) ↦ inl (
              subst (In r) (sym page)
                (In-append_right r first_rows (tail_of scope q db (some last)) tail))
          | inr (inr later) ↦
              let (t, t_last, cursor) = page_last last (cut last stored) cut_at in
              inr (
                cursor_of t.usage_id,
                max_id_of t (ap last_row page ∙ t_last),
                subst (λ c. from_since (record q { since = some c }) r ≡ true) (sym cursor) later,
              )
        ]
  ]

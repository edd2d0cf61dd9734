-- ===== src/Usage/Read/Fresh.antt =====
-- What a key holder's read promises: whose rows it shows, and that without X-Usage-Partial no row that
-- a proxy machine had is missing.
use kamu_llm_gateway.Prelude.{
  ℕ, ==_iff, ◌==◌, all, all-In, ◌≡◌, ◌⊎◌, refl, sym, ap, subst, ◌∙◌, inl, inr, true, false, ◌&&◌,
  Option, none, some, List, [], ◌∷◌, ◌++◌, arith, Text, text_eq, text_eq_iff, In, In_of_any,
  In_of_map, In-map, map, Bool-cases,
}
use kamu_llm_gateway.Catalog.{Models}
use kamu_llm_gateway.Types.{Key, KeyType, top, derived}
use kamu_llm_gateway.Http.{ok, ok-injective}
use kamu_llm_gateway.Database.{Db, UsageLogRow, has_key, has_id, is_id}
use kamu_llm_gateway.Credentials.{
  Headers, UsageScope, extract_credential, verify_gateway_credential,
}
use kamu_llm_gateway.UsageId.{with_overlap, cursor_of}
use kamu_llm_gateway.Credentials.Liveness.{IsAdmitted, IsNamed, verify-IsNamed, and_split}
use kamu_llm_gateway.Poller.{UsageRow, id_text, page_limit}
use kamu_llm_gateway.Poller.Pages.{Tick, Satellite, newest_stored}
use kamu_llm_gateway.Poller.Pages.Complete.{has_usage}
use kamu_llm_gateway.Poller.Pages.Pass.{pass_db}
use kamu_llm_gateway.Poller.Pages.Honest.{IsHonest, failures, pass_stores}
use kamu_llm_gateway.Poller.Satellites.{poll_pass}
use kamu_llm_gateway.Usage.{
  PageQuery, KeyUsageRow, key_usage, page_rows, in_scope, is_asked, from_since,
}
use kamu_llm_gateway.Usage.Scope.{IsShown, page_rows-IsShown}
use kamu_llm_gateway.Usage.Paging.{IsCut, IdsDiffer, key_usage_next}
use kamu_llm_gateway.Usage.Read.{
  Race, after_pass, tables_of, Answer, partial_of, answer_of, read_as, get_usage,
}

abbrev pub to_row : UsageLogRow → KeyUsageRow
to_row r = record { id = cursor_of r.usage_id; row = r }

rows_of_page :
    (scope : UsageScope) (q : PageQuery) (db : Db)
    → (key_usage scope q db).rows ≡ map to_row (page_rows scope q db)
unfolding key_usage
rows_of_page scope q db = refl

partial_none : (failed : List Text) → partial_of failed ≡ none → failed ≡ []
partial_none [] e = refl
partial_none (machine ∷ failed) e = absurd (cc e)

-- A sub-key sees its own rows, and a top-level key those with it as root.
pub data IsWithin (key : Key) (r : UsageLogRow) : Type 0 where
  by_root : key.key_type ≡ top → r.root_key_id ≡ some key.id → IsWithin key r
  by_key : key.key_type ≡ derived → r.key_id ≡ key.id → IsWithin key r

is_id_sound : (i : ℕ) (o : Option ℕ) → is_id i o ≡ true → o ≡ some i
is_id_sound i none e = cc e
is_id_sound i (some j) e = ap some (ground (arith, e))

-- The key_id and jti of the query are the row's key, and its name the label of that key.
pub record IsAsked (q : PageQuery) (keys : List Key) (r : UsageLogRow) : Type 0 where
  pub of_keys : (i : ℕ) → In i q.key_ids → r.key_id ≡ i
  pub key : Key
  pub listed : In key keys
  pub same_id : key.id ≡ r.key_id
  pub labelled : (n : Text) → q.name ≡ some n → key.label ≡ n

label_sound :
    (name : Option Text) (label n : Text)
    → (elim name [ none ↦ true | some m ↦ text_eq label m ]) ≡ true
    → name ≡ some n
    → label ≡ n
label_sound none label n e same = absurd (cc same)
label_sound (some m) label n e same = let it : m ≡ n = cc same in (text_eq_iff label m).0 e ∙ it

is_asked_sound :
    (q : PageQuery) (keys : List Key) (r : UsageLogRow)
    → is_asked q keys r ≡ true
    → IsAsked q keys r
unfolding is_asked
is_asked_sound q keys r e =
    let (of_keys, joined) = and_split (all (λ i. r.key_id == i) q.key_ids) e in
    let (k, here, both) = In_of_any _ keys joined in
    let (same, named) = and_split (has_id r.key_id k) both in
    record {
      of_keys = λ i m. (==_iff r.key_id i).0 (all-In (λ j. r.key_id == j) i q.key_ids of_keys m);
      key = k;
      listed = here;
      same_id = ground (arith, same);
      labelled = λ n given. label_sound q.name k.label n named given;
    }

KeyType-cases : (t : KeyType) → (t ≡ top) ⊎ (t ≡ derived)
KeyType-cases top = inl refl
KeyType-cases derived = inr refl

in_scope_sound :
    (scope : UsageScope) (k : Key) (r : UsageLogRow)
    → scope.key_id ≡ k.id
    → scope.key_type ≡ k.key_type
    → in_scope scope r ≡ true
    → IsWithin k r
unfolding in_scope
in_scope_sound scope k r same_id same_type e = elim (KeyType-cases scope.key_type) [
  | inl is_top ↦
      by_root (sym same_type ∙ is_top)
        (is_id_sound scope.key_id r.root_key_id (rw is_top at e) ∙ ap some same_id)
  | inr is_sub ↦
      by_key (sym same_type ∙ is_sub) ((==_iff r.key_id scope.key_id).0 (rw is_sub at e) ∙ same_id)
]

module _ (hash : Text → Text) (verify_jwt : Text → Option (Option ℕ)) (now : ℕ) (h : Headers)
    (q : PageQuery) (db : Db) where
  -- A row that the presented credential may see: the key that the credential names, and its root, are
  -- live, and the row is a stored one of that key, or of the subtree of a top-level key, that passes
  -- the filters.
  pub record IsOwn (after : Db) (row : KeyUsageRow) : Type 0 where
    pub scope : UsageScope
    pub admitted : IsAdmitted db.keys now scope
    pub named : IsNamed db.keys now hash verify_jwt (extract_credential h) admitted.key
    pub stored : In row.row after.usage_log
    pub within : IsWithin admitted.key row.row
    pub asked : IsAsked q after.keys row.row
    pub same_cursor : row.id ≡ cursor_of row.row.usage_id

  read_ok :
      (wait : Db → Race) (found : Option UsageScope) (a : Answer)
      → (read_as hash verify_jwt wait now found q db).0 ≡ ok a
      → (scope : UsageScope) × (found ≡ some scope) × (answer_of q (wait db) scope ≡ a)
  unfolding read_as
  read_ok wait none a e = absurd (cc e)
  read_ok wait (some scope) a e = (scope, refl, ok-injective e)

  -- Whatever the wait ends with, GET /usage answers rows only to a credential that names a stored and
  -- live key whose root is stored and live: the secret whose hash a top-level key stores, or a token
  -- whose verified claim is the id of a sub-key. Each row of the answer is a stored one, with that
  -- top-level key as root or of that sub-key, that passes the filters, under the cursor of its usage
  -- id.
  pub get_usage-IsOwn :
      (wait : Db → Race) (a : Answer) (row : KeyUsageRow)
      → (get_usage hash verify_jwt wait now h q db).0 ≡ ok a
      → In row a.page.rows
      → IsOwn (tables_of (wait db)) row
  unfolding get_usage answer_of
  get_usage-IsOwn wait a row e m =
      let (scope, accepted, answer) = read_ok wait _ a e in
      let after = tables_of (wait db) in
      let rows : a.page.rows ≡ map to_row (page_rows scope q after) =
        ap (λ (x : Answer). x.page.rows) (sym answer) ∙ rows_of_page scope q after in
      let (r, here, same) =
        In_of_map to_row row (page_rows scope q after) (subst (In row) rows m) in
      let (admitted, named) =
        verify-IsNamed db.keys now hash verify_jwt (extract_credential h) scope accepted in
      let shown =
        subst (λ (x : KeyUsageRow). IsShown scope q after x.row) (sym same)
          (page_rows-IsShown scope q after r here) in
      record {
        scope = scope;
        admitted = admitted;
        named = named;
        stored = shown.stored;
        within =
            in_scope_sound scope admitted.key row.row admitted.same_id admitted.same_type
              shown.covered;
        asked = is_asked_sound q after.keys row.row shown.asked;
        same_cursor = rw same refl;
      }

  -- A row of a machine as the ledger has it: unless it is out of the scope, before the cursor or not
  -- asked for, it is on the page or due for the query that continues from the page's max_id.
  pub record IsAnswered (scope : UsageScope) (after : Db) (x : UsageRow) (a : Answer) : Type 0 where
    pub row : UsageLogRow
    pub stored : In row after.usage_log
    pub same_id : row.usage_id ≡ id_text x
    pub answered :
        (in_scope scope row && (from_since q row && is_asked q after.keys row) ≡ false)
        ⊎ (In (to_row row) a.page.rows
            ⊎ ((m : ℕ) × (a.page.max_id ≡ some m)
                × (from_since (record q { since = some m }) row ≡ true)))

  stored-IsAnswered :
      (scope : UsageScope) (after : Db) (x : UsageRow) (partial : Option Text)
      → has_usage (id_text x) after ≡ true
      → IdsDiffer scope q after
      → ((last : UsageLogRow) → In last after.usage_log → IsCut scope q after last)
      → IsAnswered scope after x (record { partial = partial; page = key_usage scope q after })
  unfolding key_usage
  stored-IsAnswered scope after x partial stored differ cut =
      let (r, here, same) =
        In_of_any (λ (s : UsageLogRow). text_eq s.usage_id (id_text x)) after.usage_log stored in
      record {
        row = r;
        stored = here;
        same_id = (text_eq_iff r.usage_id (id_text x)).0 same;
        answered =
            elim (Bool-cases (in_scope scope r && (from_since q r && is_asked q after.keys r))) [
              | inr unwanted ↦ inl unwanted
              | inl wanted ↦
                  elim (key_usage_next scope q after r
                    (record {
                      stored = here;
                      covered = ground arith;
                      since = ground arith;
                      asked = ground arith;
                    })
                    differ cut) [
                      | inl shown ↦ inr (inl (In-map to_row r (page_rows scope q after) shown))
                      | inr later ↦ inr (inr later)
                    ]
            ];
      }

  module _ (to_numeric : ℕ → ℕ) (models : Models) (tick : ℕ → Tick)
      (feeds : Text → Text → Option (List UsageRow)) (fuel : ℕ) where
    -- The wait for a pass over the machines that has ended in time.
    abbrev pub wait_for : List Satellite → Db → Race
    wait_for targets d = after_pass (poll_pass to_numeric models tick feeds fuel (some targets) d)

    abbrev pub passed : List Satellite → Db
    passed targets = pass_db to_numeric models tick feeds fuel targets db

    -- Where GET /usage answers after a pass over the machines, with nothing else written meanwhile,
    -- and without X-Usage-Partial, each row that a machine, at its turn, held after its cursor, and
    -- whose key exists, is in the ledger, and on the page or due for the query that continues from
    -- it, unless the scope or the query leaves it out. The machine's answers have to be right where
    -- it answers, and the rows of the ledger to have different ids and to be cuts, as for a page.
    pub get_usage-IsFresh :
        (before after : List Satellite) (s : Satellite) (rest : Text → List UsageRow) (x : UsageRow)
        (scope : UsageScope) (a : Answer)
        → verify_gateway_credential hash verify_jwt db.keys now (extract_credential h) ≡ some scope
        → (get_usage hash verify_jwt (wait_for (before ++ s ∷ after)) now h q db).0 ≡ ok a
        → a.partial ≡ none
        → IsHonest page_limit (feeds s.origin) rest
        → In x (rest (with_overlap (newest_stored s.machine_id (passed before).usage_log)))
        → has_key x.key_id db.keys ≡ true
        → IdsDiffer scope q (passed (before ++ s ∷ after))
        → ((last : UsageLogRow)
            → In last (passed (before ++ s ∷ after)).usage_log
            → IsCut scope q (passed (before ++ s ∷ after)) last)
        → IsAnswered scope (passed (before ++ s ∷ after)) x a
    unfolding get_usage answer_of poll_pass
    get_usage-IsFresh before after s rest x scope a accepted e whole honest m known differ cut =
        let targets = before ++ s ∷ after in
        let (scope', accepted', answer) = read_ok (wait_for targets) _ a e in
        let same : scope' ≡ scope = cc (accepted, accepted') in
        let answer' : answer_of q (wait_for targets db) scope ≡ a =
          subst (λ (c : UsageScope). answer_of q (wait_for targets db) c ≡ a) same answer in
        let good : failures to_numeric models tick feeds fuel targets db ≡ [] =
          partial_none _ (ap (λ (y : Answer). y.partial) answer' ∙ whole) in
        let stored =
          pass_stores to_numeric models tick feeds fuel before after s rest db x good honest m
            known in
        subst (IsAnswered scope (passed targets) x) answer'
          (stored-IsAnswered scope (passed targets) x _ stored differ cut)

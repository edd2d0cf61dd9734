-- ===== src/Database.antt =====
-- The llm schema of Postgres as the api reads and writes it: one list of rows for each table, and
-- the tests that its row-level security makes. Rows stand in the order of insertion, newest first.
use kamu_llm_gateway.Prelude.{
  ℕ, Bool, true, false, ◌&&◌, Option, none, some, List, [], ◌∷◌, Text, text_eq, any, find, ltb,
  ◌==◌, if◌then◌else◌, ◌≡◌, refl, inl, inr, Bool-cases, In, ◌≤◌, count_where, arith,
}
use kamu_llm_gateway.Types.{Team, Role, Key}
use kamu_llm_gateway.Pricing.{StoredPrice}

pub record TeamMember : Type 0 where
  pub team_id : ℕ
  pub user_id : Text
  pub role : Role

-- llm.usage_log, for the rows that pollOnce writes: `usage_id` is the canonical text of a UUID.
pub record UsageLogRow : Type 0 where
  pub usage_id : Text
  pub machine_id : Text
  pub key_id : ℕ
  pub parent_key_id : Option ℕ
  pub root_key_id : Option ℕ
  pub model : Text
  pub cost_usd : Option ℕ
  pub price_id : Option ℕ
  pub tokens_in : ℕ
  pub tokens_out : ℕ
  pub cache_read_tokens : ℕ
  pub cache_write_tokens : ℕ
  pub provider_cost : Option ℕ
  pub provider_cost_currency : Option Text
  pub created_at : ℕ

-- llm.key_spend
pub record KeySpend : Type 0 where
  pub key_id : ℕ
  pub spent_usd : ℕ
  pub request_count : ℕ

pub record Db : Type 0 where
  pub teams : List Team
  pub team_members : List TeamMember
  pub keys : List Key
  pub usage_log : List UsageLogRow
  pub key_spend : List KeySpend
  pub model_prices : List StoredPrice

-- `column = id`, which is not true of a null.
abbrev pub is_id : ℕ → Option ℕ → Bool
is_id i none = false
is_id i (some j) = i == j

-- `expires_at IS NULL OR expires_at > now()`
abbrev pub is_unexpired : ℕ → Option ℕ → Bool
is_unexpired now none = true
is_unexpired now (some t) = ltb now t

abbrev pub has_id : ℕ → Key → Bool
has_id i k = k.id == i

-- `SELECT … FROM llm.keys WHERE id = i`
unfoldable pub find_key : ℕ → List Key → Option Key
find_key i keys = find (has_id i) keys

abbrev pub has_key : ℕ → List Key → Bool
has_key i keys = any (has_id i) keys

abbrev pub is_team : ℕ → Team → Bool
is_team i t = t.id == i

-- `team_id = ANY(llm.user_teams())`
unfoldable pub in_user_teams : Text → ℕ → List TeamMember → Bool
in_user_teams user team_id members =
    any (λ m. text_eq m.user_id user && m.team_id == team_id) members

-- `UPDATE llm.keys … WHERE p`
unfoldable pub update_where : (Key → Bool) → (Key → Key) → List Key → List Key
update_where p f [] = []
update_where p f (k ∷ keys) = (if p k then f k else k) ∷ update_where p f keys

pub update_where_none :
    (p : Key → Bool) (f : Key → Key) (keys : List Key)
    → ((k : Key) → p k ≡ false)
    → update_where p f keys ≡ keys
unfolding update_where
update_where_none p f [] h = refl
update_where_none p f (k ∷ keys) h = rw (h k, update_where_none p f keys h)

-- A test that no update changes gives the same answer on the updated table.
pub any-update_where :
    (q p : Key → Bool) (f : Key → Key) (keys : List Key)
    → ((k : Key) → q (f k) ≡ q k)
    → any q (update_where p f keys) ≡ any q keys
unfolding update_where
any-update_where q p f [] h = refl
any-update_where q p f (k ∷ keys) h = elim (Bool-cases (p k)) [
  | inl hit ↦ rw (hit, h k, any-update_where q p f keys h)
  | inr miss ↦ rw (miss, any-update_where q p f keys h)
]

-- A row of the updated table is an old one that the update passed over, or the update of one.
pub In-update_where :
    (x : Key) (p : Key → Bool) (f : Key → Key) (keys : List Key)
    → In x (update_where p f keys)
    → (k : Key) × In k keys × (x ≡ (if p k then f k else k))
unfolding update_where
In-update_where x p f [] m = absurd m
In-update_where x p f (k ∷ keys) (inl e) = (k, inl refl, e)
In-update_where x p f (k ∷ keys) (inr m) =
    let (k', here, e) = In-update_where x p f keys m in (k', inr here, e)

pub update_where_keeps :
    (k : Key) (p : Key → Bool) (f : Key → Key) (keys : List Key)
    → In k keys
    → p k ≡ false
    → In k (update_where p f keys)
unfolding update_where
update_where_keeps k p f [] m h = absurd m
update_where_keeps k p f (j ∷ keys) (inl e) h = rw (← e, h) (inl refl)
update_where_keeps k p f (j ∷ keys) (inr m) h = inr (update_where_keeps k p f keys m h)

-- An update after which fewer rows pass a test.
pub count_where-update_where :
    (q p : Key → Bool) (f : Key → Key) (keys : List Key)
    → ((k : Key) → q (f k) ≡ true → q k ≡ true)
    → count_where q (update_where p f keys) ≤ count_where q keys
unfolding update_where
count_where-update_where q p f [] h = omega arith
count_where-update_where q p f (k ∷ keys) h =
    ground (arith, count_where-update_where q p f keys h, h k)

-- ===== src/Admin/Settings.antt =====
-- admin/src/routes/settings.tsx: the one row of llm.settings, and the form that changes it.
-- `parse_number` is `Number` on a text that is not empty.
use kamu_llm_gateway.Prelude.{
  ℕ, ◌≡◌, refl, ap, ◌∙◌, inl, inr, Bool, true, false, not, Option, none, some, List, [], ◌∷◌, ◌++◌,
  Text, codes, is_empty, trim, map, select, All, All-In, In, any, map-eq_self, select-eq_self,
  Bool-cases, ◌==◌, if◌then◌else◌, arith,
}
use kamu_llm_gateway.Http.{Reply, ok, err, or_blank}
use kamu_llm_gateway.Admin.{AdminUser}

-- A number of JavaScript, and one of a NUMERIC column, which knows no infinity at its precision.
pub data Amount : Type 0 where
  finite : ℕ → Amount
  nan infinite : Amount

pub record SettingsRow : Type 0 where
  pub disabled_models : List Text
  pub default_budget_usd : Option Amount
  pub updated_at : ℕ
  pub updated_by : Option Text

abbrev comma : ℕ
comma = b','

abbrev add_first : ℕ → List Text → List Text
add_first c [] = (c ∷ []) ∷ []
add_first c (t ∷ ts) = (c ∷ t) ∷ ts

-- `s.split(",")`
unfoldable pub split_commas : Text → List Text
split_commas [] = [] ∷ []
split_commas (c ∷ s) =
    let rest = split_commas s in if c == comma then [] ∷ rest else add_first c rest

-- `settings.disabled_models.join(",")`, the value of the input.
unfoldable pub join_commas : List Text → Text
join_commas [] = []
join_commas (t ∷ []) = t
join_commas (t ∷ u ∷ ts) = t ++ comma ∷ join_commas (u ∷ ts)

-- `disabledRaw.split(",").map((s) => s.trim()).filter(Boolean)`
unfoldable pub read_slugs : Text → List Text
unfolding split_commas
read_slugs raw = select (λ t. not (is_empty t)) (map trim (split_commas raw))

unfoldable pub read_default : (Text → Amount) → Text → Option Amount
read_default parse_number raw = if is_empty raw then none else some (parse_number raw)

unfoldable pub is_infinite : Option Amount → Bool
is_infinite (some infinite) = true
is_infinite _ = false

pub record SettingsForm : Type 0 where
  pub disabled_models : Option Text
  pub default_budget_usd : Option Text

-- The update throws where the column cannot hold the number.
unfoldable pub save_settings :
    (Text → Amount) → ℕ → AdminUser → SettingsForm → SettingsRow → Reply (Unit {0}) × SettingsRow
unfolding read_slugs read_default is_infinite
save_settings parse_number now admin form row =
    let budget = read_default parse_number (trim (or_blank form.default_budget_usd)) in
    if is_infinite budget then (err 500 (codes "numeric field overflow"), row) else (
      ok tt,
      record {
        disabled_models = read_slugs (or_blank form.disabled_models);
        default_budget_usd = budget;
        updated_at = now;
        updated_by = some admin.email;
      },
    )

-- `settings.default_budget_usd ?? ""`
abbrev pub shown_default : (Amount → Text) → Option Amount → Text
shown_default print_amount none = []
shown_default print_amount (some a) = print_amount a

-- The form as the page shows it for a row; `print_amount` is the column as text.
unfoldable pub shown_form : (Amount → Text) → SettingsRow → SettingsForm
unfolding join_commas
shown_form print_amount row = record {
  disabled_models = some (join_commas row.disabled_models);
  default_budget_usd = some (shown_default print_amount row.default_budget_usd);
}

-- A slug that the list can hold: trimmed, not empty and without a comma.
pub record IsSlug (t : Text) : Type 0 where
  pub trimmed : trim t ≡ t
  pub full : is_empty t ≡ false
  pub whole : any (λ c. c == comma) t ≡ false

split-plain : (t : Text) → any (λ c. c == comma) t ≡ false → split_commas t ≡ t ∷ []
unfolding split_commas
split-plain [] h = refl
split-plain (c ∷ t) h = elim (Bool-cases (c == comma)) [
  | inl hit ↦ absurd (ground (arith, hit, h))
  | inr miss ↦ rw (miss, split_commas, split-plain t (ground (arith, miss, h)))
]

split-append :
    (t s : Text)
    → any (λ c. c == comma) t ≡ false
    → split_commas (t ++ comma ∷ s) ≡ t ∷ split_commas s
unfolding split_commas
split-append [] s h = refl
split-append (c ∷ t) s h = elim (Bool-cases (c == comma)) [
  | inl hit ↦ absurd (ground (arith, hit, h))
  | inr miss ↦ rw (miss, split_commas, split-append t s (ground (arith, miss, h)))
]

split-join :
    (t : Text) (ts : List Text) → All IsSlug (t ∷ ts) → split_commas (join_commas (t ∷ ts)) ≡ t ∷ ts
unfolding join_commas
split-join t [] (slug, rest) = split-plain t slug.whole
split-join t (u ∷ ts) (slug, rest) =
    split-append t (join_commas (u ∷ ts)) slug.whole
    ∙ ap (λ (l : List Text). t ∷ l) (split-join u ts rest)

read_slugs-join : (ts : List Text) → All IsSlug ts → read_slugs (join_commas ts) ≡ ts
unfolding read_slugs split_commas join_commas trim
read_slugs-join [] slugs = refl
read_slugs-join (t ∷ ts) slugs =
    let slug : (s : Text) → In s (t ∷ ts) → IsSlug s = λ s m. All-In IsSlug s (t ∷ ts) slugs m in
    ap (λ l. select (λ s. not (is_empty s)) (map trim l)) (split-join t ts slugs)
    ∙ (ap (λ l. select (λ s. not (is_empty s)) l)
          (map-eq_self trim (t ∷ ts) (λ s m. (slug s m).trimmed))
        ∙ select-eq_self (λ s. not (is_empty s)) (t ∷ ts) (λ s m. ap not ((slug s m).full)))

module _ (parse_number : Text → Amount) (print_amount : Amount → Text) where
  -- A default that the column can hold, and whose text is read back as it.
  pub record IsPrinted (o : Option Amount) : Type 0 where
    pub held : is_infinite o ≡ false
    pub reads : read_default parse_number (trim (shown_default print_amount o)) ≡ o

  -- The settings form sent back as the page shows it changes neither the disabled models nor the
  -- default budget, if no slug has a comma or outer spaces, and the default's text is read back.
  pub save_settings-shown_form :
      (now : ℕ) (admin : AdminUser) (row : SettingsRow)
      → All IsSlug row.disabled_models
      → IsPrinted row.default_budget_usd
      → save_settings parse_number now admin (shown_form print_amount row) row
        ≡ (ok tt, record row { updated_at = now; updated_by = some admin.email })
  unfolding save_settings shown_form
  save_settings-shown_form now admin row slugs printed =
      rw (printed.reads, printed.held, read_slugs-join row.disabled_models slugs) refl

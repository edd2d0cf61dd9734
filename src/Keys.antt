-- ===== src/Keys.antt =====
-- api/src/routes/keys.ts: list, create, detail, revoke and derive. Each handler is a child; the
-- allowlist test is here, with the fields of a JSON body that several handlers read.
pub mod Subset
pub mod Create
pub mod Revoke
pub mod Derive
pub mod Read
use kamu_llm_gateway.Prelude.{
  Bool, true, false, List, Text, codes, text_eq, any, all, if◌then◌else◌,
}

-- A `models` field of a body: left out or null, an array of strings, or anything else.
pub data ModelsField : Type 0 where
  absent : ModelsField
  strings : List Text → ModelsField
  ill_typed : ModelsField

abbrev pub star : Text
star = codes "*"

-- `models.includes(m)`
unfoldable pub includes : Text → List Text → Bool
includes m models = any (λ x. text_eq x m) models

unfoldable pub models_subset : List Text → List Text → Bool
unfolding includes
models_subset child parent =
    let parent_has_all = includes star parent in
    if includes star child
    then parent_has_all
    else if parent_has_all
    then true
    else all (λ m. includes m parent) child

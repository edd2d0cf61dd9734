-- ===== src/Poller/Satellites.antt =====
-- api/src/lib/usage-poller.ts: `satellites`, which reads the list of machines from a TXT record, and
-- `pollAll` with it. `parse_url` is `new URL`, `none` where it throws, and `resolve_txt` is
-- Deno.resolveDns, `none` where that throws: a record is the list of its character strings.
pub mod Listed
use kamu_llm_gateway.Prelude.{
  ℕ, ◌-◌, Bool, not, Option, none, some, List, [], ◌∷◌, ◌++◌, map, Text, codes, ends_with, is_empty,
  split, trim, take, length, select, head?, get_or, if◌then◌else◌,
}
use kamu_llm_gateway.Prelude.Splitting.{join, flat}
use kamu_llm_gateway.Catalog.{Models}
use kamu_llm_gateway.Database.{Db}
use kamu_llm_gateway.Poller.{UsageRow}
use kamu_llm_gateway.Poller.Pages.{Tick, Satellite, poll_all}

pub record Url : Type 0 where
  pub protocol : Text
  pub hostname : Text
  pub port : Text
  pub origin : Text

abbrev pub internal : Text
internal = codes ".internal"

-- `url.hostname.slice(0, -".internal".length)`
unfoldable pub app_of : Text → Text
app_of hostname = take (length hostname - 9) hostname

-- `records.flat().join(",").split(",").filter(Boolean)`
unfoldable pub entries : List (List Text) → List Text
entries records = select (λ e. not (is_empty e)) (split b',' (join b',' (flat records)))

-- `entry.trim().split(" ")[0]`
unfoldable pub machine_of : Text → Text
machine_of entry = get_or (head? (split b' ' (trim entry))) []

unfoldable pub machine_at : Url → Text → Text → Satellite
machine_at url app id = record {
  origin =
      url.protocol
      ++ (codes "//"
          ++ (id
              ++ (codes ".vm."
                  ++ (app
                      ++ (codes ".internal:"
                          ++ (if is_empty url.port then codes "80" else url.port))))));
  machine_id = some id;
}

listed : Url → Option (List (List Text)) → Option (List Satellite)
listed url none = none
listed url (some records) =
    some (map (λ e. machine_at url (app_of url.hostname) (machine_of e)) (entries records))

abbrev pub record_name : Text → Text
record_name app = codes "vms." ++ (app ++ internal)

satellites_of : (Text → Option (List (List Text))) → Option Url → Option (List Satellite)
unfolding listed
satellites_of resolve_txt none = none
satellites_of resolve_txt (some url) =
    if ends_with url.hostname internal
    then listed url (resolve_txt (record_name (app_of url.hostname)))
    else some (record { origin = url.origin; machine_id = none } ∷ [])

module _ (parse_url : Text → Option Url) (resolve_txt : Text → Option (List (List Text))) where
  -- `none` where it throws.
  unfoldable pub satellites : Text → Option (List Satellite)
  unfolding satellites_of
  satellites llm_proxy_url = satellites_of resolve_txt (parse_url llm_proxy_url)

-- `pollAll`, for what `satellites` gives.
module _ (to_numeric : ℕ → ℕ) (models : Models) (tick : ℕ → Tick)
    (feeds : Text → Text → Option (List UsageRow)) (fuel : ℕ) where
  unfoldable pub poll_pass : Option (List Satellite) → Db → List Text × Db
  poll_pass none db = (codes "discovery" ∷ [], db)
  poll_pass (some targets) db = poll_all to_numeric models tick feeds fuel targets db

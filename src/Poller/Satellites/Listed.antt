-- ===== src/Poller/Satellites/Listed.antt =====
-- The machine list is read back as it is printed.
use mathlib.Core.List.{append_assoc}
use kamu_llm_gateway.Prelude.Trimming.{trim_word, last_of}
use kamu_llm_gateway.Prelude.{
  ℕ, ◌≡◌, refl, sym, ap, ap₂, ◌∙◌, Bool, true, false, not, ◌||◌, Option, some, List, [], ◌∷◌, ◌++◌,
  map, Text, ends_with, is_empty, split, trim, take, select, select-append, map-append, take_left,
  head?, get_or, any, All, All-append, arith, is_space, ◌==◌,
}
use kamu_llm_gateway.Prelude.Splitting.{
  join, flat, Lacks, Lacks-append, split-whole, split-join, split-append,
}
use kamu_llm_gateway.Prelude.Suffixes.{length-suffix, ends_with-append}
use kamu_llm_gateway.Poller.Satellites.{
  Url, internal, app_of, entries, machine_of, machine_at, record_name, listed, satellites_of,
  satellites,
}

abbrev has_text : Text → Bool
has_text e = not (is_empty e)

-- The character strings of the records are read one by one: a string's end ends an entry.
chunk_entries : Text → List Text
chunk_entries chunk = select has_text (split b',' chunk)

select_flat :
    (ts : List Text) → select has_text (flat (map (split b',') ts)) ≡ flat (map chunk_entries ts)
unfolding flat chunk_entries
select_flat [] = refl
select_flat (t ∷ ts) =
    select-append has_text (split b',' t) (flat (map (split b',') ts))
    ∙ ap (λ (l : List Text). select has_text (split b',' t) ++ l) (select_flat ts)

none_listed : select has_text (split b',' (join b',' [])) ≡ flat (map chunk_entries [])
unfolding split join flat
none_listed = refl

-- The entries are those of each character string by itself.
entries_by_chunk :
    (records : List (List Text)) → entries records ≡ flat (map chunk_entries (flat records))
unfolding entries
entries_by_chunk records = go (flat records)
  where
    go :
        (ts : List Text) → select has_text (split b',' (join b',' ts)) ≡ flat (map chunk_entries ts)
    go [] = none_listed
    go (t ∷ ts) = ap (select has_text) (split-join b',' t ts) ∙ select_flat (t ∷ ts)

-- A machine as the record lists it: an id and a region, without commas and white space.
pub record Vm : Type 0 where
  pub id : Text
  pub region : Text

abbrev pub breaks : ℕ → Bool
breaks c = c == b',' || is_space c

abbrev pub IsWord : Text → Type 0
IsWord t = (is_empty t ≡ false) × (any breaks t ≡ false)

abbrev pub IsClean : Vm → Type 0
IsClean m = IsWord m.id × IsWord m.region

abbrev pub entry_text : Vm → Text
entry_text m = m.id ++ b' ' ∷ m.region

-- One character string of the record.
abbrev pub print : List Vm → Text
print ms = join b',' (map entry_text ms)

Lacks-comma : (t : Text) → any breaks t ≡ false → Lacks b',' t
Lacks-comma [] h = refl
Lacks-comma (c ∷ t) h = ground (arith, Lacks-comma t)

no_space : (t : Text) → any breaks t ≡ false → any is_space t ≡ false
no_space [] h = refl
no_space (c ∷ t) h = ground (arith, no_space t)

Lacks-blank : (t : Text) → any is_space t ≡ false → Lacks b' ' t
unfolding is_space
Lacks-blank [] h = refl
Lacks-blank (c ∷ t) h = ground (arith, Lacks-blank t)

entry_trimmed :
    (id region : Text)
    → IsWord id
    → IsWord region
    → trim (id ++ b' ' ∷ region) ≡ id ++ b' ' ∷ region
entry_trimmed [] region (empty, _) word = cc empty
entry_trimmed (c ∷ s) [] word (empty, _) = cc empty
entry_trimmed (c ∷ s) (b ∷ t) (_, clean) (_, clean') =
    let (r, d, e, last) = last_of b t (no_space (b ∷ t) clean') in
    trim_word (s ++ b' ' ∷ b ∷ t) (c ∷ s ++ b' ' ∷ r) c d (ground (arith, no_space (c ∷ s) clean))
      last (ap (λ (u : Text). c ∷ s ++ b' ' ∷ u) e ∙ sym (append_assoc (c ∷ s) (b' ' ∷ r) (d ∷ [])))

machine_of-entry : (m : Vm) → IsClean m → machine_of (entry_text m) ≡ m.id
unfolding machine_of
machine_of-entry m (id_word, region_word) =
    ap (λ (t : Text). get_or (head? (split b' ' t)) [])
      (entry_trimmed m.id m.region id_word region_word)
    ∙ ap (λ (l : List Text). get_or (head? l) [])
        (split-append b' ' m.id m.region
          ∙ ap (λ (l : List Text). l ++ split b' ' m.region)
              (split-whole b' ' m.id (Lacks-blank m.id (no_space m.id id_word.1))))

entry-Lacks_comma : (m : Vm) → IsClean m → Lacks b',' (entry_text m)
entry-Lacks_comma m (id_word, region_word) =
    Lacks-append b',' m.id (b' ' ∷ m.region) (Lacks-comma m.id id_word.1)
      (Lacks-comma m.region region_word.1)

entry_has_text : (id region : Text) → has_text (id ++ b' ' ∷ region) ≡ true
entry_has_text [] region = refl
entry_has_text (c ∷ s) region = refl

entries_of_machines :
    (ms : List Vm)
    → All IsClean ms
    → select has_text (flat (map (split b',') (map entry_text ms))) ≡ map entry_text ms
unfolding flat
entries_of_machines [] clean = refl
entries_of_machines (m ∷ ms) (first, rest) =
    ap (λ (l : List Text). select has_text (l ++ flat (map (split b',') (map entry_text ms))))
      (split-whole b',' (entry_text m) (entry-Lacks_comma m first))
    ∙ rw (entry_has_text m.id m.region, select)
        (ap (λ (l : List Text). entry_text m ∷ l) (entries_of_machines ms rest))

-- One character string is read back.
chunk_entries-print : (ms : List Vm) → All IsClean ms → chunk_entries (print ms) ≡ map entry_text ms
unfolding chunk_entries flat
chunk_entries-print [] clean = none_listed
chunk_entries-print (m ∷ ms) clean =
    ap (select has_text) (split-join b',' (entry_text m) (map entry_text ms))
    ∙ entries_of_machines (m ∷ ms) clean

chunks-print :
    (groups : List (List Vm))
    → All (All IsClean) groups
    → flat (map chunk_entries (map print groups)) ≡ map entry_text (flat groups)
unfolding flat
chunks-print [] clean = refl
chunks-print (ms ∷ groups) (first, rest) =
    ap₂ ◌++◌ (chunk_entries-print ms first) (chunks-print groups rest)
    ∙ sym (map-append entry_text ms (flat groups))

machines_read :
    (url : Url) (app : Text) (ms : List Vm)
    → All IsClean ms
    → map (λ e. machine_at url app (machine_of e)) (map entry_text ms)
      ≡ map (λ m. machine_at url app m.id) ms
machines_read url app [] clean = refl
machines_read url app (m ∷ ms) (first, rest) =
    ap₂ ◌∷◌ (ap (machine_at url app) (machine_of-entry m first)) (machines_read url app ms rest)

app_of-internal : (app : Text) → app_of (app ++ internal) ≡ app
unfolding app_of
app_of-internal app =
    ap (λ n. take n (app ++ internal)) (length-suffix app internal) ∙ take_left app internal

All-flat : (groups : List (List Vm)) → All (All IsClean) groups → All IsClean (flat groups)
unfolding flat
All-flat [] clean = tt
All-flat (ms ∷ groups) (first, rest) =
    All-append IsClean ms (flat groups) first (All-flat groups rest)

-- Where the proxy's host is internal and each character string of its TXT record lists machines, with
-- ids and regions that are words, the machines to poll are exactly those, in order and by their own
-- addresses.
pub satellites_listed :
    (parse_url : Text → Option Url) (resolve_txt : Text → Option (List (List Text)))
    (raw app : Text) (url : Url) (records : List (List Text)) (groups : List (List Vm))
    → parse_url raw ≡ some url
    → url.hostname ≡ app ++ internal
    → resolve_txt (record_name app) ≡ some records
    → flat records ≡ map print groups
    → All (All IsClean) groups
    → satellites parse_url resolve_txt raw
      ≡ some (map (λ (m : Vm). machine_at url app m.id) (flat groups))
unfolding satellites
satellites_listed parse_url resolve_txt raw app url records groups parsed host resolved printed
      clean =
    let named : app_of url.hostname ≡ app = ap app_of host ∙ app_of-internal app in
    let is_internal : ends_with url.hostname internal ≡ true =
      ap (λ t. ends_with t internal) host ∙ ends_with-append app internal in
    let answer : resolve_txt (record_name (app_of url.hostname)) ≡ some records =
      ap (λ a. resolve_txt (record_name a)) named ∙ resolved in
    let read : entries records ≡ map entry_text (flat groups) =
      entries_by_chunk records
      ∙ (ap (λ (ts : List Text). flat (map chunk_entries ts)) printed
          ∙ chunks-print groups clean) in
    ap (satellites_of resolve_txt) parsed
    ∙ rw is_internal (
        ap (listed url) answer
        ∙ ap some (
            ap (λ a. map (λ e. machine_at url a (machine_of e)) (entries records)) named
            ∙ (ap (map (λ e. machine_at url app (machine_of e))) read
                ∙ machines_read url app (flat groups) (All-flat groups clean))))

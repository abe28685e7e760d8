-- ===== src/Ingest/Sources.antt =====
-- The JSON arrays of an upload: the helpers of backend/internal/handler/calls/upload.go. The JSON
-- decoder is a parameter. A number is a float64 of which the code asks two things: whether it is
-- above 0, and its conversion to int64.
use open_scanner.Base.{
  Bool, true, false, ◌||◌, Option, none, some, String, List, [], ◌∷◌, if◌then◌else◌, any, ℤ, pos,
  eq_ℤ, str_eq, ◌+ℤ◌, StringMap, ℕ,
}
use open_scanner.Ingest.Tables.{Db, Faults}
use open_scanner.Ingest.Rows.{upsert_unit}

pub data Value : Type 0 where
  number : Bool → ℤ → Value
  text : String → Value
  other : Value

abbrev pub Entry : Type 0
Entry = StringMap Value

pub record Json : Type 0 where
  -- into a slice of maps; `none` is an error
  pub entries : String → Option (List Entry)
  -- into a slice of int64
  pub ids : String → Option (List ℤ)
  -- strings.TrimSpace(s) == ""
  pub is_blank : String → Bool

-- A "src" above 0.
unfoldable pub unit_of : Entry → Option ℤ
unit_of e = elim (e "src") [
  | none ↦ none
  | some v ↦ elim v [
    | number above n ↦ if above then some n else none
    | text s ↦ none
    | other ↦ none
  ]
]

-- A "tag" that is not empty.
unfoldable pub tag_of : Entry → Option String
tag_of e = elim (e "tag") [
  | none ↦ none
  | some v ↦ elim v [
    | number above n ↦ none
    | text s ↦ if str_eq s "" then none else some s
    | other ↦ none
  ]
]

abbrev pub first_unit : Option (List Entry) → Option ℤ
first_unit none = none
first_unit (some []) = none
first_unit (some (e ∷ es)) = unit_of e

unfoldable pub extract_primary_source : Json → String → Option ℤ
unfolding unit_of
extract_primary_source j raw = first_unit (j.entries raw)

unfoldable pub first_tag : List Entry → Option String
unfolding tag_of
first_tag [] = none
first_tag (e ∷ es) = elim (tag_of e) [ none ↦ first_tag es | some tag ↦ some tag ]

abbrev pub tag_in : Option (List Entry) → Option String
tag_in none = none
tag_in (some es) = first_tag es

unfoldable pub extract_primary_source_tag : Json → String → Option String
unfolding first_tag
extract_primary_source_tag j raw = tag_in (j.entries raw)

-- What one key of an entry adds to a sum, if it is a number.
abbrev pub count_at : Entry → String → Option ℤ
count_at e key = elim (e key) [
  | none ↦ none
  | some v ↦ elim v [ number above n ↦ some n | text s ↦ none | other ↦ none ]
]

abbrev pub plus : ℤ → Option ℤ → ℤ
plus total none = total
plus total (some n) = total +ℤ n

abbrev pub is_some {ℓ} : {A : Type ℓ} → Option A → Bool
is_some none = false
is_some (some a) = true

-- The loop, with the sums of errors and spikes so far and whether any was found.
unfoldable pub sum_counts : List Entry → ℤ → ℤ → Bool → Option ℤ × Option ℤ
sum_counts [] errors spikes found = if found then (some errors, some spikes) else (none, none)
sum_counts (e ∷ es) errors spikes found =
    sum_counts es (plus (plus errors (count_at e "errorCount")) (count_at e "error_count"))
      (plus (plus spikes (count_at e "spikeCount")) (count_at e "spike_count"))
      (found
        || is_some (count_at e "errorCount")
        || is_some (count_at e "error_count")
        || is_some (count_at e "spikeCount")
        || is_some (count_at e "spike_count"))

abbrev pub counts_in : Option (List Entry) → Option ℤ × Option ℤ
counts_in none = (none, none)
counts_in (some es) = sum_counts es (pos 0) (pos 0) false

unfoldable pub aggregate_error_spike_counts : Json → String → Option ℤ × Option ℤ
unfolding sum_counts
aggregate_error_spike_counts j raw = counts_in (j.entries raw)

abbrev pub upsert_entry : Faults → ℕ → Db → Option ℤ → Option String → Db
upsert_entry fails system db (some unit) (some tag) =
    upsert_unit fails db (record { system_id = system; unit_id = unit; label = tag })
upsert_entry fails system db _ _ = db

unfoldable pub upsert_entries : Faults → ℕ → List Entry → Db → Db
unfolding unit_of tag_of
upsert_entries fails system [] db = db
upsert_entries fails system (e ∷ es) db =
    upsert_entries fails system es (upsert_entry fails system db (unit_of e) (tag_of e))

abbrev pub upsert_all : Faults → ℕ → Option (List Entry) → Db → Db
upsert_all fails system none db = db
upsert_all fails system (some es) db = upsert_entries fails system es db

unfoldable pub upsert_units_from_sources : Faults → Json → Db → ℕ → String → Db
unfolding upsert_entries
upsert_units_from_sources fails j db system raw = upsert_all fails system (j.entries raw) db

abbrev pub lists : Option (List ℤ) → ℤ → Bool
lists none raw = false
lists (some ids) raw = any (λ id. eq_ℤ id raw) ids

unfoldable pub is_blacklisted_tg : Json → Option String → ℤ → Bool
is_blacklisted_tg j none raw = false
is_blacklisted_tg j (some s) raw = if j.is_blank s then false else lists (j.ids s) raw

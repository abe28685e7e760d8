-- ===== src/Archive/Search.antt =====
-- `GetCalls` of backend/internal/handler/calls/search.go: the filters and the page of a query.
pub mod Results
use open_scanner.Base.{
  ℕ, Bool, true, false, not, ◌&&◌, ◌||◌, ◌+◌, ◌-◌, ◌*◌, ◌%◌, ◌^◌, Option, none, some, String, List,
  [], ◌∷◌, ◌++◌, ltb, if◌then◌else◌, any, keep, str_eq, length, ℤ, pos, negsuc, eq_ℤ, wrap_64,
}
use open_scanner.Grants.{Slice, load_user_grants, is_granted}
use open_scanner.Ingest.Tables.{LabelRow, Call, Lookup, found, no_rows, failed}
use open_scanner.Ingest.Rows.{get_group_by_label, get_tag_by_label}
use open_scanner.Archive.{Archive, ArchiveEnv, ArchiveRequest}
use open_scanner.Archive.Audio.{id_of, if_empty}
use open_scanner.Archive.Rows.{Filter, count_calls_filtered, list_calls}
use open_scanner.Archive.Search.Results.{CallResult, results_of}

-- The calls and the total, or an error.
pub data Listing : Type 0 where
  refused : ℕ → String → Listing
  listed : List CallResult → ℤ → Listing

-- A value to go on with, or the response.
pub data Step (A : Type 0) : Type 0 where
  go : A → Step A
  stop : Listing → Step A

abbrev pub int_parts : ArchiveEnv → List String → List ℤ → Option (List ℤ)
int_parts env [] vals = some vals
int_parts env (part ∷ parts) vals = elim (str_eq (env.trim part) "") [
  | true ↦ int_parts env parts vals
  | false ↦ elim (env.parse_int (env.trim part)) [
    | none ↦ none
    | some n ↦ int_parts env parts (if any (eq_ℤ n) vals then vals else vals ++ (n ∷ []))
  ]
]

-- `parseCSVInt64`; the empty list is nil.
unfoldable pub parse_csv_int64 : ArchiveEnv → String → Option (List ℤ)
parse_csv_int64 env raw =
    if str_eq (env.trim raw) "" then some [] else int_parts env (env.split_commas raw) []

abbrev pub string_parts : ArchiveEnv → List String → List String → List String
string_parts env [] vals = vals
string_parts env (part ∷ parts) vals =
    let v = env.trim part in
    string_parts env parts
      (if str_eq v "" || any (λ w. str_eq w v) vals then vals else vals ++ (v ∷ []))

-- `parseCSVStrings`
unfoldable pub parse_csv_strings : ArchiveEnv → String → List String
parse_csv_strings env raw =
    if str_eq (env.trim raw) "" then [] else string_parts env (env.split_commas raw) []

abbrev row_id : Lookup LabelRow → List ℕ → List ℕ
row_id (found r) ids = r.id ∷ ids
row_id no_rows ids = ids
row_id failed ids = ids

abbrev label_ids : (String → Lookup LabelRow) → List String → List ℕ
label_ids find [] = []
label_ids find (l ∷ ls) = row_id (find l) (label_ids find ls)

abbrev pub refuse_or : {A : Type 0} → String → Option A → Step A
refuse_or message none = stop (refused 400 message)
refuse_or message (some x) = go x

abbrev pub ints_step : ArchiveEnv → String → String → Step (List ℤ)
ints_step env raw message = refuse_or message (parse_csv_int64 env raw)

-- Labels of which none is known: nothing is found.
abbrev pub known_ids : List ℕ → Step (List ℕ)
known_ids [] = stop (listed [] (pos 0))
known_ids (id ∷ ids) = go (id ∷ ids)

abbrev pub labels_step : (String → Lookup LabelRow) → List String → Step (List ℕ)
labels_step find [] = go []
labels_step find (l ∷ ls) = known_ids (label_ids find (l ∷ ls))

abbrev pub date_step : ArchiveEnv → String → String → Step (Option ℤ)
date_step env raw message =
    if str_eq raw "" then go none else refuse_or message (given_date (env.parse_int raw))
  where
    given_date : Option ℤ → Option (Option ℤ)
    given_date none = none
    given_date (some n) = some (some n)

-- A number above 0, with the one to take for an empty text.
abbrev pub count_step : ArchiveEnv → String → ℕ → String → Step ℕ
count_step env raw default message =
    if str_eq raw "" then go default else refuse_or message (id_of (env.parse_int raw))

abbrev pub capped : ℕ → ℕ
capped n = if ltb 100 n then 100 else n

abbrev pub sort_step : ArchiveEnv → String → Step Bool
sort_step env raw =
    if str_eq raw ""
    then go false
    else if str_eq (env.to_lower raw) "asc"
    then go true
    else if str_eq (env.to_lower raw) "desc"
    then go false
    else stop (refused 400 "sort must be asc or desc")

-- The grants are applied to the page, and the total is changed when the page is not full.
abbrev pub allowed : Slice → List Call → List Call
allowed none cs = cs
allowed (some gs) cs = keep (λ c. is_granted (some gs) c.system_id c.talkgroup_id) cs

abbrev pub total_of : Slice → ℕ → ℕ → ℕ → ℕ → ℤ
total_of none total before limit seen = pos total
total_of (some gs) total before limit seen =
    if ltb seen limit then wrap_64 (before + seen) else pos total

abbrev pub page_of : ArchiveEnv → Archive → ArchiveRequest → ℕ → ℕ → ℕ → List Call → Listing
page_of env a req before limit total cs =
    let grants = load_user_grants env.grants_json req.viewer in
    let seen = allowed grants cs in
    listed (results_of env a req seen) (total_of grants total before limit (length seen))

abbrev pub listed_page :
    ArchiveEnv → Archive → ArchiveRequest → ℕ → ℕ → Option ℕ → Option (List Call) → Listing
listed_page env a req before limit none cs = refused 500 "internal error"
listed_page env a req before limit (some total) none = refused 500 "internal error"
listed_page env a req before limit (some total) (some cs) = page_of env a req before limit total cs

unfoldable pub search_calls :
    ArchiveEnv → Archive → ArchiveRequest → Filter → Bool → ℕ → ℕ → Listing
unfolding count_calls_filtered list_calls
search_calls env a req f ascending page limit =
    let before = (page - 1) * limit in
    listed_page env a req before limit (count_calls_filtered env a f)
      (list_calls env a f ascending (wrap_64 before) limit)

abbrev pub bookmark_user : ArchiveRequest → Option ℕ
bookmark_user req = if str_eq (req.query "bookmarked_only") "true" then req.viewer.user_id else none

abbrev non_empty : String → Option String
non_empty s = if str_eq s "" then none else some s

abbrev pub and_then : {A : Type 0} → Step A → (A → Listing) → Listing
and_then (go x) next = next x
and_then (stop l) next = l

abbrev pub query_or : ArchiveRequest → String → String → String
query_or req many one = if_empty (req.query many) (req.query one)

-- The page, from the filters found so far.
abbrev pub get_page : ArchiveEnv → Archive → ArchiveRequest → Filter → Listing
get_page env a req f = and_then (count_step env (req.query "page") 1 "invalid page") (λ page.
    and_then (count_step env (req.query "limit") 25 "invalid limit") (λ n.
      and_then (sort_step env (req.query "sort"))
        (λ ascending. search_calls env a req f ascending page (capped n))))

abbrev pub get_dated :
    ArchiveEnv → Archive → ArchiveRequest → List ℤ → List ℤ → List ℕ → List ℕ → Listing
get_dated env a req systems talkgroups groups tags =
    and_then (date_step env (req.query "date_from") "invalid date_from") (λ from.
      and_then (date_step env (req.query "date_to") "invalid date_to") (λ to.
        get_page env a req (record {
          systems = systems;
          talkgroups = talkgroups;
          groups = groups;
          tags = tags;
          date_from = from;
          date_to = to;
          bookmark_user = bookmark_user req;
          transcript = non_empty (req.query "transcript");
        })))

-- `GetCalls`
unfoldable pub get_calls : ArchiveEnv → Archive → ArchiveRequest → Listing
get_calls env a req =
    let groups = parse_csv_strings env (query_or req "groups" "group") in
    let tags = parse_csv_strings env (query_or req "tags" "tag") in
    and_then (ints_step env (query_or req "system_ids" "system_id") "invalid system_ids") (λ ss.
      and_then (ints_step env (query_or req "talkgroup_ids" "talkgroup_id") "invalid talkgroup_ids")
        (λ ts. and_then (labels_step (get_group_by_label env.fails a.db) groups) (λ gs.
          and_then (labels_step (get_tag_by_label env.fails a.db) tags)
            (λ tgs. get_dated env a req ss ts gs tgs))))

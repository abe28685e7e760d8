-- ===== src/Archive/Rows.antt =====
-- The queries of a search: countCallsFiltered, listCalls and listCallsAsc of
-- backend/internal/db/calls.sql.go, and the look-ups by row id. A list of ids that is empty is the
-- NULL parameter, and `instr` on a joined list is membership. Talkgroup 0 stands for NULL.
use open_scanner.Base.{
  ℕ, zero, Bool, true, false, not, ◌&&◌, ◌||◌, Option, none, some, String, List, [], ◌∷◌, ◌++◌,
  ◌==◌, if◌then◌else◌, any, keep, take, drop, length, ℤ, pos, negsuc, eq_ℤ, leb_ℤ,
}
use open_scanner.Store.{find_first}
use open_scanner.Ingest.Tables.{
  System, Talkgroup, Call, Db, Faults, Lookup, lookup, q_count_calls, q_list_calls,
  q_list_bookmarks, q_system_by_id, q_talkgroup_by_id,
}
use open_scanner.Ingest.Rows.{sort_by_date}
use open_scanner.Archive.{Transcription, Archive, ArchiveEnv}

pub record Filter : Type 0 where
  pub systems : List ℤ
  pub talkgroups : List ℤ
  pub groups : List ℕ
  pub tags : List ℕ
  pub date_from : Option ℤ
  pub date_to : Option ℤ
  pub bookmark_user : Option ℕ
  pub transcript : Option String

abbrev is_nil {ℓ} : {A : Type ℓ} → List A → Bool
is_nil [] = true
is_nil (x ∷ xs) = false

abbrev id_passes : List ℤ → ℕ → Bool
id_passes ids id = is_nil ids || any (λ i. eq_ℤ i (pos id)) ids

abbrev talkgroup_passes : List ℤ → ℕ → Bool
talkgroup_passes ids id = is_nil ids || (not (id == 0) && any (λ i. eq_ℤ i (pos id)) ids)

-- NULL is in no list.
abbrev is_among : List ℕ → Option ℕ → Bool
is_among ids none = false
is_among ids (some id) = any (λ i. i == id) ids

abbrev group_of : Option Talkgroup → Option ℕ
group_of none = none
group_of (some t) = t.group_id

abbrev tag_of : Option Talkgroup → Option ℕ
tag_of none = none
tag_of (some t) = t.tag_id

abbrev from_passes : Option ℤ → ℤ → Bool
from_passes none t = true
from_passes (some from) t = leb_ℤ from t

abbrev to_passes : Option ℤ → ℤ → Bool
to_passes none t = true
to_passes (some to) t = leb_ℤ t to

abbrev pub is_owner : ℕ → Option ℕ → Bool
is_owner user none = false
is_owner user (some u) = u == user

abbrev bookmark_passes : Option ℕ → Db → ℕ → Bool
bookmark_passes none db id = true
bookmark_passes (some user) db id =
    any (λ b. (b.call_id == id) && is_owner user b.user_id) db.bookmarks

abbrev is_like : ArchiveEnv → String → Option Transcription → Bool
is_like env pattern none = false
is_like env pattern (some t) = env.contains t.text pattern

abbrev transcript_passes : ArchiveEnv → Option String → Option Transcription → Bool
transcript_passes env none t = true
transcript_passes env (some pattern) t = is_like env pattern t

-- The WHERE clause, which the three statements share, with its two joins.
unfoldable pub is_match : ArchiveEnv → Archive → Filter → Call → Bool
unfolding find_first
is_match env a f c =
    let tg = find_first (λ t. t.id == c.talkgroup_id) a.db.talkgroups in
    let tr = find_first (λ t. t.call_id == c.id) a.transcriptions in
    id_passes f.systems c.system_id
    && talkgroup_passes f.talkgroups c.talkgroup_id
    && (is_nil f.groups || is_among f.groups (group_of tg))
    && (is_nil f.tags || is_among f.tags (tag_of tg))
    && from_passes f.date_from c.date_time
    && to_passes f.date_to c.date_time
    && bookmark_passes f.bookmark_user a.db c.id
    && transcript_passes env f.transcript tr

unfoldable pub count_calls_filtered : ArchiveEnv → Archive → Filter → Option ℕ
unfolding is_match
count_calls_filtered env a f =
    if env.fails q_count_calls then none else some (length (keep (is_match env a f) a.db.calls))

abbrev pub reversed : List Call → List Call
reversed [] = []
reversed (c ∷ cs) = reversed cs ++ (c ∷ [])

-- A negative OFFSET is none.
abbrev pub skipped : ℤ → ℕ
skipped (pos n) = n
skipped (negsuc n) = zero

-- `ListCallsAsc` and `ListCalls`: SQL leaves open which of two calls of one time comes first.
unfoldable pub list_calls : ArchiveEnv → Archive → Filter → Bool → ℤ → ℕ → Option (List Call)
unfolding is_match sort_by_date
list_calls env a f ascending offset limit =
    let sorted = sort_by_date (keep (is_match env a f) a.db.calls) in
    let ordered = if ascending then sorted else reversed sorted in
    if env.fails q_list_calls then none else some (take limit (drop (skipped offset) ordered))

unfoldable pub get_system : Faults → Db → ℕ → Lookup System
unfolding find_first
get_system fails db id = lookup (fails q_system_by_id) (find_first (λ s. s.id == id) db.systems)

unfoldable pub get_talkgroup_by_id : Faults → Db → ℕ → Lookup Talkgroup
unfolding find_first
get_talkgroup_by_id fails db id =
    lookup (fails q_talkgroup_by_id) (find_first (λ t. t.id == id) db.talkgroups)

-- `ListBookmarksByUser` failing, or finding no row of the call.
unfoldable pub is_bookmarked : Faults → Db → Option ℕ → ℕ → Bool
is_bookmarked fails db none id = false
is_bookmarked fails db (some user) id =
    if fails q_list_bookmarks
    then false
    else any (λ b. is_owner user b.user_id && (b.call_id == id)) db.bookmarks

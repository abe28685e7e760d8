-- ===== src/Ingest/Tables.antt =====
-- The tables that calls go into, and the queries on them: models.go, systems.sql.go,
-- talkgroups.sql.go, groups.sql.go, tags.sql.go, units.sql.go, settings.sql.go and calls.sql.go of
-- backend/internal/db. A query is its SQL statement on lists of rows in insertion order. Any query
-- may fail, and one that fails changes nothing. A 64-bit integer that comes from a request is a
-- signed number, a row id a natural one.
use open_scanner.Base.{
  ℕ, suc, Bool, true, false, ◌&&◌, Option, none, some, String, List, [], ◌∷◌, ◌++◌, ◌==◌,
  if◌then◌else◌, map, ℤ, pos, eq_ℤ, StringMap,
}
use open_scanner.Store.{find_first}

pub record System : Type 0 where
  pub id : ℕ
  pub system_id : ℤ
  pub label : String
  pub auto_populate_talkgroups : ℕ
  pub blacklists_json : Option String
  pub led : Option String
  pub order : ℤ

pub record Talkgroup : Type 0 where
  pub id : ℕ
  pub system_id : ℕ
  pub talkgroup_id : ℤ
  pub label : Option String
  pub name : Option String
  pub frequency : Option ℤ
  pub led : Option String
  pub group_id : Option ℕ
  pub tag_id : Option ℕ
  pub order : ℤ

-- A row of `groups` or of `tags`.
pub record LabelRow : Type 0 where
  pub id : ℕ
  pub label : String

pub record RadioUnit : Type 0 where
  pub system_id : ℕ
  pub unit_id : ℤ
  pub label : String

pub record Call : Type 0 where
  pub id : ℕ
  pub audio_path : String
  pub audio_name : String
  pub audio_type : String
  pub date_time : ℤ
  pub frequency : Option ℤ
  pub duration : Option ℤ
  pub source : Option ℤ
  pub sources_json : Option String
  pub frequencies_json : Option String
  pub patches_json : Option String
  pub system_id : ℕ
  pub talkgroup_id : ℕ
  pub site : Option String
  pub channel : Option String
  pub decoder : Option String
  pub error_count : Option ℤ
  pub spike_count : Option ℤ
  pub talker_alias : Option String

-- A row of `bookmarks`.
pub record BookmarkRow : Type 0 where
  pub call_id : ℕ
  pub user_id : Option ℕ

pub record Db : Type 0 where
  pub systems : List System
  pub talkgroups : List Talkgroup
  pub groups : List LabelRow
  pub tags : List LabelRow
  pub units : List RadioUnit
  pub calls : List Call
  pub bookmarks : List BookmarkRow
  -- the calls of the rows of `shared_links`
  pub shared_links : List ℕ
  pub settings : StringMap String
  -- larger than every id in use
  pub next_id : ℕ

pub data Query : Type 0 where
  q_get_setting : String → Query
  q_get_system q_create_system q_get_talkgroup q_create_talkgroup q_update_talkgroup : Query
  q_group_by_label q_create_group q_get_group q_tag_by_label q_create_tag q_get_tag : Query
  q_upsert_unit q_at_timestamp q_in_range q_create_call : Query
  q_get_call q_count_calls q_list_calls q_list_bookmarks q_get_transcription : Query
  q_system_by_id q_talkgroup_by_id : Query
  q_get_bookmark q_create_bookmark q_delete_bookmark : Query
  -- of a round of the pruner; the second number is the id
  q_older : ℕ → Query
  q_delete_call : ℕ → ℕ → Query

abbrev pub Faults : Type 0
Faults = Query → Bool

-- A look-up finds a row, finds none (sql.ErrNoRows), or fails.
pub data Lookup {ℓ} (A : Type ℓ) : Type ℓ where
  found : A → Lookup A
  no_rows failed : Lookup A

module _ {ℓ} {A : Type ℓ} where
  abbrev pub lookup : Bool → Option A → Lookup A
  lookup true o = failed
  lookup false none = no_rows
  lookup false (some a) = found a

-- `GetSettingValue` of handler/shared: "" on any error.
unfoldable pub get_setting_value : Faults → Db → String → String
get_setting_value fails db key =
    if fails (q_get_setting key) then "" else elim (db.settings key) [ none ↦ "" | some v ↦ v ]

abbrev pub is_system : ℤ → System → Bool
is_system raw s = eq_ℤ s.system_id raw

unfoldable pub get_system_by_system_id : Faults → Db → ℤ → Lookup System
unfolding find_first
get_system_by_system_id fails db raw =
    lookup (fails q_get_system) (find_first (is_system raw) db.systems)

-- The row goes to the end; `none` is an error.
unfoldable pub create_system : Faults → Db → ℤ → String → Option (Db × System)
create_system fails db raw label =
    let s : System = record {
      id = db.next_id;
      system_id = raw;
      label = label;
      auto_populate_talkgroups = 1;
      blacklists_json = none;
      led = none;
      order = pos 0;
    } in
    if fails q_create_system
    then none
    else some (record db { systems = db.systems ++ (s ∷ []); next_id = suc db.next_id }, s)

abbrev pub is_talkgroup : ℕ → ℤ → Talkgroup → Bool
is_talkgroup system raw t = (t.system_id == system) && eq_ℤ t.talkgroup_id raw

unfoldable pub get_talkgroup : Faults → Db → ℕ → ℤ → Lookup Talkgroup
unfolding find_first
get_talkgroup fails db system raw =
    lookup (fails q_get_talkgroup) (find_first (is_talkgroup system raw) db.talkgroups)

unfoldable pub create_talkgroup :
    Faults
    → Db
    → ℕ
    → ℤ
    → Option String
    → Option String
    → Option ℕ
    → Option ℕ
    → Option (Db × Talkgroup)
create_talkgroup fails db system raw label name group tag =
    let t : Talkgroup = record {
      id = db.next_id;
      system_id = system;
      talkgroup_id = raw;
      label = label;
      name = name;
      group_id = group;
      tag_id = tag;
      frequency = none;
      led = none;
      order = pos 0;
    } in
    if fails q_create_talkgroup
    then none
    else some (record db { talkgroups = db.talkgroups ++ (t ∷ []); next_id = suc db.next_id }, t)

-- `UPDATE talkgroups SET … WHERE id = ?`; the owning system is not among the columns.
abbrev pub updated : Talkgroup → Talkgroup → Talkgroup
updated t u = if u.id == t.id then record t { system_id = u.system_id } else u

unfoldable pub update_talkgroup : Faults → Db → Talkgroup → Option Db
update_talkgroup fails db t =
    if fails q_update_talkgroup
    then none
    else some (record db { talkgroups = map (updated t) db.talkgroups })

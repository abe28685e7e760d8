-- ===== src/Ingest/UploadV1/Rows.antt =====
-- `PostCallUploadV1`, middle part: the rows of the system and the talkgroup.
use open_scanner.Base.{
  ℕ, Bool, false, not, Option, none, some, String, ◌==◌, if◌then◌else◌, str_eq, ℤ, pos,
}
use open_scanner.Ingest.Tables.{
  System, Talkgroup, Db, Lookup, found, no_rows, failed, get_setting_value, get_system_by_system_id,
  create_system, get_talkgroup, create_talkgroup, update_talkgroup,
}
use open_scanner.Ingest.Duplicate.{is_duplicate}
use open_scanner.Ingest.Upload.{Env, Server, Meta, broadcast_cfg}
use open_scanner.Ingest.Upload.Resolve.{resolve_group_id, resolve_tag_id, needs_backfill, told}
use open_scanner.Ingest.UploadV1.{system_of, call_of, ResponseV1, write_api_error, internal_error}

pub data StepV1 {ℓ} (A : Type ℓ) : Type ℓ where
  halts_v1 : Server → ResponseV1 → StepV1 A
  goes_v1 : Server → A → StepV1 A

abbrev pub made_system_v1 : Env → Server → Option (Db × System) → StepV1 System
made_system_v1 env s none = halts_v1 s (internal_error "internal error")
made_system_v1 env s (some (db, system)) =
    goes_v1 (told env (record s { db = db }) broadcast_cfg) system

abbrev pub found_system_v1 : Env → Server → Meta → Lookup System → StepV1 System
found_system_v1 env s meta (found system) = goes_v1 s system
found_system_v1 env s meta failed = halts_v1 s (internal_error "internal error")
found_system_v1 env s meta no_rows =
    if not (str_eq (get_setting_value env.fails s.db "autoPopulateSystems") "true")
    then halts_v1 s (
        write_api_error 422 "system_not_found"
          "system is not configured and autoPopulateSystems is disabled"
          (some (system_of meta.system_raw)))
    else made_system_v1 env s (
        create_system env.fails s.db meta.system_raw (
          if not (str_eq meta.system_label "")
          then meta.system_label
          else env.format_int meta.system_raw))

unfoldable pub resolve_system_v1 : Env → Server → Meta → StepV1 System
resolve_system_v1 env s meta =
    found_system_v1 env s meta (get_system_by_system_id env.fails s.db meta.system_raw)

-- `if v != "" { … }`: the rows that a label needs, and its id.
abbrev pub labelled_group : Env → Db → String → Db × Option ℕ
labelled_group env db label =
    if not (str_eq label "") then resolve_group_id env.fails db label else (db, none)

abbrev pub labelled_tag : Env → Db → String → Db × Option ℕ
labelled_tag env db label =
    if not (str_eq label "") then resolve_tag_id env.fails db label else (db, none)

abbrev pub valid_text : String → Option String
valid_text v = if not (str_eq v "") then some v else none

abbrev pub made_talkgroup_v1 : Env → Server → Db → Option (Db × Talkgroup) → StepV1 Talkgroup
made_talkgroup_v1 env s db none = halts_v1 (record s { db = db }) (internal_error "internal error")
made_talkgroup_v1 env s db (some (db', t)) =
    goes_v1 (told env (record s { db = db' }) broadcast_cfg) t

unfoldable pub new_talkgroup_v1 : Env → Server → Meta → System → StepV1 Talkgroup
unfolding resolve_group_id resolve_tag_id
new_talkgroup_v1 env s meta system =
    let (db1, group) = labelled_group env s.db meta.talkgroup_group in
    let (db2, tag) = labelled_tag env db1 meta.talkgroup_tag in
    made_talkgroup_v1 env s db2 (
      create_talkgroup env.fails db2 system.id meta.talkgroup_raw (valid_text meta.talkgroup_label)
        (valid_text meta.talkgroup_name) group tag)

-- A label or a name that is not set is taken from the form; a group or a tag likewise.
abbrev pub filled_text : Option String → String → Option String
filled_text (some old) v = some old
filled_text none v = valid_text v

abbrev pub filled_group : Env → Db → Option ℕ → String → Db × Option ℕ
filled_group env db (some old) label = (db, some old)
filled_group env db none label = labelled_group env db label

abbrev pub filled_tag : Env → Db → Option ℕ → String → Db × Option ℕ
filled_tag env db (some old) label = (db, some old)
filled_tag env db none label = labelled_tag env db label

abbrev pub written_v1 : Env → Server → Db → Talkgroup → Option Db → StepV1 Talkgroup
written_v1 env s db t none = goes_v1 (record s { db = db }) t
written_v1 env s db t (some db') = goes_v1 (told env (record s { db = db' }) broadcast_cfg) t

unfoldable pub backfill_v1 : Env → Server → Meta → Talkgroup → StepV1 Talkgroup
unfolding resolve_group_id resolve_tag_id
backfill_v1 env s meta t =
    let (db1, group) = filled_group env s.db t.group_id meta.talkgroup_group in
    let (db2, tag) = filled_tag env db1 t.tag_id meta.talkgroup_tag in
    let filled : Talkgroup = record t {
      label = filled_text t.label meta.talkgroup_label;
      name = filled_text t.name meta.talkgroup_name;
      group_id = group;
      tag_id = tag;
    } in
    written_v1 env s db2 filled (update_talkgroup env.fails db2 filled)

abbrev pub found_talkgroup_v1 : Env → Server → Meta → System → Lookup Talkgroup → StepV1 Talkgroup
found_talkgroup_v1 env s meta system failed = halts_v1 s (internal_error "internal error")
found_talkgroup_v1 env s meta system no_rows =
    if system.auto_populate_talkgroups == 0
    then halts_v1 s (
        write_api_error 422 "talkgroup_not_found" "talkgroup is not configured for this system"
          (some (call_of meta.system_raw meta.talkgroup_raw)))
    else new_talkgroup_v1 env s meta system
found_talkgroup_v1 env s meta system (found t) =
    if needs_backfill t meta then backfill_v1 env s meta t else goes_v1 s t

unfoldable pub resolve_talkgroup_v1 : Env → Server → Meta → System → StepV1 Talkgroup
unfolding needs_backfill backfill_v1 new_talkgroup_v1
resolve_talkgroup_v1 env s meta system =
    found_talkgroup_v1 env s meta system (get_talkgroup env.fails s.db system.id meta.talkgroup_raw)

abbrev pub window_v1 : Env → String → ℤ
window_v1 env v =
    if not (str_eq v "")
    then elim (env.parse_int v) [ none ↦ pos 2000 | some ms ↦ ms ]
    else pos 2000

-- Only a check that works and says so rejects the call.
abbrev pub says_duplicate : Option Bool → Bool
says_duplicate none = false
says_duplicate (some b) = b

unfoldable pub is_rejected_v1 : Env → Db → Meta → System → Talkgroup → Bool
is_rejected_v1 env db meta system t =
    if str_eq (get_setting_value env.fails db "disableDuplicateDetection") "true"
    then false
    else says_duplicate (
        is_duplicate env.fails db system.id t.id meta.date_time
          (window_v1 env (get_setting_value env.fails db "duplicateDetectionTimeFrame")))

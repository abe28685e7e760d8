-- ===== src/Ingest/Upload/Resolve.antt =====
-- `PostCallUpload`, middle part: the rows of the system and the talkgroup, found or made, and the
-- duplicate check; `ResolveGroupID` and `ResolveTagID` of backend/internal/handler/shared/resolve.go.
use open_scanner.Base.{
  ℕ, Bool, false, not, ◌&&◌, ◌||◌, Option, none, some, String, [], ◌∷◌, ◌++◌, ◌==◌, if◌then◌else◌,
  str_eq, ℤ, pos,
}
use open_scanner.Ingest.Tables.{
  System, Talkgroup, LabelRow, Db, Faults, Lookup, found, no_rows, failed, get_setting_value,
  get_system_by_system_id, create_system, get_talkgroup, create_talkgroup, update_talkgroup,
}
use open_scanner.Ingest.Rows.{get_group_by_label, create_group, get_tag_by_label, create_tag}
use open_scanner.Ingest.Duplicate.{is_duplicate}
use open_scanner.Ingest.Sources.{is_some}
use open_scanner.Ingest.Upload.{
  Env, Server, Meta, Step, halts, goes, HubCall, broadcast_cfg, fail_with,
}

abbrev pub created_label : Db → Option (Db × ℕ) → Db × Option ℕ
created_label db none = (db, none)
created_label db (some (db', id)) = (db', some id)

abbrev pub resolved_group : Faults → Db → String → Lookup LabelRow → Db × Option ℕ
resolved_group fails db label (found g) = (db, some g.id)
resolved_group fails db label failed = (db, none)
resolved_group fails db label no_rows = created_label db (create_group fails db label)

unfoldable pub resolve_group_id : Faults → Db → String → Db × Option ℕ
resolve_group_id fails db label = resolved_group fails db label (get_group_by_label fails db label)

abbrev pub resolved_tag : Faults → Db → String → Lookup LabelRow → Db × Option ℕ
resolved_tag fails db label (found t) = (db, some t.id)
resolved_tag fails db label failed = (db, none)
resolved_tag fails db label no_rows = created_label db (create_tag fails db label)

unfoldable pub resolve_tag_id : Faults → Db → String → Db × Option ℕ
resolve_tag_id fails db label = resolved_tag fails db label (get_tag_by_label fails db label)

-- `h.hub.BroadcastCFG(ctx)`, which does nothing without a hub.
abbrev pub told : Env → Server → HubCall → Server
told env s call = if env.has_hub then record s { hub = s.hub ++ (call ∷ []) } else s

abbrev pub made_system : Env → Server → Option (Db × System) → Step System
made_system env s none = halts s (fail_with 500 "internal error")
made_system env s (some (db, system)) = goes (told env (record s { db = db }) broadcast_cfg) system

abbrev pub found_system : Env → Server → Meta → Lookup System → Step System
found_system env s meta (found system) = goes s system
found_system env s meta failed = halts s (fail_with 500 "internal error")
found_system env s meta no_rows =
    if str_eq (get_setting_value env.fails s.db "autoPopulateSystems") "true"
    then made_system env s (
        create_system env.fails s.db meta.system_raw (
          if str_eq meta.system_label ""
          then env.format_int meta.system_raw
          else meta.system_label))
    else halts s (fail_with 400 "system not found")

unfoldable pub resolve_system : Env → Server → Meta → Step System
resolve_system env s meta =
    found_system env s meta (get_system_by_system_id env.fails s.db meta.system_raw)

-- A label of the upload, "" meaning none; only a label that is there is looked up or made.
abbrev pub given : String → Option String
given label = if str_eq label "" then none else some label

abbrev pub group_of : Faults → Db → Option String → Db × Option ℕ
group_of fails db none = (db, none)
group_of fails db (some label) = resolve_group_id fails db label

abbrev pub tag_of_label : Faults → Db → Option String → Db × Option ℕ
tag_of_label fails db none = (db, none)
tag_of_label fails db (some label) = resolve_tag_id fails db label

-- A field that is set stays; an empty one takes what the upload gives.
abbrev pub keep_or {ℓ} : {A : Type ℓ} → Option A → Option A → Option A
keep_or (some a) given = some a
keep_or none given = given

unfoldable pub needs_backfill : Talkgroup → Meta → Bool
needs_backfill t meta =
    (not (is_some t.label) && not (str_eq meta.talkgroup_label ""))
    || (not (is_some t.name) && not (str_eq meta.talkgroup_name ""))
    || (not (is_some t.tag_id) && not (str_eq meta.talkgroup_tag ""))
    || (not (is_some t.group_id) && not (str_eq meta.talkgroup_group ""))

abbrev pub missing_group : Option ℕ → String → Option String
missing_group none label = given label
missing_group (some id) label = none

abbrev pub written : Env → Server → Db → Talkgroup → Option Db → Step Talkgroup
written env s db t none = goes (record s { db = db }) t
written env s db t (some db') = goes (told env (record s { db = db' }) broadcast_cfg) t

-- The row with its empty fields filled. If the write fails, the handler goes on with the filled row.
unfoldable pub backfill : Env → Server → Meta → Talkgroup → Step Talkgroup
unfolding resolve_group_id resolve_tag_id
backfill env s meta t =
    let (db1, group) = group_of env.fails s.db (missing_group t.group_id meta.talkgroup_group) in
    let (db2, tag) = tag_of_label env.fails db1 (missing_group t.tag_id meta.talkgroup_tag) in
    let filled : Talkgroup = record t {
      label = keep_or t.label (given meta.talkgroup_label);
      name = keep_or t.name (given meta.talkgroup_name);
      group_id = keep_or t.group_id group;
      tag_id = keep_or t.tag_id tag;
    } in
    written env s db2 filled (update_talkgroup env.fails db2 filled)

abbrev pub made_talkgroup : Env → Server → Db → Option (Db × Talkgroup) → Step Talkgroup
made_talkgroup env s db none = halts (record s { db = db }) (fail_with 500 "internal error")
made_talkgroup env s db (some (db', t)) = goes (told env (record s { db = db' }) broadcast_cfg) t

unfoldable pub new_talkgroup : Env → Server → Meta → System → Step Talkgroup
unfolding resolve_group_id resolve_tag_id
new_talkgroup env s meta system =
    let (db1, group) = group_of env.fails s.db (given meta.talkgroup_group) in
    let (db2, tag) = tag_of_label env.fails db1 (given meta.talkgroup_tag) in
    made_talkgroup env s db2 (
      create_talkgroup env.fails db2 system.id meta.talkgroup_raw (given meta.talkgroup_label)
        (given meta.talkgroup_name) group tag)

abbrev pub found_talkgroup : Env → Server → Meta → System → Lookup Talkgroup → Step Talkgroup
found_talkgroup env s meta system (found t) =
    if needs_backfill t meta then backfill env s meta t else goes s t
found_talkgroup env s meta system failed = halts s (fail_with 500 "internal error")
found_talkgroup env s meta system no_rows =
    if system.auto_populate_talkgroups == 0
    then halts s (fail_with 400 "talkgroup not found")
    else new_talkgroup env s meta system

unfoldable pub resolve_talkgroup : Env → Server → Meta → System → Step Talkgroup
unfolding needs_backfill backfill new_talkgroup
resolve_talkgroup env s meta system =
    found_talkgroup env s meta system (get_talkgroup env.fails s.db system.id meta.talkgroup_raw)

-- The window in milliseconds: 2000, or the setting if it is a number.
abbrev pub window_ms_of : Env → String → ℤ
window_ms_of env setting =
    if str_eq setting ""
    then pos 2000
    else elim (env.parse_int setting) [ none ↦ pos 2000 | some n ↦ n ]

-- An error of the check is logged and the upload goes on.
abbrev pub is_known_duplicate : Option Bool → Bool
is_known_duplicate none = false
is_known_duplicate (some b) = b

unfoldable pub is_rejected_duplicate : Env → Db → Meta → System → Talkgroup → Bool
is_rejected_duplicate env db meta system t =
    not (str_eq (get_setting_value env.fails db "disableDuplicateDetection") "true")
    && is_known_duplicate (
        is_duplicate env.fails db system.id t.id meta.date_time
          (window_ms_of env (get_setting_value env.fails db "duplicateDetectionTimeFrame")))

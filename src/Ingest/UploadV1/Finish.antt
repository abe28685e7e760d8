-- ===== src/Ingest/UploadV1/Finish.antt =====
-- `PostCallUploadV1`, last part, the whole handler, and `PostCallsTestV1`.
use open_scanner.Base.{
  ℕ, not, ◌&&◌, Option, none, some, String, List, [], ◌∷◌, ◌++◌, ltb_ℤ, if◌then◌else◌, str_eq, any,
  ℤ, pos, eq_ℤ,
}
use open_scanner.Ingest.Tables.{
  System, Talkgroup, LabelRow, Call, Db, Lookup, found, no_rows, failed, get_setting_value,
}
use open_scanner.Ingest.Rows.{create_call, get_group, get_tag, upsert_unit}
use open_scanner.Ingest.Limiter.{allow_key}
use open_scanner.Ingest.Presets.{parse_encoding_preset, output_mime}
use open_scanner.Ingest.Sources.{is_blacklisted_tg, upsert_units_from_sources}
use open_scanner.Ingest.Upload.{Env, Form, Server, Meta, CalPayload, CallEvent, broadcast_cal}
use open_scanner.Ingest.Upload.Resolve.{told}
use open_scanner.Ingest.UploadV1.{
  retry_after, call_of, ResponseV1, write_api_error, internal_error, status_text, imported_v1,
  no_content,
}
use open_scanner.Ingest.UploadV1.Parse.{
  ParsedV1, refused_v1, parsed_v1, parse_form_v1, rate_limit_v1,
}
use open_scanner.Ingest.UploadV1.Rows.{
  StepV1, halts_v1, goes_v1, resolve_system_v1, resolve_talkgroup_v1, is_rejected_v1,
}

abbrev pub mode_v1 : Env → String → ℤ
mode_v1 env v =
    if not (str_eq v "") then elim (env.parse_int v) [ none ↦ pos 0 | some m ↦ m ] else pos 0

abbrev pub client_types : List String
client_types =
    "audio/mpeg" ∷ "audio/mp3" ∷ "audio/wav" ∷ "audio/x-wav" ∷ "audio/ogg" ∷ "audio/aac"
    ∷ "audio/m4a" ∷ "audio/mp4" ∷ "audio/x-m4a" ∷ "audio/opus" ∷ []

unfoldable pub audio_type_v1 : ℤ → String → String → String
unfolding output_mime
audio_type_v1 mode preset content_type =
    if eq_ℤ mode (pos 0)
    then if any (λ t. str_eq t content_type) client_types
      then content_type
      else "application/octet-stream"
    else output_mime preset

abbrev pub probed : Env → Option ℤ → String → Option ℤ
probed env (some d) path = some d
probed env none path =
    if ltb_ℤ (pos 0) (env.probe (env.absolute path))
    then some (env.probe (env.absolute path))
    else none

abbrev pub call_row_v1 : Env → Meta → System → Talkgroup → String → String → Call
call_row_v1 env meta system t path audio_type = record {
  id = 0;
  audio_path = path;
  audio_name = env.base_name path;
  audio_type = audio_type;
  date_time = meta.date_time;
  frequency = meta.frequency;
  duration = probed env meta.duration path;
  source = meta.source;
  sources_json = meta.sources;
  frequencies_json = meta.frequencies;
  patches_json = meta.patches;
  system_id = system.id;
  talkgroup_id = t.id;
  site = meta.site;
  channel = meta.channel;
  decoder = meta.decoder;
  error_count = meta.error_count;
  spike_count = meta.spike_count;
  talker_alias = meta.talker_alias;
}

abbrev pub payload_v1 : Call → ℕ → System → Talkgroup → CalPayload
payload_v1 c id system t = record {
  id = id;
  audio_name = c.audio_name;
  audio_type = c.audio_type;
  date_time = c.date_time;
  system_id = system.system_id;
  system = system.id;
  talkgroup_id = t.talkgroup_id;
  talkgroup = t.id;
  frequency = c.frequency;
  duration = c.duration;
  source = c.source;
  site = c.site;
  channel = c.channel;
  decoder = c.decoder;
  error_count = c.error_count;
  spike_count = c.spike_count;
  talker_alias = c.talker_alias;
  sources = c.sources_json;
  frequencies = c.frequencies_json;
}

abbrev pub label_if_found : Lookup LabelRow → String
label_if_found (found row) = row.label
label_if_found no_rows = ""
label_if_found failed = ""

abbrev pub group_label_v1 : Env → Db → Option ℕ → String
group_label_v1 env db none = ""
group_label_v1 env db (some id) = label_if_found (get_group env.fails db id)

abbrev pub tag_label_v1 : Env → Db → Option ℕ → String
tag_label_v1 env db none = ""
tag_label_v1 env db (some id) = label_if_found (get_tag env.fails db id)

-- The fields of invalid values are the zero values.
abbrev pub int64_of : Option ℤ → ℤ
int64_of none = pos 0
int64_of (some n) = n

abbrev pub string_of : Option String → String
string_of none = ""
string_of (some s) = s

abbrev pub event_v1 : Env → Db → Call → ℕ → System → Talkgroup → CallEvent
event_v1 env db c id system t = record {
  call_id = id;
  audio_path = c.audio_path;
  audio_name = c.audio_name;
  audio_type = c.audio_type;
  date_time = c.date_time;
  system_id = system.system_id;
  system = system.id;
  talkgroup_id = t.talkgroup_id;
  talkgroup = t.id;
  frequency = int64_of c.frequency;
  duration = int64_of c.duration;
  source = int64_of c.source;
  sources = string_of c.sources_json;
  frequencies = string_of c.frequencies_json;
  patches = string_of c.patches_json;
  system_label = system.label;
  talkgroup_label = string_of t.label;
  talkgroup_name = string_of t.name;
  talkgroup_group = group_label_v1 env db t.group_id;
  talkgroup_tag = tag_label_v1 env db t.tag_id;
  talker_alias = string_of c.talker_alias;
}

abbrev pub source_units : Env → Db → ℕ → Option String → Db
source_units env db system none = db
source_units env db system (some raw) = upsert_units_from_sources env.fails env.json db system raw

abbrev pub alias_unit : Env → Db → ℕ → Option ℤ → Option String → Db
alias_unit env db system (some source) (some alias) =
    upsert_unit env.fails db (record { system_id = system; unit_id = source; label = alias })
alias_unit env db system _ _ = db

-- Behind `CreateCall`.
abbrev pub announce_v1 :
    Env → Server → Call → System → Talkgroup → Option (Db × ℕ) → Server × ResponseV1
announce_v1 env s c system t none = (s, internal_error "internal error")
announce_v1 env s c system t (some (db, id)) =
    let db' =
      alias_unit env (source_units env db system.id c.sources_json) system.id c.source
        c.talker_alias in
    let live =
      told env (record s { db = db' }) (broadcast_cal (payload_v1 c id system t) system.id t.id) in
    (
      record live {
        downstream =
            if env.has_downstream
            then live.downstream ++ (event_v1 env db' c id system t ∷ [])
            else live.downstream;
        jobs =
            if env.has_transcriber && env.takes_job
            then live.jobs ++ ((id, env.absolute c.audio_path) ∷ [])
            else live.jobs;
      },
      record { status = 200; body = imported_v1 id },
    )

abbrev pub stored_v1 :
    Env
    → Server
    → Meta
    → System
    → Talkgroup
    → ℤ
    → String
    → String
    → Option String
    → Server × ResponseV1
stored_v1 env s meta system t mode preset content_type none =
    (s, internal_error "failed to store audio")
stored_v1 env s meta system t mode preset content_type (some path) =
    let c = call_row_v1 env meta system t path (audio_type_v1 mode preset content_type) in
    announce_v1 env (record s { recordings = s.recordings ++ (path ∷ []) }) c system t
      (create_call env.fails s.db c)

abbrev pub audio_stored_v1 : Env → Server → Meta → System → Talkgroup → String → Server × ResponseV1
audio_stored_v1 env s meta system t content_type =
    let mode = mode_v1 env (get_setting_value env.fails s.db "audioConversion") in
    let preset = parse_encoding_preset (get_setting_value env.fails s.db "audioEncodingPreset") in
    stored_v1 env s meta system t mode preset content_type (env.store_audio mode preset)

abbrev pub with_talkgroup_v1 : Env → Meta → String → System → StepV1 Talkgroup → Server × ResponseV1
with_talkgroup_v1 env meta content_type system (halts_v1 s r) = (s, r)
with_talkgroup_v1 env meta content_type system (goes_v1 s t) =
    if is_rejected_v1 env s.db meta system t
    then (
      s,
      write_api_error 409 "duplicate_call"
          "a call with the same system, talkgroup, and startedAt already exists"
          (some (call_of meta.system_raw meta.talkgroup_raw)),
    )
    else audio_stored_v1 env s meta system t content_type

abbrev pub with_system_v1 : Env → Meta → String → StepV1 System → Server × ResponseV1
with_system_v1 env meta content_type (halts_v1 s r) = (s, r)
with_system_v1 env meta content_type (goes_v1 s system) =
    if is_blacklisted_tg env.json system.blacklists_json meta.talkgroup_raw
    then (s, record { status = 200; body = status_text "blacklisted" })
    else with_talkgroup_v1 env meta content_type system (resolve_talkgroup_v1 env s meta system)

-- The handler behind the checks of the form.
unfoldable pub ingest_v1 : Env → Server → Meta → String → Server × ResponseV1
unfolding audio_type_v1
ingest_v1 env s meta content_type =
    with_system_v1 env meta content_type (resolve_system_v1 env s meta)

abbrev pub with_form_v1 : Env → Server → ParsedV1 → Server × ResponseV1
with_form_v1 env s (refused_v1 r) = (s, r)
with_form_v1 env s (parsed_v1 meta content_type) = ingest_v1 env s meta content_type

abbrev pub with_key_v1 : Env → Server → Form → Option ℕ → Server × ResponseV1
with_key_v1 env s form none = (s, write_api_error 401 "invalid_credentials" "API key required" none)
with_key_v1 env s form (some key) =
    let (limiters, ok) = allow_key s.limiters key (rate_limit_v1 env s.db form) env.now in
    let s' = record s { limiters = limiters } in
    if not ok
    then (s', write_api_error 429 "rate_limited" "rate limit exceeded" (some (retry_after 60)))
    else with_form_v1 env s' (parse_form_v1 env form)

unfoldable pub post_call_upload_v1 : Env → Server → Form → Server × ResponseV1
post_call_upload_v1 env s form = with_key_v1 env s form form.api_key_id

-- `PostCallsTestV1`, on the id of the API key in the context.
unfoldable pub post_calls_test_v1 : Form → ResponseV1
post_calls_test_v1 form = elim form.api_key_id [
  | none ↦ write_api_error 401 "invalid_credentials" "API key required" none
  | some key ↦ record { status = 204; body = no_content }
]

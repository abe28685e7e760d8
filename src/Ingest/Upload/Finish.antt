-- ===== src/Ingest/Upload/Finish.antt =====
-- `PostCallUpload`, last part: the audio file, the row, and who is told; and the whole handler.
use open_scanner.Base.{
  ℕ, not, ◌&&◌, Option, none, some, String, List, [], ◌∷◌, ◌++◌, ltb_ℤ, if◌then◌else◌, str_eq, any,
  ℤ, pos, eq_ℤ,
}
use open_scanner.Ingest.Tables.{
  System, Talkgroup, LabelRow, Call, Db, Lookup, found, no_rows, failed, get_setting_value,
}
use open_scanner.Ingest.Rows.{create_call, get_group, get_tag, upsert_unit}
use open_scanner.Ingest.Limiter.{allow_key}
use open_scanner.Ingest.Presets.{parse_encoding_preset, output_mime}
use open_scanner.Ingest.Sources.{is_blacklisted_tg, upsert_units_from_sources}
use open_scanner.Ingest.Upload.{
  Env, Form, Server, Response, Meta, Step, halts, goes, CalPayload, CallEvent, broadcast_cal,
  message, imported, fail_with,
}
use open_scanner.Ingest.Upload.Parse.{Parsed, refused, parsed, parse_form, rate_limit_of, or_else}
use open_scanner.Ingest.Upload.Resolve.{
  told, resolve_system, resolve_talkgroup, is_rejected_duplicate,
}

-- `ConversionDisabled` is 0, also for a setting that is no number.
abbrev pub conversion_mode : Env → String → ℤ
conversion_mode env setting =
    if str_eq setting "" then pos 0 else or_else (env.parse_int setting) (pos 0)

abbrev pub allowed_types : List String
allowed_types =
    "audio/mpeg" ∷ "audio/mp3" ∷ "audio/wav" ∷ "audio/x-wav" ∷ "audio/ogg" ∷ "audio/aac"
    ∷ "audio/m4a" ∷ "audio/mp4" ∷ "audio/x-m4a" ∷ "audio/opus" ∷ []

unfoldable pub audio_type_of : ℤ → String → String → String
unfolding output_mime
audio_type_of mode preset content_type =
    if not (eq_ℤ mode (pos 0))
    then output_mime preset
    else if any (λ t. str_eq t content_type) allowed_types
    then content_type
    else "application/octet-stream"

-- A duration of the form, else the probed one if it is above 0.
abbrev pub duration_of : Env → Meta → String → Option ℤ
duration_of env meta path = elim meta.duration [
  | some d ↦ some d
  | none ↦
      if ltb_ℤ (pos 0) (env.probe (env.absolute path))
      then some (env.probe (env.absolute path))
      else none
]

-- The row; its id is chosen by the table.
abbrev pub call_row : Env → Meta → System → Talkgroup → String → String → Call
call_row env meta system t path audio_type = record {
  id = 0;
  audio_path = path;
  audio_name = env.base_name path;
  audio_type = audio_type;
  date_time = meta.date_time;
  frequency = meta.frequency;
  duration = duration_of env meta path;
  source = meta.source;
  sources_json = meta.sources;
  frequencies_json = meta.frequencies;
  patches_json = meta.patches;
  system_id = system.id;
  talkgroup_id = t.id;
  site = meta.site;
  channel = meta.channel;
  decoder = meta.decoder;
  error_count = meta.error_count;
  spike_count = meta.spike_count;
  talker_alias = meta.talker_alias;
}

abbrev pub cal_payload : Call → ℕ → System → Talkgroup → CalPayload
cal_payload c id system t = record {
  id = id;
  audio_name = c.audio_name;
  audio_type = c.audio_type;
  date_time = c.date_time;
  system_id = system.system_id;
  system = system.id;
  talkgroup_id = t.talkgroup_id;
  talkgroup = t.id;
  frequency = c.frequency;
  duration = c.duration;
  source = c.source;
  site = c.site;
  channel = c.channel;
  decoder = c.decoder;
  error_count = c.error_count;
  spike_count = c.spike_count;
  talker_alias = c.talker_alias;
  sources = c.sources_json;
  frequencies = c.frequencies_json;
}

abbrev pub label_of : Lookup LabelRow → String
label_of (found row) = row.label
label_of no_rows = ""
label_of failed = ""

abbrev pub group_label : Env → Db → Option ℕ → String
group_label env db none = ""
group_label env db (some id) = label_of (get_group env.fails db id)

abbrev pub tag_label : Env → Db → Option ℕ → String
tag_label env db none = ""
tag_label env db (some id) = label_of (get_tag env.fails db id)

abbrev pub call_event : Env → Db → Call → ℕ → System → Talkgroup → CallEvent
call_event env db c id system t = record {
  call_id = id;
  audio_path = c.audio_path;
  audio_name = c.audio_name;
  audio_type = c.audio_type;
  date_time = c.date_time;
  system_id = system.system_id;
  system = system.id;
  talkgroup_id = t.talkgroup_id;
  talkgroup = t.id;
  frequency = or_else c.frequency (pos 0);
  duration = or_else c.duration (pos 0);
  source = or_else c.source (pos 0);
  sources = or_else c.sources_json "";
  frequencies = or_else c.frequencies_json "";
  patches = or_else c.patches_json "";
  system_label = system.label;
  talkgroup_label = or_else t.label "";
  talkgroup_name = or_else t.name "";
  talkgroup_group = group_label env db t.group_id;
  talkgroup_tag = tag_label env db t.tag_id;
  talker_alias = or_else c.talker_alias "";
}

-- The units named in the sources, and the talker alias as a label of the source.
abbrev pub units_of_sources : Env → Db → ℕ → Option String → Db
units_of_sources env db system none = db
units_of_sources env db system (some raw) =
    upsert_units_from_sources env.fails env.json db system raw

abbrev pub unit_of_alias : Env → Db → ℕ → Option ℤ → Option String → Db
unit_of_alias env db system (some source) (some alias) =
    upsert_unit env.fails db (record { system_id = system; unit_id = source; label = alias })
unit_of_alias env db system _ _ = db

unfoldable pub upsert_units : Env → Db → ℕ → Call → Db
upsert_units env db system c =
    unit_of_alias env (units_of_sources env db system c.sources_json) system c.source c.talker_alias

-- Behind `CreateCall`. Encoding the payload cannot fail, since it holds only texts and numbers.
abbrev pub announce : Env → Server → Call → System → Talkgroup → Option (Db × ℕ) → Server × Response
announce env s c system t none = (s, fail_with 500 "internal error")
announce env s c system t (some (db, id)) =
    let db' = upsert_units env db system.id c in
    let live =
      told env (record s { db = db' }) (broadcast_cal (cal_payload c id system t) system.id t.id) in
    (
      record live {
        downstream =
            if env.has_downstream
            then live.downstream ++ (call_event env db' c id system t ∷ [])
            else live.downstream;
        jobs =
            if env.has_transcriber && env.takes_job
            then live.jobs ++ ((id, env.absolute c.audio_path) ∷ [])
            else live.jobs;
      },
      record { status = 200; body = imported id },
    )

abbrev pub store_call :
    Env
    → Server
    → Meta
    → System
    → Talkgroup
    → ℤ
    → String
    → String
    → Option String
    → Server × Response
store_call env s meta system t mode preset content_type none =
    (s, fail_with 500 "failed to store audio")
store_call env s meta system t mode preset content_type (some path) =
    let c = call_row env meta system t path (audio_type_of mode preset content_type) in
    announce env (record s { recordings = s.recordings ++ (path ∷ []) }) c system t
      (create_call env.fails s.db c)

-- The audio file was there when the form was checked.
abbrev pub store_audio_of :
    Env → Server → Meta → System → Talkgroup → Option String → Server × Response
store_audio_of env s meta system t none = (s, fail_with 400 "audio file is required")
store_audio_of env s meta system t (some content_type) =
    let mode = conversion_mode env (get_setting_value env.fails s.db "audioConversion") in
    let preset = parse_encoding_preset (get_setting_value env.fails s.db "audioEncodingPreset") in
    store_call env s meta system t mode preset content_type (env.store_audio mode preset)

abbrev pub with_talkgroup : Env → Form → Meta → System → Step Talkgroup → Server × Response
with_talkgroup env form meta system (halts s r) = (s, r)
with_talkgroup env form meta system (goes s t) =
    if is_rejected_duplicate env s.db meta system t
    then (s, record { status = 200; body = message "duplicate call rejected" })
    else store_audio_of env s meta system t form.audio

abbrev pub with_system : Env → Form → Meta → Step System → Server × Response
with_system env form meta (halts s r) = (s, r)
with_system env form meta (goes s system) =
    if is_blacklisted_tg env.json system.blacklists_json meta.talkgroup_raw
    then (s, record { status = 200; body = message "blacklisted" })
    else with_talkgroup env form meta system (resolve_talkgroup env s meta system)

-- The handler behind the checks of the form.
unfoldable pub ingest : Env → Server → Form → Meta → Server × Response
unfolding audio_type_of upsert_units
ingest env s form meta = with_system env form meta (resolve_system env s meta)

abbrev pub with_form : Env → Server → Form → Parsed → Server × Response
with_form env s form (refused r) = (s, r)
with_form env s form (parsed meta) = ingest env s form meta

abbrev pub with_key : Env → Server → Form → Option ℕ → Server × Response
with_key env s form none = (s, fail_with 401 "API key required")
with_key env s form (some key) =
    let (limiters, ok) = allow_key s.limiters key (rate_limit_of env s.db form) env.now in
    let s' = record s { limiters = limiters } in
    if ok
    then with_form env s' form (parse_form env form)
    else (s', fail_with 429 "rate limit exceeded")

unfoldable pub post_call_upload : Env → Server → Form → Server × Response
post_call_upload env s form = with_key env s form form.api_key_id

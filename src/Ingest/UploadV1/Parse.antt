-- ===== src/Ingest/UploadV1/Parse.antt =====
-- `PostCallUploadV1`, first part: the rate of the key and the native fields of the form.
use open_scanner.Base.{ℕ, Option, none, some, String, ltb, if◌then◌else◌, str_eq, ℤ, pos, negsuc}
use open_scanner.Ingest.Tables.{Db, get_setting_value}
use open_scanner.Ingest.Limiter.{default_call_rate_per_min, max_call_rate_per_min}
use open_scanner.Ingest.Sources.{
  extract_primary_source, extract_primary_source_tag, aggregate_error_spike_counts,
}
use open_scanner.Ingest.Upload.{Env, Form, Meta}
use open_scanner.Ingest.UploadV1.{field_name, got, ResponseV1, write_api_error}

-- The key's rate overrides the setting's.
abbrev pub key_rate_v1 : ℕ → Option ℤ → ℕ
key_rate_v1 rate none = rate
key_rate_v1 rate (some (negsuc n)) = rate
key_rate_v1 rate (some (pos n)) = if ltb 0 n then n else rate

unfoldable pub rate_limit_v1 : Env → Db → Form → ℕ
unfolding get_setting_value
rate_limit_v1 env db form =
    let setting = get_setting_value env.fails db "apiKeyCallRate" in
    let set_rate =
      if str_eq setting ""
      then default_call_rate_per_min
      else key_rate_v1 default_call_rate_per_min (env.parse_int setting) in
    let rate = key_rate_v1 set_rate form.api_key_rate in
    if ltb max_call_rate_per_min rate then max_call_rate_per_min else rate

abbrev pub bad_field : String → String → ResponseV1
bad_field key what = write_api_error 400 "validation_failed" what (some (field_name key))

abbrev pub bad_time : String → ResponseV1
bad_time started_at =
    write_api_error 400 "validation_failed" "startedAt must be an RFC 3339 timestamp"
      (some (got "startedAt" started_at))

-- What the form gives: an answer, or the metadata and the content type of the audio file.
pub data ParsedV1 : Type 0 where
  refused_v1 : ResponseV1 → ParsedV1
  parsed_v1 : Meta → String → ParsedV1

abbrev pub number_v1 : Env → String → Option ℤ
number_v1 env v = if str_eq v "" then none else env.parse_int v

abbrev pub text_v1 : String → Option String
text_v1 v = if str_eq v "" then none else some v

-- A value that was not given, from the JSON text if there is one.
abbrev pub from_json {ℓ} : {A : Type ℓ} → (String → Option A) → Option A → Option String → Option A
from_json extract (some a) raw = some a
from_json extract none none = none
from_json extract none (some raw) = extract raw

abbrev pub counts_v1 : Env → Option ℤ → Option ℤ → Option String → Option ℤ × Option ℤ
counts_v1 env (some errors) spikes raw = (some errors, spikes)
counts_v1 env none (some spikes) raw = (none, some spikes)
counts_v1 env none none none = (none, none)
counts_v1 env none none (some raw) = aggregate_error_spike_counts env.json raw

unfoldable pub meta_v1 : Env → Form → ℤ → ℤ → ℤ → Meta
unfolding extract_primary_source extract_primary_source_tag aggregate_error_spike_counts
meta_v1 env form t system talkgroup =
    let sources = text_v1 (form.field "sources") in
    let frequencies = text_v1 (form.field "frequencies") in
    let (errors, spikes) =
      counts_v1 env (number_v1 env (form.field "errorCount"))
        (number_v1 env (form.field "spikeCount")) frequencies in
    record {
      date_time = t;
      system_raw = system;
      talkgroup_raw = talkgroup;
      frequency = number_v1 env (form.field "frequencyHz");
      duration = number_v1 env (form.field "durationMs");
      source =
          from_json (extract_primary_source env.json) (number_v1 env (form.field "unitId")) sources;
      error_count = errors;
      spike_count = spikes;
      sources = sources;
      frequencies = frequencies;
      patches = text_v1 (form.field "patches");
      site = text_v1 (form.field "site");
      channel = text_v1 (form.field "channel");
      decoder = text_v1 (form.field "decoder");
      talkgroup_label = form.field "talkgroupLabel";
      talkgroup_tag = form.field "talkgroupTag";
      talkgroup_group = form.field "talkgroupGroup";
      talkgroup_name = form.field "talkgroupName";
      system_label = form.field "systemLabel";
      talker_alias =
          from_json (extract_primary_source_tag env.json) (text_v1 (form.field "talkerAlias"))
            sources;
    }

abbrev pub audio_v1 : Env → Form → ℤ → ℤ → ℤ → Option String → ParsedV1
audio_v1 env form t system talkgroup none = refused_v1 (bad_field "audio" "audio file is required")
audio_v1 env form t system talkgroup (some content_type) =
    parsed_v1 (meta_v1 env form t system talkgroup) content_type

abbrev pub talkgroup_v1 : Env → Form → ℤ → ℤ → Option ℤ → ParsedV1
talkgroup_v1 env form t system none =
    refused_v1 (bad_field "talkgroupId" "talkgroupId must be an integer")
talkgroup_v1 env form t system (some talkgroup) = audio_v1 env form t system talkgroup form.audio

abbrev pub system_v1 : Env → Form → ℤ → Option ℤ → ParsedV1
system_v1 env form t none = refused_v1 (bad_field "systemId" "systemId must be an integer")
system_v1 env form t (some system) =
    if str_eq (form.field "talkgroupId") ""
    then refused_v1 (bad_field "talkgroupId" "talkgroupId is required")
    else talkgroup_v1 env form t system (env.parse_int (form.field "talkgroupId"))

abbrev pub timed_v1 : Env → Form → Option ℤ → ParsedV1
timed_v1 env form none = refused_v1 (bad_time (form.field "startedAt"))
timed_v1 env form (some t) =
    if str_eq (form.field "systemId") ""
    then refused_v1 (bad_field "systemId" "systemId is required")
    else system_v1 env form t (env.parse_int (form.field "systemId"))

abbrev pub rfc3339 : Env → String → Option ℤ
rfc3339 env s = elim (env.parse_nano s) [ some t ↦ some t | none ↦ env.parse_rfc3339 s ]

-- A text that is a whole number is a unix timestamp, which is refused.
abbrev pub started_v1 : Env → Form → Option ℤ → ParsedV1
started_v1 env form (some unix) = refused_v1 (bad_time (form.field "startedAt"))
started_v1 env form none = timed_v1 env form (rfc3339 env (form.field "startedAt"))

unfoldable pub parse_form_v1 : Env → Form → ParsedV1
unfolding meta_v1
parse_form_v1 env form =
    if str_eq (form.field "startedAt") ""
    then refused_v1 (bad_field "startedAt" "startedAt is required")
    else started_v1 env form (env.parse_int (form.field "startedAt"))

-- ===== src/Ingest/Upload/Parse.antt =====
-- `PostCallUpload`, first part: the rate of the key and the fields of the form.
use open_scanner.Base.{
  ℕ, Option, none, some, String, ltb, if◌then◌else◌, str_eq, concat, ℤ, pos, negsuc,
}
use open_scanner.Ingest.Tables.{Db, get_setting_value}
use open_scanner.Ingest.Limiter.{default_call_rate_per_min, max_call_rate_per_min}
use open_scanner.Ingest.Sources.{
  extract_primary_source, extract_primary_source_tag, aggregate_error_spike_counts, is_some,
}
use open_scanner.Ingest.Upload.{Env, Form, Response, Meta, text, fail_with}

-- A number above 0.
abbrev pub above_zero : Option ℤ → Option ℕ
above_zero none = none
above_zero (some (negsuc n)) = none
above_zero (some (pos n)) = if ltb 0 n then some n else none

abbrev pub or_else {ℓ} : {A : Type ℓ} → Option A → A → A
or_else none a = a
or_else (some b) a = b

-- The key's own rate, else the setting's, else 60; 600 at most.
unfoldable pub rate_limit_of : Env → Db → Form → ℕ
unfolding get_setting_value
rate_limit_of env db form =
    let setting = get_setting_value env.fails db "apiKeyCallRate" in
    let set_rate = if str_eq setting "" then none else above_zero (env.parse_int setting) in
    let rate =
      or_else (above_zero form.api_key_rate) (or_else set_rate default_call_rate_per_min) in
    if ltb max_call_rate_per_min rate then max_call_rate_per_min else rate

-- A field under its own name, else under the one of Trunk Recorder.
abbrev pub system_field : Form → String
system_field form =
    if str_eq (form.field "systemId") "" then form.field "system" else form.field "systemId"

abbrev pub talkgroup_field : Form → String
talkgroup_field form =
    if str_eq (form.field "talkgroupId") ""
    then form.field "talkgroup"
    else form.field "talkgroupId"

-- The last check that fails gives the reason.
unfoldable pub incomplete_reason : Form → Option String
incomplete_reason form =
    if str_eq (talkgroup_field form) ""
    then some "no talkgroup"
    else if str_eq (system_field form) ""
    then some "no system"
    else if str_eq (form.field "dateTime") ""
    then some "no datetime"
    else if is_some form.audio
    then none
    else some "no audio"

abbrev pub parse_date_time : Env → String → Option ℤ
parse_date_time env s = elim (env.parse_int s) [
  | some n ↦ some n
  | none ↦ elim (env.parse_nano s) [ some n ↦ some n | none ↦ env.parse_rfc3339 s ]
]

-- An optional number: an empty or a bad field is no number.
abbrev number_field : Env → Form → String → Option ℤ
number_field env form key =
    if str_eq (form.field key) "" then none else env.parse_int (form.field key)

abbrev text_field : Form → String → Option String
text_field form key = if str_eq (form.field key) "" then none else some (form.field key)

-- An explicit value, else what the JSON array has.
abbrev pub or_extracted {ℓ} :
    {A : Type ℓ} → Option A → (String → Option A) → Option String → Option A
or_extracted (some a) extract raw = some a
or_extracted none extract none = none
or_extracted none extract (some raw) = extract raw

abbrev pub counts_of : Env → Option ℤ → Option ℤ → Option String → Option ℤ × Option ℤ
counts_of env none none (some raw) = aggregate_error_spike_counts env.json raw
counts_of env errors spikes _ = (errors, spikes)

unfoldable pub meta_of : Env → Form → ℤ → ℤ → ℤ → Meta
unfolding extract_primary_source extract_primary_source_tag aggregate_error_spike_counts
meta_of env form t system talkgroup =
    let sources = text_field form "sources" in
    let frequencies = text_field form "frequencies" in
    let (errors, spikes) =
      counts_of env (number_field env form "errorCount") (number_field env form "spikeCount")
        frequencies in
    record {
      date_time = t;
      system_raw = system;
      talkgroup_raw = talkgroup;
      frequency = number_field env form "frequency";
      duration = number_field env form "duration";
      source =
          or_extracted (number_field env form "source") (extract_primary_source env.json) sources;
      error_count = errors;
      spike_count = spikes;
      sources = sources;
      frequencies = frequencies;
      patches = text_field form "patches";
      site = text_field form "site";
      channel = text_field form "channel";
      decoder = text_field form "decoder";
      talkgroup_label = form.field "talkgroupLabel";
      talkgroup_tag = form.field "talkgroupTag";
      talkgroup_group = form.field "talkgroupGroup";
      talkgroup_name = form.field "talkgroupName";
      system_label = form.field "systemLabel";
      talker_alias =
          or_extracted (text_field form "talkerAlias") (extract_primary_source_tag env.json)
            sources;
    }

pub data Parsed : Type 0 where
  refused : Response → Parsed
  parsed : Meta → Parsed

abbrev pub parse_talkgroup : Env → Form → ℤ → ℤ → Option ℤ → Parsed
parse_talkgroup env form t system none = refused (fail_with 400 "invalid talkgroupId")
parse_talkgroup env form t system (some talkgroup) = parsed (meta_of env form t system talkgroup)

abbrev pub parse_system : Env → Form → ℤ → Option ℤ → Parsed
parse_system env form t none = refused (fail_with 400 "invalid systemId")
parse_system env form t (some system) =
    parse_talkgroup env form t system (env.parse_int (talkgroup_field form))

abbrev pub parse_complete : Env → Form → Option ℤ → Parsed
parse_complete env form none =
    refused (fail_with 400 "invalid dateTime: expected unix timestamp or ISO 8601")
parse_complete env form (some t) = parse_system env form t (env.parse_int (system_field form))

abbrev pub parse_checked : Env → Form → Option String → Parsed
parse_checked env form (some reason) =
    refused
      (record { status = 417; body = text (concat "Incomplete call data: " (concat reason "\n")) })
parse_checked env form none = parse_complete env form (parse_date_time env (form.field "dateTime"))

unfoldable pub parse_form : Env → Form → Parsed
unfolding incomplete_reason meta_of
parse_form env form =
    if str_eq (form.field "test") "1"
    then refused (record { status = 200; body = text "Incomplete call data: no talkgroup\n" })
    else parse_checked env form (incomplete_reason form)

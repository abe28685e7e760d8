-- ===== src/Tests/DownstreamTests.antt =====
-- The downstream pusher at concrete inputs.
use open_scanner.Base.{
  refl, true, false, none, some, Option, String, [], ◌∷◌, ℤ, pos, str_eq, eq_ℤ, if◌then◌else◌, ◌==◌,
}
use open_scanner.Ingest.Tables.{
  System, Talkgroup, get_system_by_system_id, get_talkgroup, get_setting_value,
}
use open_scanner.Ingest.Duplicate.{is_duplicate}
use open_scanner.Ingest.Limiter.{allow_key}
use open_scanner.Ingest.Sources.{is_blacklisted_tg}
use open_scanner.Ingest.Rows.{has_call_in_time_range}
use open_scanner.Ingest.Upload.Parse.{rate_limit_of}
use open_scanner.Ingest.Upload.Resolve.{needs_backfill}
use open_scanner.Ingest.Upload.Finish.{post_call_upload}
use open_scanner.Ingest.Upload.Stored.{IsStored}
use open_scanner.Downstream.Received.{Receives, push_fields-arrive}
use open_scanner.Ingest.Upload.{Env, Form, Server, Meta, CallEvent}
use open_scanner.Downstream.{Downstream}
use open_scanner.Downstream.Fields.{push_fields}
use open_scanner.Downstream.Push.{PushEnv, push_with_retry}
use open_scanner.Downstream.Arrival.{first_value, Arrives}
use open_scanner.Downstream.Backoff.{IsRandom, Ended, AreBackoffs, push_with_retry-Ended}

abbrev format : ℤ → String
format n = if eq_ℤ n (pos 100) then "100" else if eq_ℤ n (pos 7) then "7" else "0"

abbrev parse_int : String → Option ℤ
parse_int s =
    if str_eq s "100"
    then some (pos 100)
    else if str_eq s "7"
    then some (pos 7)
    else if str_eq s "0"
    then some (pos 0)
    else none

abbrev env : Env
env = record {
  now = 0;
  fails = λ q. false;
  json = record { entries = λ s. none; ids = λ s. none; is_blank = λ s. str_eq s "" };
  parse_int = parse_int;
  parse_nano = λ s. none;
  parse_rfc3339 = λ s. none;
  format_int = format;
  store_audio = λ mode preset. some "b.m4a";
  absolute = λ path. path;
  base_name = λ path. path;
  probe = λ path. pos 0;
  has_hub = true;
  has_downstream = true;
  has_transcriber = true;
  takes_job = true;
}

abbrev event : CallEvent
event = record {
  call_id = 1;
  audio_path = "a.m4a";
  audio_name = "a.m4a";
  audio_type = "audio/mp4";
  date_time = pos 100;
  system_id = pos 7;
  system = 1;
  talkgroup_id = pos 7;
  talkgroup = 2;
  frequency = pos 100;
  duration = pos 0;
  source = pos 7;
  sources = "";
  frequencies = "";
  patches = "";
  system_label = "county";
  talkgroup_label = "fire";
  talkgroup_name = "";
  talkgroup_group = "";
  talkgroup_tag = "";
  talker_alias = "";
}

abbrev form : Form
form = record {
  api_key_id = some 3;
  api_key_rate = none;
  field = first_value (push_fields format event);
  audio = some "application/octet-stream";
}

abbrev system : System
system = record {
  id = 1;
  system_id = pos 7;
  label = "county";
  auto_populate_talkgroups = 0;
  blacklists_json = none;
  led = none;
  order = pos 0;
}

abbrev talkgroup : Talkgroup
talkgroup = record {
  id = 2;
  system_id = 1;
  talkgroup_id = pos 7;
  label = some "fire";
  name = some "fire";
  frequency = none;
  led = none;
  group_id = some 3;
  tag_id = some 4;
  order = pos 0;
}

abbrev server : Server
server = record {
  db = record {
    systems = system ∷ [];
    talkgroups = talkgroup ∷ [];
    groups = [];
    tags = [];
    units = [];
    calls = [];
    bookmarks = [];
    shared_links = [];
    settings = λ key. none;
    next_id = 20;
  };
  limiters = [];
  recordings = [];
  hub = [];
  downstream = [];
  jobs = [];
}

server-Receives : Receives env server form event 3 system talkgroup "b.m4a"
unfolding get_system_by_system_id get_talkgroup is_duplicate get_setting_value needs_backfill
    allow_key rate_limit_of is_blacklisted_tg has_call_in_time_range
server-Receives = record {
  key_sent = refl;
  in_rate = refl;
  known_system = refl;
  listed = refl;
  known_talkgroup = refl;
  complete = λ m. refl;
  new_call = refl;
  stores = λ mode preset. refl;
  inserts = refl;
}

push_fields-arrive_example :
    (m : Meta) × Arrives env event m
    × IsStored env server (post_call_upload env server form) m system talkgroup
push_fields-arrive_example =
    push_fields-arrive env format server form event "application/octet-stream" 3 system talkgroup
      "b.m4a" (refl, (refl, (refl, (refl, (refl, (refl, tt)))))) refl (λ key. refl) refl
      server-Receives

-- A server that answers at the third attempt.
abbrev push_env : PushEnv
push_env = record {
  recordings_dir = "/rec";
  join = λ dir path. path;
  relative = λ dir path. some path;
  read_file = λ path. some "...";
  format_int = format;
  trim_slashes = λ url. url;
  encryption_key = "";
  cipher = record {
    derive = λ s. none;
    seal = λ key nonce s. [];
    open_sealed = λ key nonce s. none;
    nonce_size = 12;
    encode = λ bytes. "";
    decode = λ s. none;
  };
  http = λ attempt request. if attempt == 2 then some 200 else some 503;
  random = λ attempt bound. 0;
  is_cancelled = λ attempt. false;
}

abbrev row : Downstream
row = record {
  id = 1;
  url = "http://b";
  api_key = "k";
  systems_json = record { string = ""; valid = false };
}

push_env-IsRandom : IsRandom push_env
push_env-IsRandom attempt bound h = h

push_with_retry-Ended_example :
    Ended push_env row event 5 0 (push_with_retry push_env row event)
    × AreBackoffs 1_000_000_000 (push_with_retry push_env row event).1
push_with_retry-Ended_example =
    push_with_retry-Ended push_env row event push_env-IsRandom (λ attempt. refl)

-- ===== src/Tests/ArchiveTests.antt =====
-- The archive at a concrete request.
use open_scanner.Base.{◌≡◌, refl, true, false, none, some, [], ◌∷◌, pos, str_eq, if◌then◌else◌}
use open_scanner.Grants as Grants
use open_scanner.Ingest.Tables.{Call}
use open_scanner.Archive.{Archive, ArchiveEnv, ArchiveRequest, content, missing, get_call}
use open_scanner.Archive.Audio.{file, get_call_audio}
use open_scanner.Archive.Access.{IsServed, IsListed}
use open_scanner.Archive.Search.{get_calls}
use open_scanner.Archive.Bookmarks.{MarkEnv, MarkRequest, marked, post_toggle_bookmark}
use open_scanner.Archive.Bookmarks.Toggles.{Toggles, post_toggle_bookmark-Toggles}
use open_scanner.Archive.Guarded.{archive-AreGuarded}

abbrev env : ArchiveEnv
env = record {
  fails = λ q. false;
  grants_json = record {
    unmarshal = λ s. some (some (record { id = 1; talkgroups = 2 ∷ [] } ∷ []));
    is_blank = λ s. str_eq s "";
  };
  parse_int = λ s. if str_eq s "5" then some (pos 5) else none;
  clean = λ path. path;
  is_absolute = λ path. false;
  open_below = λ path. if str_eq path "a.m4a" then content "sound" else missing;
  parse_segments = λ s. s;
  split_commas = λ s. s ∷ [];
  trim = λ s. s;
  to_lower = λ s. s;
  contains = λ text pattern. false;
}

abbrev call : Call
call = record {
  id = 5;
  audio_path = "a.m4a";
  audio_name = "a";
  audio_type = "audio/mp4";
  date_time = pos 100;
  frequency = none;
  duration = none;
  source = none;
  sources_json = none;
  frequencies_json = none;
  patches_json = none;
  system_id = 1;
  talkgroup_id = 2;
  site = none;
  channel = none;
  decoder = none;
  error_count = none;
  spike_count = none;
  talker_alias = none;
}

abbrev archive : Archive
archive = record {
  db = record {
    systems = [];
    talkgroups = [];
    groups = [];
    tags = [];
    units = [];
    calls = call ∷ [];
    bookmarks = [];
    shared_links = [];
    settings = λ key. none;
    next_id = 6;
  };
  transcriptions = [];
}

-- A listener with a grant for talkgroup 2 of system 1.
abbrev request : ArchiveRequest
request = record {
  viewer = record {
    role = "listener";
    user_id = some 3;
    systems_json = λ id. some (record { string = "[]"; valid = true });
  };
  id = "5";
  query = λ key. "";
}

request_served : get_call_audio env archive request ≡ file "a" "audio/mp4" "sound"
unfolding get_call_audio get_call Grants.is_granted Grants.load_user_grants
request_served = refl

archive-AreGuarded_example :
    IsServed env archive request (get_call_audio env archive request)
    × IsListed env archive request (get_calls env archive request)
archive-AreGuarded_example = archive-AreGuarded env archive request

abbrev mark_env : MarkEnv
mark_env = record {
  fails = λ q. false;
  grants_json = env.grants_json;
  systems_json = λ id. some (record { string = "[]"; valid = true });
}

abbrev mark_request : MarkRequest
mark_request = record { user_id = 3; role = "listener"; call_id = some 5 }

call_marked : (post_toggle_bookmark mark_env archive.db mark_request).1 ≡ marked 6
unfolding post_toggle_bookmark Grants.has_system_access Grants.parse_system_grants
call_marked = refl

post_toggle_bookmark-Toggles_example :
    Toggles mark_env archive.db mark_request
      (some 5)
      (post_toggle_bookmark mark_env archive.db mark_request)
post_toggle_bookmark-Toggles_example = post_toggle_bookmark-Toggles mark_env archive.db mark_request

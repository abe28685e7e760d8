-- ===== src/Tests/IngestTests.antt =====
-- Uploads and the pruner at concrete inputs.
use open_scanner.Base.{
  ℕ, ◌≡◌, inl, inr, refl, sym, ap, ◌∙◌, true, false, Option, none, some, String, List, [], ◌∷◌,
  arith, ℤ, pos, str_eq, concat, if◌then◌else◌,
}
use open_scanner.Ingest.Tables.{System, Call, Db, Faults, get_setting_value}
use open_scanner.Ingest.Sources.{Json}
use open_scanner.Ingest.Duplicate.{window_sec}
use open_scanner.Ingest.Duplicate.Apart.{AreApart}
use open_scanner.Ingest.Upload.{Env, Form, Server, Meta}
use open_scanner.Ingest.Upload.Parse.{parse_form, meta_of}
use open_scanner.Ingest.Upload.Finish.{post_call_upload}
use open_scanner.Ingest.Upload.Outcome.{Outcome}
use open_scanner.Ingest.Upload.Apart.{IsChecking, HasWidth, post_call_upload-AreApart}
use open_scanner.Ingest.Pruner.{PruneEnv, PruneState, prune_old_calls}
use open_scanner.Ingest.Pruner.Rounds.{Works}
use open_scanner.Ingest.Pruner.Ends.{IsKeyed}
use open_scanner.Ingest.Pruner.Whole.{Pruned, prune_old_calls-Pruned}

abbrev json : Json
json = record { entries = λ s. none; ids = λ s. none; is_blank = λ s. str_eq s "" }

abbrev all_work : Faults
all_work q = false

-- Decimal texts, as far as the examples need them.
abbrev parse_int : String → Option ℤ
parse_int s =
    if str_eq s "100"
    then some (pos 100)
    else if str_eq s "7"
    then some (pos 7)
    else if str_eq s "30"
    then some (pos 30)
    else none

abbrev parse_time : String → Option ℤ
parse_time s = if str_eq s "1970-01-01T00:01:40Z" then some (pos 100) else none

abbrev env : Env
env = record {
  now = 0;
  fails = all_work;
  json = json;
  parse_int = parse_int;
  parse_nano = parse_time;
  parse_rfc3339 = parse_time;
  format_int = λ n. "7";
  store_audio = λ mode preset. some "2026/a.wav";
  absolute = λ path. concat "/recordings/" path;
  base_name = λ path. "a.wav";
  probe = λ path. pos 0;
  has_hub = true;
  has_downstream = true;
  has_transcriber = true;
  takes_job = true;
}

abbrev system : System
system = record {
  id = 1;
  system_id = pos 7;
  label = "county";
  auto_populate_talkgroups = 1;
  blacklists_json = none;
  led = none;
  order = pos 0;
}

abbrev call : ℕ → ℤ → Call
call id t = record {
  id = id;
  audio_path = "old.wav";
  audio_name = "old.wav";
  audio_type = "audio/wav";
  date_time = t;
  frequency = none;
  duration = none;
  source = none;
  sources_json = none;
  frequencies_json = none;
  patches_json = none;
  system_id = 1;
  talkgroup_id = 2;
  site = none;
  channel = none;
  decoder = none;
  error_count = none;
  spike_count = none;
  talker_alias = none;
}

abbrev db : List Call → Db
db calls = record {
  systems = system ∷ [];
  talkgroups = [];
  groups = [];
  tags = [];
  units = [];
  calls = calls;
  bookmarks = record { call_id = 11; user_id = some 1 } ∷ [];
  shared_links = [];
  settings = λ key. if str_eq key "pruneDays" then some "30" else none;
  next_id = 20;
}

abbrev server : List Call → Server
server calls = record {
  db = db calls;
  limiters = [];
  recordings = [];
  hub = [];
  downstream = [];
  jobs = [];
}

abbrev form : Form
form = record {
  api_key_id = some 3;
  api_key_rate = none;
  field = λ key.
      if str_eq key "dateTime"
      then "100"
      else if str_eq key "system"
      then "7"
      else if str_eq key "talkgroupId"
      then "7"
      else "";
  audio = some "audio/wav";
}

abbrev native_form : Form
native_form = record {
  api_key_id = some 3;
  api_key_rate = none;
  field = λ key.
      if str_eq key "startedAt"
      then "1970-01-01T00:01:40Z"
      else if str_eq key "systemId"
      then "7"
      else if str_eq key "talkgroupId"
      then "7"
      else "";
  audio = some "audio/wav";
}

checking : IsChecking env (db (call 10 (pos 50) ∷ [])) 2000
unfolding get_setting_value
checking = record {
  timestamp_works = refl;
  range_works = refl;
  enabled = refl;
  window = refl;
  above = omega arith;
}

form-HasWidth : HasWidth 2000 (parse_form env form)
unfolding parse_form meta_of
form-HasWidth = (omega arith, omega arith)

post_call_upload-AreApart_example :
    AreApart
      (window_sec 2000)
      (post_call_upload env (server (call 10 (pos 50) ∷ [])) form).0.db.calls
post_call_upload-AreApart_example =
    post_call_upload-AreApart env 2000 (server (call 10 (pos 50) ∷ [])) form checking form-HasWidth
      (tt, tt)

abbrev meta : Meta
meta = meta_of env form (pos 100) (pos 7) (pos 7)

abbrev prune_env : PruneEnv
prune_env = record {
  fails = all_work;
  parse_int = parse_int;
  cutoff = λ days. pos 50;
  recordings_dir = "/rec";
  join = λ dir path. concat dir (concat "/" path);
  clean = λ path. path;
}

-- Two old calls, the second with a bookmark.
abbrev archive : PruneState
archive = record { db = db (call 10 (pos 5) ∷ call 11 (pos 6) ∷ []); removed = [] }

prune-Works : Works prune_env
prune-Works = record { older = λ round. refl; delete = λ round id. refl }

archive-IsKeyed : IsKeyed archive.db.calls
archive-IsKeyed c d (inr (inr k)) m same = absurd k
archive-IsKeyed c d (inl e) (inr (inr k)) same = absurd k
archive-IsKeyed c d (inr (inl e)) (inr (inr k)) same = absurd k
archive-IsKeyed c d (inl e) (inl e') same = e ∙ sym e'
archive-IsKeyed c d (inl e) (inr (inl e')) same =
    let k : 10 ≡ 11 = sym (ap (λ x. x.id) e) ∙ same ∙ ap (λ x. x.id) e' in absurd (omega (arith, k))
archive-IsKeyed c d (inr (inl e)) (inl e') same =
    let k : 11 ≡ 10 = sym (ap (λ x. x.id) e) ∙ same ∙ ap (λ x. x.id) e' in absurd (omega (arith, k))
archive-IsKeyed c d (inr (inl e)) (inr (inl e')) same = e ∙ sym e'

prune_old_calls-Pruned_example :
    (s' : PruneState) × (prune_old_calls 3 prune_env archive ≡ some s')
    × Pruned prune_env (pos 50) archive s'
prune_old_calls-Pruned_example =
    prune_old_calls-Pruned prune_env archive 3 "30" (pos 30) prune-Works archive-IsKeyed
      (omega arith) refl refl refl refl

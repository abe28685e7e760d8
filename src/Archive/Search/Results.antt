-- ===== src/Archive/Search/Results.antt =====
-- The rows of a search's response: the loop over the calls of `GetCalls`, and
-- backend/internal/handler/shared/call_search.go. An absent text is "". The loop's caches are left
-- out: within a request a look-up gives the same row each time.
use open_scanner.Base.{ℕ, Bool, Option, none, some, String, List, ◌==◌, if◌then◌else◌, map, ℤ, pos}
use open_scanner.Ingest.Tables.{System, Talkgroup, LabelRow, Call, Lookup, found, no_rows, failed}
use open_scanner.Ingest.Rows.{get_group, get_tag}
use open_scanner.Archive.{Transcription, Archive, ArchiveEnv, ArchiveRequest, get_transcription}
use open_scanner.Archive.Audio.{or_text}
use open_scanner.Archive.Rows.{get_system, get_talkgroup_by_id, is_bookmarked}

-- What the row shows of the call's talkgroup.
pub record TalkgroupPart : Type 0 where
  pub talkgroup_id : ℤ
  pub label : String
  pub name : String
  pub led : String
  pub group : String
  pub tag : String

pub record CallResult : Type 0 where
  pub id : ℕ
  pub audio_name : String
  pub audio_type : String
  pub date_time : ℤ
  pub system_id : ℤ
  pub system_label : String
  pub talkgroup : TalkgroupPart
  pub frequency : Option ℤ
  pub duration : Option ℤ
  pub source : Option ℤ
  pub site : String
  pub channel : String
  pub decoder : String
  pub error_count : Option ℤ
  pub spike_count : Option ℤ
  pub talker_alias : String
  pub transcript : String
  pub bookmarked : Bool

abbrev shown_label : Lookup LabelRow → String
shown_label (found r) = r.label
shown_label no_rows = ""
shown_label failed = ""

abbrev group_label : ArchiveEnv → Archive → Option ℕ → String
group_label env a none = ""
group_label env a (some id) = shown_label (get_group env.fails a.db id)

abbrev tag_label : ArchiveEnv → Archive → Option ℕ → String
tag_label env a none = ""
tag_label env a (some id) = shown_label (get_tag env.fails a.db id)

abbrev no_talkgroup : TalkgroupPart
no_talkgroup = record {
  talkgroup_id = pos 0;
  label = "";
  name = "";
  led = "";
  group = "";
  tag = "";
}

abbrev pub talkgroup_part : ArchiveEnv → Archive → Lookup Talkgroup → TalkgroupPart
talkgroup_part env a no_rows = no_talkgroup
talkgroup_part env a failed = no_talkgroup
talkgroup_part env a (found t) = record {
  talkgroup_id = t.talkgroup_id;
  label = or_text t.label;
  name = or_text t.name;
  led = or_text t.led;
  group = group_label env a t.group_id;
  tag = tag_label env a t.tag_id;
}

-- Without its row the system keeps the row id.
abbrev pub shown_system : ℕ → Lookup System → ℤ × String
shown_system id no_rows = (pos id, "")
shown_system id failed = (pos id, "")
shown_system id (found s) = (s.system_id, s.label)

abbrev shown_text : Lookup Transcription → String
shown_text (found t) = t.text
shown_text no_rows = ""
shown_text failed = ""

unfoldable pub result_of : ArchiveEnv → Archive → ArchiveRequest → Call → CallResult
result_of env a req c =
    let (system, label) = shown_system c.system_id (get_system env.fails a.db c.system_id) in
    let tg =
      if c.talkgroup_id == 0
      then no_talkgroup
      else talkgroup_part env a (get_talkgroup_by_id env.fails a.db c.talkgroup_id) in
    record {
      id = c.id;
      audio_name = c.audio_name;
      audio_type = c.audio_type;
      date_time = c.date_time;
      system_id = system;
      system_label = label;
      talkgroup = tg;
      frequency = c.frequency;
      duration = c.duration;
      source = c.source;
      site = or_text c.site;
      channel = or_text c.channel;
      decoder = or_text c.decoder;
      error_count = c.error_count;
      spike_count = c.spike_count;
      talker_alias = or_text c.talker_alias;
      transcript = shown_text (get_transcription env.fails a c.id);
      bookmarked = is_bookmarked env.fails a.db req.viewer.user_id c.id;
    }

abbrev pub results_of : ArchiveEnv → Archive → ArchiveRequest → List Call → List CallResult
results_of env a req cs = map (result_of env a req) cs

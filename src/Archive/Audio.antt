-- ===== src/Archive/Audio.antt =====
-- `GetCallAudio` and `GetCallTranscript` of backend/internal/handler/calls.
use text.Mathlib.Text.{starts_with}
use open_scanner.Base.{
  ℕ, Bool, not, ◌||◌, Option, none, some, String, ltb, if◌then◌else◌, str_eq, ℤ, pos, negsuc,
}
use open_scanner.Ingest.Sources.{is_some}
use open_scanner.Grants.{load_user_grants, is_granted}
use open_scanner.Ingest.Tables.{Call, Lookup, found, no_rows, failed, get_setting_value}
use open_scanner.Archive.{
  Transcription, Archive, Opened, content, missing, broken, ArchiveEnv, ArchiveRequest, get_call,
  get_transcription,
}

-- An error; a file with its name and content type; a transcript: text, segments as JSON, language
-- and model.
pub data Served : Type 0 where
  fails_with : ℕ → String → Served
  file : String → String → String → Served
  transcript : String → String → String → String → Served

-- A number above 0.
abbrev pub id_of : Option ℤ → Option ℕ
id_of none = none
id_of (some (negsuc n)) = none
id_of (some (pos n)) = if ltb 0 n then some n else none

-- A user, or the setting for public access.
abbrev pub may_read : ArchiveEnv → Archive → ArchiveRequest → Bool
may_read env a req =
    is_some req.viewer.user_id || str_eq (get_setting_value env.fails a.db "publicAccess") "true"

abbrev pub or_text : Option String → String
or_text none = ""
or_text (some s) = s

abbrev pub if_empty : String → String → String
if_empty s other = if str_eq s "" then other else s

abbrev pub opened_file : Call → Opened → Served
opened_file c missing = fails_with 404 "audio file not found"
opened_file c broken = fails_with 500 "internal error"
opened_file c (content bytes) =
    file (if_empty c.audio_name "call") (if_empty c.audio_type "application/octet-stream") bytes

abbrev pub is_unsafe : ArchiveEnv → String → Bool
is_unsafe env path = starts_with path ".." || env.is_absolute path

unfoldable pub serve_call : ArchiveEnv → ArchiveRequest → Call → Served
serve_call env req c =
    if not (is_granted (load_user_grants env.grants_json req.viewer) c.system_id c.talkgroup_id)
    then fails_with 404 "call not found"
    else if is_unsafe env (env.clean c.audio_path)
    then fails_with 404 "audio not found"
    else opened_file c (env.open_below (env.clean c.audio_path))

abbrev pub found_call : ArchiveEnv → ArchiveRequest → Lookup Call → Served
found_call env req no_rows = fails_with 404 "call not found"
found_call env req failed = fails_with 500 "internal error"
found_call env req (found c) = serve_call env req c

abbrev pub audio_of : ArchiveEnv → Archive → ArchiveRequest → Option ℕ → Served
audio_of env a req none = fails_with 400 "invalid call id"
audio_of env a req (some id) =
    if not (may_read env a req)
    then fails_with 401 "authentication required"
    else found_call env req (get_call env.fails a.db id)

-- `GetCallAudio`
unfoldable pub get_call_audio : ArchiveEnv → Archive → ArchiveRequest → Served
unfolding serve_call
get_call_audio env a req = audio_of env a req (id_of (env.parse_int req.id))

abbrev segments_of : ArchiveEnv → Option String → String
segments_of env none = "[]"
segments_of env (some s) = if str_eq s "" then "[]" else env.parse_segments s

abbrev pub found_transcript : ArchiveEnv → Lookup Transcription → Served
found_transcript env no_rows = fails_with 404 "transcript not found"
found_transcript env failed = fails_with 500 "internal error"
found_transcript env (found t) =
    transcript t.text (segments_of env t.segments) (or_text t.language) (or_text t.model)

abbrev pub transcript_of : ArchiveEnv → Archive → ArchiveRequest → Option ℕ → Served
transcript_of env a req none = fails_with 400 "invalid call id"
transcript_of env a req (some id) =
    if not (may_read env a req)
    then fails_with 401 "authentication required"
    else found_transcript env (get_transcription env.fails a id)

-- `GetCallTranscript`
unfoldable pub get_call_transcript : ArchiveEnv → Archive → ArchiveRequest → Served
get_call_transcript env a req = transcript_of env a req (id_of (env.parse_int req.id))

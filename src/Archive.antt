-- ===== src/Archive.antt =====
-- The archive of calls: backend/internal/handler/calls/audio.go, transcript.go and search.go. This
-- file has the tables and what the handlers ask of a request and of their surroundings.
pub mod Audio
pub mod Search
pub mod Rows
pub mod Access
pub mod Served
pub mod Pages
pub mod Guarded
pub mod Bookmarks
use open_scanner.Base.{ℕ, Bool, Option, none, some, String, List, ◌==◌, if◌then◌else◌, ℤ}
use open_scanner.Store.{find_first}
use open_scanner.Grants as Grants
use open_scanner.Ingest.Tables.{Call, Db, Faults, Lookup, lookup, q_get_call, q_get_transcription}

pub record Transcription : Type 0 where
  pub call_id : ℕ
  pub text : String
  pub segments : Option String
  pub language : Option String
  pub model : Option String

pub record Archive : Type 0 where
  pub db : Db
  pub transcriptions : List Transcription

-- `GetFile` opens below the recordings directory only (os.Root): what it finds.
pub data Opened : Type 0 where
  content : String → Opened
  missing broken : Opened

pub record ArchiveEnv : Type 0 where
  pub fails : Faults
  pub grants_json : Grants.Json
  -- strconv.ParseInt(s, 10, 64)
  pub parse_int : String → Option ℤ
  -- filepath.Clean and filepath.IsAbs
  pub clean : String → String
  pub is_absolute : String → Bool
  -- os.OpenRoot, `Open` and `Stat`
  pub open_below : String → Opened
  -- json.Unmarshal into transcription segments and their encoding, "[]" when none is read
  pub parse_segments : String → String
  -- strings.Split(s, ","), strings.TrimSpace and strings.ToLower
  pub split_commas : String → List String
  pub trim : String → String
  pub to_lower : String → String
  -- `text LIKE '%' || pattern || '%'`
  pub contains : String → String → Bool

-- The context of a request, with the id of the path and the query.
pub record ArchiveRequest : Type 0 where
  pub viewer : Grants.Viewer
  pub id : String
  pub query : String → String

-- `GetCall`; the joined labels are not used here.
unfoldable pub get_call : Faults → Db → ℕ → Lookup Call
unfolding find_first
get_call fails db id = lookup (fails q_get_call) (find_first (λ c. c.id == id) db.calls)

unfoldable pub get_transcription : Faults → Archive → ℕ → Lookup Transcription
unfolding find_first
get_transcription fails a id =
    lookup (fails q_get_transcription) (find_first (λ t. t.call_id == id) a.transcriptions)

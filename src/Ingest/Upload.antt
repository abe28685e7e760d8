-- ===== src/Ingest/Upload.antt =====
-- `PostCallUpload` of backend/internal/handler/calls/upload.go. This file has what the parts of the
-- handler share: the request, the environment, the server's state and the answer. The clock, number
-- and date parsing, the JSON decoder, paths, the audio store (FFmpeg and files) and the probe are
-- fields of the environment.
pub mod Parse
pub mod Resolve
pub mod Finish
pub mod Quiet
pub mod Units
pub mod Refusals
pub mod Imported
pub mod Found
pub mod Stored
pub mod Outcome
pub mod Apart
use open_scanner.Base.{ℕ, Bool, Option, String, List, ℤ}
use open_scanner.Ingest.Tables.{Db, Faults}
use open_scanner.Ingest.Limiter.{ApiKeyLimiter}
use open_scanner.Ingest.Sources.{Json}

pub record Env : Type 0 where
  -- nanoseconds
  pub now : ℕ
  pub fails : Faults
  pub json : Json
  -- strconv.ParseInt(s, 10, 64) and strconv.Atoi, which agree on a 64-bit machine
  pub parse_int : String → Option ℤ
  -- time.Parse(…).Unix() for time.RFC3339Nano and time.RFC3339
  pub parse_nano : String → Option ℤ
  pub parse_rfc3339 : String → Option ℤ
  pub format_int : ℤ → String
  -- `Processor.Store` in a mode and a preset: the path of the stored file
  pub store_audio : ℤ → String → Option String
  -- the path below the recordings directory
  pub absolute : String → String
  pub base_name : String → String
  -- `ProbeDuration`
  pub probe : String → ℤ
  pub has_hub : Bool
  pub has_downstream : Bool
  pub has_transcriber : Bool
  -- `Submit` queues the job: there is a pool, and the context lasts
  pub takes_job : Bool

pub record Form : Type 0 where
  -- what `APIKeyAuth` put into the context: the id, and the key's own rate
  pub api_key_id : Option ℕ
  pub api_key_rate : Option ℤ
  -- `PostForm`: "" for a missing field
  pub field : String → String
  -- the Content-Type of the file "audio", if there is one
  pub audio : Option String

pub data Body : Type 0 where
  error message text : String → Body
  imported : ℕ → Body

pub record Response : Type 0 where
  pub status : ℕ
  pub body : Body

-- The payload of the live feed; a missing key reads as `none`.
pub record CalPayload : Type 0 where
  pub id : ℕ
  pub audio_name : String
  pub audio_type : String
  pub date_time : ℤ
  pub system_id : ℤ
  pub system : ℕ
  pub talkgroup_id : ℤ
  pub talkgroup : ℕ
  pub frequency : Option ℤ
  pub duration : Option ℤ
  pub source : Option ℤ
  pub site : Option String
  pub channel : Option String
  pub decoder : Option String
  pub error_count : Option ℤ
  pub spike_count : Option ℤ
  pub talker_alias : Option String
  pub sources : Option String
  pub frequencies : Option String

-- `BroadcastCFG`, and `BroadcastCAL` to the clients that can receive a system and a talkgroup.
pub data HubCall : Type 0 where
  broadcast_cfg : HubCall
  broadcast_cal : CalPayload → ℕ → ℕ → HubCall

-- `downstream.CallEvent`; an invalid number reads as 0 and an invalid text as "".
pub record CallEvent : Type 0 where
  pub call_id : ℕ
  pub audio_path : String
  pub audio_name : String
  pub audio_type : String
  pub date_time : ℤ
  pub system_id : ℤ
  pub system : ℕ
  pub talkgroup_id : ℤ
  pub talkgroup : ℕ
  pub frequency : ℤ
  pub duration : ℤ
  pub source : ℤ
  pub sources : String
  pub frequencies : String
  pub patches : String
  pub system_label : String
  pub talkgroup_label : String
  pub talkgroup_name : String
  pub talkgroup_group : String
  pub talkgroup_tag : String
  pub talker_alias : String

pub record Server : Type 0 where
  pub db : Db
  pub limiters : List (ℕ × ApiKeyLimiter)
  -- stored audio files, in order
  pub recordings : List String
  -- calls of the hub and of the notifier, and submitted transcriptions, in order
  pub hub : List HubCall
  pub downstream : List CallEvent
  pub jobs : List (ℕ × String)

-- What the handler reads from the form.
pub record Meta : Type 0 where
  pub date_time : ℤ
  pub system_raw : ℤ
  pub talkgroup_raw : ℤ
  pub frequency : Option ℤ
  pub duration : Option ℤ
  pub source : Option ℤ
  pub error_count : Option ℤ
  pub spike_count : Option ℤ
  pub sources : Option String
  pub frequencies : Option String
  pub patches : Option String
  pub site : Option String
  pub channel : Option String
  pub decoder : Option String
  pub talkgroup_label : String
  pub talkgroup_tag : String
  pub talkgroup_group : String
  pub talkgroup_name : String
  pub system_label : String
  pub talker_alias : Option String

-- A part of the handler answers, or hands a result on.
pub data Step {ℓ} (A : Type ℓ) : Type ℓ where
  halts : Server → Response → Step A
  goes : Server → A → Step A

abbrev pub fail_with : ℕ → String → Response
fail_with status what = record { status = status; body = error what }

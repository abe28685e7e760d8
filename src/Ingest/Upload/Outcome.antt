-- ===== src/Ingest/Upload/Outcome.antt =====
-- The outcomes of `PostCallUpload`, backend/internal/handler/calls/upload.go.
use open_scanner.Base.{◌≡◌, ◌⊎◌, false, String, [], ◌∷◌, ◌++◌, keep}
use open_scanner.Ingest.Tables.{System, Talkgroup, Db}
use open_scanner.Ingest.Upload.{Env, Form, Server, Response, Meta, fail_with}
use open_scanner.Ingest.Upload.Parse.{parsed, parse_form}
use open_scanner.Ingest.Upload.Imported.{FoundSystem, FoundTalkgroup}
use open_scanner.Ingest.Upload.Quiet.{is_cal, is_import, Quiet}
use open_scanner.Ingest.Upload.Stored.{IsStored}

-- Nobody hears of a call. An audio file can have been stored, if the row could not be.
pub record IsRefusal (s : Server) (r : Server × Response) : Type 0 where
  pub answer : is_import r.1.body ≡ false
  pub calls : r.0.db.calls ≡ s.db.calls
  pub downstream : r.0.downstream ≡ s.downstream
  pub jobs : r.0.jobs ≡ s.jobs
  pub live : keep is_cal r.0.hub ≡ keep is_cal s.hub
  pub recordings :
      (r.0.recordings ≡ s.recordings)
      ⊎ ((path : String) × (r.0.recordings ≡ s.recordings ++ (path ∷ []))
          × (r.1 ≡ fail_with 500 "internal error"))

abbrev Ended : Env → Server → Meta → System → Talkgroup → Server × Response → Type 0
Ended env s meta system t r = IsRefusal s r ⊎ IsStored env s r meta system t

-- The import of a form: what was read from it, and the system and talkgroup of its radio ids.
abbrev pub IsImport : Env → Server → Form → Server × Response → Type 0
IsImport env s form r =
    (meta : Meta) × (system : System) × (t : Talkgroup) × (db : Db) × (parse_form env form
      ≡ parsed meta)
    × FoundSystem env s.db db meta system
    × FoundTalkgroup env db meta system t
    × IsStored env s r meta system t

abbrev pub Outcome : Env → Server → Form → Server × Response → Type 0
Outcome env s form r = IsRefusal s r ⊎ IsImport env s form r

-- With the talkgroup that was found.
abbrev EndedIn : Env → Server → Meta → System → Server × Response → Type 0
EndedIn env s meta system r =
    IsRefusal s r
    ⊎ ((t : Talkgroup) × FoundTalkgroup env s.db meta system t × IsStored env s r meta system t)

-- With the system, too.
abbrev EndedFor : Env → Server → Meta → Server × Response → Type 0
EndedFor env s meta r =
    IsRefusal s r
    ⊎ ((system : System) × (t : Talkgroup) × (db : Db) × FoundSystem env s.db db meta system
        × FoundTalkgroup env db meta system t
        × IsStored env s r meta system t)

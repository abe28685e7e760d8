-- ===== src/Archive/Access.antt =====
-- What `GetCallAudio` and `GetCalls` of backend/internal/handler/calls let through: `GetCalls`
-- asks for the grants only, not for a user or public access.
use open_scanner.Base.{Bool, true, false, ◌≡◌, ◌≤◌, some, length, All, Member}
use open_scanner.Grants.{load_user_grants, is_granted}
use open_scanner.Ingest.Tables.{Call}
use open_scanner.Archive.{Archive, ArchiveEnv, ArchiveRequest, content}
use open_scanner.Archive.Audio.{Served, fails_with, file, transcript, id_of, may_read, is_unsafe}
use open_scanner.Archive.Search.Results.{result_of}
use open_scanner.Archive.Search.{Listing, refused, listed}

module _ (env : ArchiveEnv) (a : Archive) (req : ArchiveRequest) where
  abbrev pub granted : Call → Bool
  granted c = is_granted (load_user_grants env.grants_json req.viewer) c.system_id c.talkgroup_id

  abbrev pub IsOpen : Call → Type 0
  IsOpen c = Member c a.db.calls × (granted c ≡ true)

  -- A file is the one of the open call that was asked for, below the directory.
  abbrev pub IsServed : Served → Type 0
  IsServed (fails_with status message) = Unit
  IsServed (transcript text segments language model) = ⊥
  IsServed (file name type bytes) =
      (may_read env a req ≡ true)
      × ((c : Call) × (id_of (env.parse_int req.id) ≡ some c.id)
          × IsOpen c
          × (is_unsafe env (env.clean c.audio_path) ≡ false)
          × (env.open_below (env.clean c.audio_path) ≡ content bytes))

  -- At most 100 rows, each of an open call.
  abbrev pub IsListed : Listing → Type 0
  IsListed (refused status message) = Unit
  IsListed (listed rows total) =
      (length rows ≤ 100) × All (λ r. (c : Call) × IsOpen c × (r ≡ result_of env a req c)) rows

-- ===== src/Lib.antt =====
-- Verification of the Go server of this repository (backend/): the ingest of calls, its session
-- security, access decisions and continuous audio stream.
--
-- Parts. A recorder uploads a call (PostCallUpload, PostCallUploadV1): the rate limiter of its API
-- key and the checks of the form come first, then the system and the talkgroup are found or made,
-- the blacklist and the duplicate check may refuse the call, and at last the audio file and the row
-- are stored and the hub, the downstream pushers and the transcription pool are told. The pruner
-- deletes old calls. A downstream pusher sends the calls that its grants let through to the upload
-- handler of another server. A login (PostLogin) passes the address limiter, checks the account,
-- and issues an access token, which the token tracker records, and a refresh token, which the
-- database stores by its hash. A refresh (PostRefresh) rotates the refresh token and caches its
-- answer in the replay cache; logout and password change end sessions through the tracker and the
-- database. The middlewares decide who a request comes from and ask the tracker. Grants decide
-- which calls a listener may hear. The hub fans messages out to WebSocket connections. The stream
-- manager splits calls into MPEG frames and hands them to listeners. The ring keeps the recent
-- events of an MQTT instance.
--
-- Files.
--   Ingest/Tables, Rows
--                      the queries of backend/internal/db that uploads, the pruner and the
--                      archive use, and
--                      backend/internal/handler/shared/settings.go
--   Ingest/Limiter     backend/internal/handler/calls/calls.go: apiKeyLimiter, getLimiter
--   Ingest/Duplicate   backend/internal/audio/duplicate.go: IsDuplicate
--   Ingest/Presets     backend/internal/audio/worker.go: the encoding presets
--   Ingest/Sources     the JSON helpers of backend/internal/handler/calls/upload.go
--   Ingest/Upload      PostCallUpload of the same file: Parse (form), Resolve (rows, with
--                      backend/internal/handler/shared/resolve.go), Finish (file, row, who is told)
--   Ingest/UploadV1    backend/internal/handler/calls/upload_v1.go, divided likewise
--   Ingest/Pruner      backend/internal/audio/pruner.go: pruneOldCalls
--   Archive            backend/internal/handler/calls/search.go, audio.go and transcript.go: Search
--                      (GetCalls), Search/Results (its rows), Audio (GetCallAudio,
--                      GetCallTranscript), Rows (the queries); Bookmarks is PostToggleBookmark of
--                      backend/internal/handler/bookmarks/bookmarks.go
--   Downstream         backend/internal/downstream/pusher.go: grants, Fields (the pushed form), Push
--                      (pushCall, pushWithRetry), Service (Notify, Start, Stop, Reload, runPusher);
--                      Secrets is backend/internal/auth/crypto.go
--   Auth/RateLimiter   backend/internal/auth/ratelimit.go: RateLimiter, RecordFailure, IsLockedOut,
--                      Reset, cleanup (one tick)
--   Auth/ReplayCache   backend/internal/handler/auth/replay_cache.go: put, get, sweepLocked
--   Auth/Tokens        backend/internal/auth/auth.go: TokenTracker with Track, IsRevoked, Revoke,
--                      RevokeAllForUser, cleanupLocked
--   Grants             backend/internal/auth/grants.go, backend/internal/handler/shared/grants.go,
--                      CanReceive and parseGrants of backend/internal/ws/client.go
--   Store              the queries of backend/internal/db that authentication uses
--   Session            backend/internal/handler/auth/auth.go: PostLogin, PostRefresh, PostLogout,
--                      PutPassword; backend/internal/auth/cookie.go; the hourly clean-up of
--                      backend/cmd/server/main.go
--   Middleware         backend/internal/middleware/auth.go and limits.go
--   Stream             backend/internal/stream/mp3.go and manager.go
--   Hub                backend/internal/ws/hub.go: Run, Register, DisconnectByUser, closeAll, ClientCount,
--                      countByUser; closeSend and trySend of client.go
--   Trmqtt             backend/internal/trmqtt/ringbuf.go
--   Base               lists, Boolean tests, maps and integers that the parts share
--   Tests              the theorems at concrete inputs
--
-- State and time. A method that changes its receiver returns the new state; each holds its mutex,
-- so it is one step, and histories are lists of steps. Two let go of it in between: Notify takes
-- the manager at its first look and the one at the enqueues, and DisconnectByUser is the list of
-- events that it sends, between which others come. The clock is an argument, in nanoseconds, and
-- one reading stands for all that a handler makes. Go maps are functions where their size is never
-- asked for, else association lists. A failing query is a Boolean of the environment.
--
-- Bounds. Ids, times and counters are natural numbers; the code's values stay far below 2^63 (times
-- in nanoseconds until the year 2262), and numbers of a request are signed integers. Where
-- arithmetic on these can leave 64 bits, for the window of the duplicate check and the offset and
-- total of a search, it wraps. Two loops run on fuel: the one of splitFrames drops at least one
-- byte in each round and so gets the number of bytes, and the one of the pruner deletes at least
-- one call in each round, so that one round more than there are calls is enough. The five attempts
-- of a push are five rounds.
--
-- Parameters. JWT signing and verification, bcrypt, SHA-256, the random source, uuids, the JSON
-- decoder, FFmpeg and the SQL engine are outside: functions that the definitions take. The queries
-- are their SQL text on lists of rows.
--
-- Uploads run one after another: two uploads at once can pass the duplicate check together, since
-- nothing orders the check and the insertion; this is not modelled. A number of a JSON array is
-- asked for its sign and its integer only.
--
-- Not modelled. The WebSocket pumps, DisconnectByJTI and the debounced listener count of the hub,
-- the broadcast channel's own bound, the MQTT client, the directory monitor, webhooks, audio
-- conversion, the lists of bookmarks, shared links, the administration, configuration and logging,
-- and the web client: further parts of the server, or input and output.
pub mod Archive
pub mod Auth
pub mod Base
pub mod Downstream
pub mod Grants
pub mod Hub
pub mod Ingest
pub mod Middleware
pub mod Session
pub mod Store
pub mod Stream
pub mod Tests
pub mod Trmqtt

-- ===== src/Downstream/Push.antt =====
-- `pushCall` and `pushWithRetry` of backend/internal/downstream/pusher.go. Durations are nanoseconds.
use text.Mathlib.Text.{starts_with}
use open_scanner.Base.{
  ℕ, zero, suc, ◌+◌, ◌*◌, ◌/◌, Bool, true, false, ◌&&◌, Option, none, some, String, List, [], ◌∷◌,
  ◌==◌, leb, ltb, if◌then◌else◌, str_eq, concat, ℤ,
}
use open_scanner.Ingest.Upload.{CallEvent}
use open_scanner.Downstream.{Downstream}
use open_scanner.Downstream.Secrets.{Cipher, is_encrypted, decrypt_string}
use open_scanner.Downstream.Fields.{push_fields}

pub record PushRequest : Type 0 where
  pub url : String
  pub api_key : String
  -- the name and the content of the part "audio"
  pub audio_name : String
  pub audio : String
  pub fields : List (String × String)

pub record PushEnv : Type 0 where
  pub recordings_dir : String
  -- filepath.Join and filepath.Rel
  pub join : String → String → String
  pub relative : String → String → Option String
  -- the content of a file, if it can be opened and read
  pub read_file : String → Option String
  pub format_int : ℤ → String
  -- strings.TrimRight(url, "/")
  pub trim_slashes : String → String
  pub encryption_key : String
  pub cipher : Cipher
  -- the status of an attempt, unless the request cannot be made or sent
  pub http : ℕ → PushRequest → Option ℕ
  -- rand.Int64N at an attempt, and whether the context ends during its wait
  pub random : ℕ → ℕ → ℕ
  pub is_cancelled : ℕ → Bool

-- The path stays below the recordings.
abbrev pub escapes : PushEnv → String → Bool
escapes env path = elim (env.relative env.recordings_dir path) [
  | none ↦ true
  | some rel ↦ starts_with rel ".."
]

abbrev pub plain_key : PushEnv → String → Option String
plain_key env api_key =
    if is_encrypted api_key
    then if str_eq env.encryption_key ""
      then none
      else decrypt_string env.cipher api_key env.encryption_key
    else some api_key

abbrev pub request_with :
    PushEnv → Downstream → CallEvent → Option String → Option String → Option PushRequest
request_with env ds e none key = none
request_with env ds e (some audio) none = none
request_with env ds e (some audio) (some key) = some (record {
  url = concat (env.trim_slashes ds.url) "/api/call-upload";
  api_key = key;
  audio_name = e.audio_name;
  audio = audio;
  fields = push_fields env.format_int e;
})

-- The request, or an error before there is one.
unfoldable pub request_of : PushEnv → Downstream → CallEvent → Option PushRequest
unfolding push_fields decrypt_string
request_of env ds e =
    let path = env.join env.recordings_dir e.audio_path in
    if escapes env path
    then none
    else request_with env ds e (env.read_file path) (plain_key env ds.api_key)

abbrev pub is_success : Option ℕ → Bool
is_success none = false
is_success (some status) = leb 200 status && ltb status 300

-- `pushCall`: `true` is no error.
unfoldable pub push_call : PushEnv → ℕ → Downstream → CallEvent → Bool
unfolding request_of
push_call env attempt ds e = elim (request_of env ds e) [
  | none ↦ false
  | some request ↦ is_success (env.http attempt request)
]

abbrev pub max_retries : ℕ
max_retries = 5

abbrev pub second : ℕ
second = 1_000_000_000

abbrev pub max_wait : ℕ
max_wait = 30 * second

abbrev pub capped : ℕ → ℕ
capped d = if ltb max_wait d then max_wait else d

-- How a push ends: at an attempt, after the last one, or with the context.
pub data PushEnd : Type 0 where
  pushed_at : ℕ → PushEnd
  gave_up cancelled : PushEnd

-- A round, by whether the attempt worked, was the last one, and was followed by the end of the
-- context; and what comes after the wait.
abbrev pub push_round : Bool → Bool → Bool → ℕ → ℕ → PushEnd × List ℕ → PushEnd × List ℕ
push_round worked last stopped attempt wait later =
    if worked
    then (pushed_at attempt, [])
    else if last
    then (gave_up, [])
    else if stopped
    then (cancelled, wait ∷ [])
    else (later.0, wait ∷ later.1)

-- The rounds that are left, the attempt, and the backoff; also the waits, in order.
unfoldable pub push_rounds : ℕ → PushEnv → Downstream → CallEvent → ℕ → ℕ → PushEnd × List ℕ
unfolding push_call
push_rounds zero env ds e attempt backoff = (gave_up, [])
push_rounds (suc left) env ds e attempt backoff =
    push_round (push_call env attempt ds e) (left == 0) (env.is_cancelled attempt) attempt
      (capped (backoff + env.random attempt (backoff / 2)))
      (push_rounds left env ds e (suc attempt) (capped (backoff * 2)))

unfoldable pub push_with_retry : PushEnv → Downstream → CallEvent → PushEnd × List ℕ
unfolding push_rounds
push_with_retry env ds e = push_rounds max_retries env ds e 0 second

-- The level of the log row that a push leaves.
abbrev pub log_level : PushEnd → Option String
log_level (pushed_at attempt) = some "info"
log_level gave_up = some "error"
log_level cancelled = none

-- ===== src/Middleware/ApiKey.antt =====
-- `APIKeyAuth` and `looksLikeJWT` of backend/internal/middleware/auth.go. The request's transports
-- are texts, "" where absent; the key table and SHA-256 and strings.TrimSpace are arguments.
pub mod Shape
pub mod Admission
use open_scanner.Base.{
  ℕ, ◌+◌, Bool, true, false, not, ◌&&◌, ◌||◌, Option, none, some, String, List, [], ◌∷◌, ◌==◌, ltb,
  leb, str_eq, if◌then◌else◌,
}
use Prim.Native.Char.{code}
use Prim.Native.String.{len, slice}
use text.Mathlib.Text.{starts_with}

-- The code points of a text; the program splits bytes, which at the dots comes to the same.
abbrev pub codes : String → List ℕ
codes String.[] = []
codes (String.◌∷◌ c s) = code c ∷ codes s

-- strings.Count(s, ".")
unfoldable pub count_dots : List ℕ → ℕ
count_dots [] = 0
count_dots (c ∷ cs) = (if c == b'.' then 1 else 0) + count_dots cs

abbrev onto_first : ℕ → List (List ℕ) → List (List ℕ)
onto_first c [] = (c ∷ []) ∷ []
onto_first c (p ∷ ps) = (c ∷ p) ∷ ps

-- strings.Split(s, ".")
unfoldable pub split_dots : List ℕ → List (List ℕ)
split_dots [] = [] ∷ []
split_dots (c ∷ cs) = if c == b'.' then [] ∷ split_dots cs else onto_first c (split_dots cs)

abbrev is_empty_part : List ℕ → Bool
is_empty_part [] = true
is_empty_part (c ∷ cs) = false

-- The loop over the parts.
unfoldable pub all_filled : List (List ℕ) → Bool
all_filled [] = true
all_filled (p ∷ ps) = if is_empty_part p then false else all_filled ps

-- `looksLikeJWT`, on the length in bytes and the code points.
unfoldable pub has_jwt_shape : ℕ → List ℕ → Bool
has_jwt_shape size s =
    if ltb size 20
    then false
    else if not (count_dots s == 2)
    then false
    else all_filled (split_dots s)

unfoldable pub looks_like_jwt : String → Bool
unfolding has_jwt_shape
looks_like_jwt s = has_jwt_shape (len s) (codes s)

pub record KeyRow : Type 0 where
  pub id : ℕ
  pub disabled : ℕ
  pub ident : Option String
  pub call_rate_limit : Option ℕ

pub record KeyEnv : Type 0 where
  pub trim_space : String → String
  -- `HashAPIKey`
  pub sha256_hex : String → String
  -- `GetAPIKeyByKey`; `none` is no row, or a failing query
  pub row_of : String → Option KeyRow

pub record KeyRequest : Type 0 where
  pub api_version : String
  pub authorization : String
  pub x_api_key : String
  pub query_key : String
  pub form_key : String

pub data KeyVerdict : Type 0 where
  -- 401 with a plain message
  denied : String → KeyVerdict
  -- 401 with the error envelope of v1: code and message
  denied_v1 : String → String → KeyVerdict
  -- the context gets the row's id, ident and rate
  admitted : ℕ → Option String → Option ℕ → KeyVerdict

abbrev pub is_v1 : KeyRequest → Bool
is_v1 req = str_eq req.api_version "v1"

-- The key of a v1 request.
abbrev pub bearer_key : KeyEnv → KeyRequest → String
bearer_key env req =
    if starts_with req.authorization "Bearer "
    then env.trim_space (slice req.authorization 7 (len req.authorization))
    else ""

-- The key of a legacy request: header, then query, then form.
abbrev pub legacy_key : KeyRequest → String
legacy_key req =
    if not (str_eq req.x_api_key "")
    then req.x_api_key
    else if not (str_eq req.query_key "")
    then req.query_key
    else req.form_key

abbrev row_verdict : Option KeyRow → KeyVerdict
row_verdict none = denied "invalid API key"
row_verdict (some row) =
    if not (row.disabled == 0)
    then denied "API key is disabled"
    else admitted row.id row.ident row.call_rate_limit

-- Behind the choice of the transport.
unfoldable pub check_key : KeyEnv → String → KeyVerdict
check_key env key =
    if str_eq key ""
    then denied "API key required"
    else if ltb 128 (len key)
    then denied "invalid API key"
    else row_verdict (env.row_of (env.sha256_hex key))

unfoldable pub api_key_auth : KeyEnv → KeyRequest → KeyVerdict
unfolding check_key
api_key_auth env req =
    if is_v1 req
    then if not (str_eq (bearer_key env req) "") && looks_like_jwt (bearer_key env req)
      then denied_v1 "invalid_credentials" "API key required (Authorization: Bearer)"
      else check_key env (bearer_key env req)
    else check_key env (legacy_key req)

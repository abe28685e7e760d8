-- ===== src/Session.antt =====
-- backend/internal/handler/auth/auth.go and backend/internal/auth/cookie.go: what the session
-- handlers share. A handler takes the request's environment, the server's state and the request, and
-- returns the new state and the response. One clock reading stands for all that a handler makes: the
-- environment's `now`, in nanoseconds.
pub mod Login
pub mod Refresh
pub mod Password
pub mod Logout
use open_scanner.Base.{
  ℕ, ◌+◌, ◌/◌, ◌*◌, Bool, true, false, Option, none, some, String, List, [], ◌∷◌, ◌++◌, ltb,
  if◌then◌else◌, ℤ, pos, negsuc, ltb_ℤ, str_eq, concat,
}
use open_scanner.Auth.RateLimiter.{RateLimiter, record_failure, is_locked_out}
use open_scanner.Auth.ReplayCache.{ReplayCache}
use open_scanner.Auth.Tokens.{TokenTracker, access_token_expiry}
use open_scanner.Store.{Db, User, Faults, create_log}

-- 30 * 24 * time.Hour, in seconds, as the handlers use it.
abbrev pub refresh_token_expiry : ℕ
refresh_token_expiry = 2_592_000

abbrev pub second : ℕ
second = 1_000_000_000

-- `Claims` with its registered claims; the times are nanoseconds.
pub record Claims : Type 0 where
  pub user_id : ℕ
  pub username : String
  pub role : String
  pub account_exp : ℤ
  pub jti : String
  pub issued_at : ℕ
  pub expires_at : ℕ

-- What the handlers take from outside: the clock, query failures, the random source, uuids, JWT
-- signing, bcrypt and SHA-256, and whether a hub is attached.
pub record Env : Type 0 where
  pub now : ℕ
  pub fails : Faults
  -- hex of 32 random bytes
  pub random : Option String
  pub uuid_jti : String
  pub uuid_family : String
  pub sign : Claims → Option String
  -- password, hash
  pub check_password : String → String → Bool
  pub hash_password : String → Option String
  -- hex of SHA-256
  pub sha256_hex : String → String
  pub has_hub : Bool

abbrev pub unix : Env → ℕ
unix env = env.now / second

pub data HubCall : Type 0 where
  disconnect_by_user : ℕ → HubCall
  disconnect_by_jti : String → HubCall

-- The handler's fields, the token tracker that is a global, and the calls made to the hub.
pub record Server : Type 0 where
  pub db : Db
  pub limiter : RateLimiter
  pub tracker : TokenTracker
  pub replay : ReplayCache
  pub hub : List HubCall

pub data SameSite : Type 0 where
  lax strict : SameSite

-- A Set-Cookie header; a `max_age` of -1 deletes the cookie, one of 0 makes it last the session.
pub record Cookie : Type 0 where
  pub same_site : SameSite
  pub name : String
  pub value : String
  pub max_age : ℤ
  pub path : String
  pub secure : Bool
  pub http_only : Bool

pub record LoginUser : Type 0 where
  pub id : ℕ
  pub username : String
  pub role : String

pub data Body : Type 0 where
  error : String → Body
  login_body : String → LoginUser → Bool → Body
  refresh_body : String → LoginUser → Body
  ok_body : Body

pub record Response : Type 0 where
  pub status : ℕ
  pub body : Body
  pub cookies : List Cookie

-- `isSecure`: the connection has TLS, or the proxy says that it had.
abbrev pub is_secure : Bool → String → Bool
is_secure tls forwarded_proto = if tls then true else str_eq forwarded_proto "https"

abbrev pub set_refresh_cookie : Bool → String → ℕ → Cookie
set_refresh_cookie secure token max_age = record {
  same_site = lax;
  name = "refresh_token";
  value = token;
  max_age = pos max_age;
  path = "/api";
  secure = secure;
  http_only = true;
}

abbrev pub clear_refresh_cookie : Bool → Cookie
clear_refresh_cookie secure = record {
  same_site = lax;
  name = "refresh_token";
  value = "";
  max_age = negsuc 0;
  path = "/api";
  secure = secure;
  http_only = true;
}

abbrev pub set_session_cookie : Bool → String → ℕ → Cookie
set_session_cookie secure token max_age = record {
  same_site = strict;
  name = "os_session";
  value = token;
  max_age = pos max_age;
  path = "/api";
  secure = secure;
  http_only = true;
}

abbrev pub clear_session_cookie : Bool → Cookie
clear_session_cookie secure = record {
  same_site = strict;
  name = "os_session";
  value = "";
  max_age = negsuc 0;
  path = "/api";
  secure = secure;
  http_only = true;
}

-- `GenerateToken`, with the token's id.
unfoldable pub generate_token : Env → ℕ → String → String → ℤ → Option (String × String)
generate_token env uid username role account_exp =
    elim (env.sign (record {
      user_id = uid;
      username = username;
      role = role;
      account_exp = account_exp;
      jti = env.uuid_jti;
      issued_at = env.now;
      expires_at = env.now + access_token_expiry;
    })) [ none ↦ none | some signed ↦ some (signed, env.uuid_jti) ]

-- `HashRefreshToken`
abbrev pub hash_refresh_token : Env → String → String
hash_refresh_token env raw = env.sha256_hex raw

-- `GenerateRefreshToken`: the raw token and its hash.
unfoldable pub generate_refresh_token : Env → Option (String × String)
generate_refresh_token env = elim env.random [
  | none ↦ none
  | some raw ↦ some (raw, env.sha256_hex raw)
]

-- `logAuthEvent`, to the table `logs`; a failure to write is ignored.
unfoldable pub log_auth_event : Env → Db → String → String → String → Db
log_auth_event env db level message ip =
    create_log env.fails db (unix env) level (concat message (concat " [ip=" (concat ip "]")))

-- `user.Expiration.Valid && user.Expiration.Int64 > 0 && now > user.Expiration.Int64`
abbrev pub is_expired_account : ℕ → Option ℤ → Bool
is_expired_account now none = false
is_expired_account now (some exp) = if ltb_ℤ (pos 0) exp then ltb_ℤ exp (pos now) else false

-- `accountExp`: the expiration, or 0.
abbrev pub account_exp_of : Option ℤ → ℤ
account_exp_of none = pos 0
account_exp_of (some exp) = exp

abbrev pub fail_with : ℕ → String → List Cookie → Response
fail_with status message cookies = record {
  status = status;
  body = error message;
  cookies = cookies;
}

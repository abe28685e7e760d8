-- ===== src/Session/Login.antt =====
-- `PostLogin`, and the limiter's middleware in front of it (backend/internal/middleware/limits.go).
pub mod Refusal
use open_scanner.Base.{
  ℕ, ◌+◌, ◌/◌, concat, Bool, true, false, not, ◌||◌, ◌&&◌, Option, none, some, String, List, [],
  ◌∷◌, ◌==◌, leb, str_eq, if◌then◌else◌,
}
use open_scanner.Auth.RateLimiter.{record_failure, is_locked_out, reset}
use open_scanner.Auth.Tokens.{track, access_token_expiry, max_refresh_families}
use open_scanner.Store.{
  Db, User, get_user_by_username, create_refresh_token, count_active_refresh_token_families,
  get_oldest_active_refresh_token_family, revoke_refresh_token_family,
}
use open_scanner.Session.{
  Env, Server, Response, Cookie, Body, error, login_body, unix, second, refresh_token_expiry,
  generate_token, generate_refresh_token, log_auth_event, is_expired_account, account_exp_of,
  fail_with, set_refresh_cookie, set_session_cookie,
}

pub record LoginRequest : Type 0 where
  pub ip : String
  pub secure : Bool
  -- what `ShouldBindJSON` makes of the body; it fails on a malformed one
  pub bound : Bool
  pub username : String
  pub password : String
  pub remember_me : Option Bool

-- A refused login: the failure is counted and logged, and the answer is the same for every reason.
unfoldable pub refuse : Env → Server → LoginRequest → String → Server × Response
unfolding log_auth_event
refuse env s req reason = (
  record s {
    limiter = (record_failure s.limiter req.ip env.now).0;
    db = log_auth_event env s.db "warn" reason req.ip;
  },
  fail_with 401 "invalid credentials" [],
)

-- Makes room for one more family: at the limit the oldest family is revoked. Errors are ignored.
abbrev evict_found : Env → Db → Option String → Db
evict_found env db none = db
evict_found env db (some family) = revoke_refresh_token_family env.fails db family

abbrev evict_counted : Env → Db → ℕ → Option ℕ → Db
evict_counted env db uid none = db
evict_counted env db uid (some count) =
    if leb max_refresh_families count
    then evict_found env db (get_oldest_active_refresh_token_family env.fails db uid (unix env))
    else db

unfoldable pub enforce_max_families : Env → Db → ℕ → Db
enforce_max_families env db uid =
    evict_counted env db uid (count_active_refresh_token_families env.fails db uid (unix env))

-- `req.RememberMe == nil || *req.RememberMe`
abbrev remembers : Option Bool → Bool
remembers none = true
remembers (some b) = b

abbrev server_error : Response
server_error = fail_with 500 "failed to generate token" []

-- From `CreateRefreshToken` on: the row was stored, or the handler gives up.
abbrev finish_login :
    Env → Server → LoginRequest → User → String → String → Option Db → Server × Response
finish_login env s req user token raw none = (s, server_error)
finish_login env s req user token raw (some db) = (
  record s { db = log_auth_event env db "info" (concat "login success: " user.username) req.ip },
  record {
    status = 200;
    body =
        login_body token (record { id = user.id; username = user.username; role = user.role })
          (not (user.password_need_change == 0));
    cookies =
        set_refresh_cookie req.secure raw
          (if remembers req.remember_me then refresh_token_expiry else 0)
        ∷ set_session_cookie req.secure token (access_token_expiry / second)
        ∷ [];
  },
)

abbrev login_refresh :
    Env → Server → LoginRequest → User → String → Option (String × String) → Server × Response
login_refresh env s req user token none = (s, server_error)
login_refresh env s req user token (some (raw, hash)) =
    let db = enforce_max_families env s.db user.id in
    finish_login env (record s { db = db }) req user token raw
      (create_refresh_token env.fails db user.id hash env.uuid_family
        (unix env + refresh_token_expiry) (unix env))

abbrev login_access :
    Env → Server → LoginRequest → User → Option (String × String) → Server × Response
login_access env s req user none = (s, server_error)
login_access env s req user (some (token, jti)) =
    login_refresh env
      (record s { tracker = track s.tracker user.id jti (env.now + access_token_expiry) env.now })
      req user token (generate_refresh_token env)

-- The handler behind the password check.
unfoldable pub issue : Env → Server → LoginRequest → User → Server × Response
unfolding enforce_max_families log_auth_event
issue env s req user =
    login_access env (record s { limiter = reset s.limiter req.ip }) req user
      (generate_token env user.id user.username user.role (account_exp_of user.expiration))

abbrev login_user : Env → Server → LoginRequest → Option User → Server × Response
login_user env s req none = refuse env s req "login failed: invalid username"
login_user env s req (some user) =
    if not (user.disabled == 0)
    then refuse env s req "login failed: disabled account"
    else if is_expired_account (unix env) user.expiration
    then refuse env s req "login failed: expired account"
    else if not (env.check_password req.password user.password_hash)
    then refuse env s req "login failed: wrong password"
    else issue env s req user

unfoldable pub post_login : Env → Server → LoginRequest → Server × Response
post_login env s req =
    if not req.bound || str_eq req.username "" || str_eq req.password ""
    then (s, fail_with 400 "username and password are required" [])
    else login_user env s req (get_user_by_username env.fails s.db req.username)

-- `RateLimit`, in front of a handler.
unfoldable pub rate_limit : Env → Server → String → Server × Response → Server × Response
rate_limit env s ip handled =
    if is_locked_out s.limiter ip env.now
    then (s, fail_with 429 "too many failed attempts, try again later" [])
    else handled

-- The route POST /auth/login.
unfoldable pub login_route : Env → Server → LoginRequest → Server × Response
unfolding rate_limit post_login
login_route env s req = rate_limit env s req.ip (post_login env s req)

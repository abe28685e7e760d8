-- ===== src/Session/Refresh.antt =====
-- `PostRefresh`, and the hourly clean-up of backend/cmd/server/main.go that shares its table.
pub mod Rotation
pub mod Replay
use open_scanner.Base.{
  ℕ, ◌+◌, ◌/◌, Bool, true, false, not, ◌||◌, ◌&&◌, Option, none, some, String, List, [], ◌∷◌, ◌==◌,
  ltb, str_eq, if◌then◌else◌,
}
use open_scanner.Auth.ReplayCache.{ReplayCacheEntry, put, get}
use open_scanner.Auth.Tokens.{track, access_token_expiry}
use open_scanner.Store.{
  Db, User, RefreshToken, get_user, get_refresh_token_by_hash, create_refresh_token,
  revoke_refresh_token, revoke_refresh_token_family, delete_expired_refresh_tokens,
}
use open_scanner.Session.{
  Env, Server, Response, Cookie, Body, error, refresh_body, unix, second, refresh_token_expiry,
  generate_token, generate_refresh_token, hash_refresh_token, log_auth_event, is_expired_account,
  account_exp_of, fail_with, set_refresh_cookie, set_session_cookie, clear_refresh_cookie,
}

pub record RefreshRequest : Type 0 where
  pub ip : String
  pub secure : Bool
  -- the cookie `refresh_token`, if the request has one
  pub cookie : Option String

-- The answer of a rotation, and of its replay: tokens in two cookies and the user in the body.
abbrev pub refreshed : Bool → String → String → ℕ → String → String → Response
refreshed secure access raw uid username role = record {
  status = 200;
  body = refresh_body access (record { id = uid; username = username; role = role });
  cookies =
      set_refresh_cookie secure raw refresh_token_expiry
      ∷ set_session_cookie secure access (access_token_expiry / second)
      ∷ [];
}

-- A 401 that also deletes the cookie.
abbrev pub rejected : RefreshRequest → String → Response
rejected req message = fail_with 401 message (clear_refresh_cookie req.secure ∷ [])

abbrev server_error : Response
server_error = fail_with 500 "failed to generate token" []

-- A revoked token: the cached answer, or theft, which revokes the whole family.
abbrev replayed_found :
    Env → Server → RefreshRequest → RefreshToken → Option ReplayCacheEntry → Server × Response
replayed_found env s req rt (some e) =
    (s, refreshed req.secure e.access_token e.refresh_raw e.user_id e.username e.role)
replayed_found env s req rt none = (
  record s {
    db =
        log_auth_event env (revoke_refresh_token_family env.fails s.db rt.family_id) "warn"
          "refresh token replay detected" req.ip;
  },
  rejected req "invalid refresh token",
)

unfoldable pub replayed : Env → Server → RefreshRequest → String → RefreshToken → Server × Response
replayed env s req hash rt =
    let (cache, found) = get s.replay hash env.now in
    replayed_found env (record s { replay = cache }) req rt found

abbrev store_rotated :
    Env
    → Server
    → RefreshRequest
    → String
    → RefreshToken
    → User
    → String
    → String
    → Option Db
    → Server × Response
store_rotated env s req hash rt user access raw none = (s, server_error)
store_rotated env s req hash rt user access raw (some db) = (
  record s {
    db = db;
    replay =
        put s.replay hash
          (record {
            access_token = access;
            refresh_raw = raw;
            user_id = user.id;
            username = user.username;
            role = user.role;
            family_id = rt.family_id;
            expires_at = 0;
          })
          env.now;
  },
  refreshed req.secure access raw user.id user.username user.role,
)

abbrev rotate_refresh :
    Env
    → Server
    → RefreshRequest
    → String
    → RefreshToken
    → User
    → String
    → Option (String × String)
    → Server × Response
rotate_refresh env s req hash rt user access none = (s, server_error)
rotate_refresh env s req hash rt user access (some (raw, new_hash)) =
    store_rotated env s req hash rt user access raw (
      create_refresh_token env.fails s.db user.id new_hash rt.family_id
        (unix env + refresh_token_expiry) (unix env))

abbrev rotate_access :
    Env
    → Server
    → RefreshRequest
    → String
    → RefreshToken
    → User
    → Option (String × String)
    → Server × Response
rotate_access env s req hash rt user none = (s, server_error)
rotate_access env s req hash rt user (some (access, jti)) =
    rotate_refresh env
      (record s { tracker = track s.tracker user.id jti (env.now + access_token_expiry) env.now })
      req hash rt user access (generate_refresh_token env)

abbrev rotate_user :
    Env → Server → RefreshRequest → String → RefreshToken → Option User → Server × Response
rotate_user env s req hash rt none = (s, rejected req "invalid refresh token")
rotate_user env s req hash rt (some user) =
    if not (user.disabled == 0)
    then (s, rejected req "invalid refresh token")
    else if is_expired_account (unix env) user.expiration
    then (s, rejected req "account expired")
    else rotate_access env s req hash rt user
        (generate_token env user.id user.username user.role (account_exp_of user.expiration))

-- A live token: it is revoked first, whatever comes of the rest.
unfoldable pub rotate : Env → Server → RefreshRequest → String → RefreshToken → Server × Response
rotate env s req hash rt =
    let db = revoke_refresh_token env.fails s.db rt.id in
    rotate_user env (record s { db = db }) req hash rt (get_user env.fails db rt.user_id)

abbrev refresh_found :
    Env → Server → RefreshRequest → String → Option RefreshToken → Server × Response
refresh_found env s req hash none = (s, rejected req "invalid refresh token")
refresh_found env s req hash (some rt) =
    if not (rt.revoked == 0)
    then replayed env s req hash rt
    else if ltb rt.expires_at (unix env)
    then (
      record s { db = revoke_refresh_token env.fails s.db rt.id },
      rejected req "refresh token expired",
    )
    else rotate env s req hash rt

abbrev no_token : Response
no_token = fail_with 401 "no refresh token" []

abbrev refresh_cookie : Env → Server → RefreshRequest → Option String → Server × Response
refresh_cookie env s req none = (s, no_token)
refresh_cookie env s req (some raw) =
    if str_eq raw ""
    then (s, no_token)
    else refresh_found env s req (hash_refresh_token env raw)
        (get_refresh_token_by_hash env.fails s.db (hash_refresh_token env raw))

unfoldable pub post_refresh : Env → Server → RefreshRequest → Server × Response
unfolding replayed rotate
post_refresh env s req = refresh_cookie env s req req.cookie

-- One tick of the hourly clean-up in `main`.
unfoldable pub cleanup_refresh_tokens : Env → Server → Server
cleanup_refresh_tokens env s = record s {
  db = delete_expired_refresh_tokens env.fails s.db (unix env) (unix env);
}

-- ===== src/Session/Password.antt =====
-- `PutPassword`. A missing or mistyped user id in the context reads as 0, which no row has.
pub mod Change
use open_scanner.Base.{
  ℕ, Bool, true, false, not, ◌||◌, Option, none, some, String, List, [], ◌∷◌, ◌++◌, ltb, str_eq,
  if◌then◌else◌,
}
use Prim.Native.String.{len}
use open_scanner.Auth.Tokens.{revoke_all_for_user}
use open_scanner.Store.{
  Db, User, get_user, update_user_password, revoke_all_refresh_tokens_for_user,
}
use open_scanner.Session.{
  Env, Server, Response, Body, ok_body, error, HubCall, disconnect_by_user, unix, fail_with,
}

pub record PasswordRequest : Type 0 where
  pub user_id : ℕ
  pub bound : Bool
  pub current_password : String
  pub new_password : String

-- Behind the update: every session of the user ends.
abbrev end_sessions : Env → Server → ℕ → Option Db → Server × Response
end_sessions env s uid none = (s, fail_with 500 "failed to update password" [])
end_sessions env s uid (some db) = (
  record s {
    db = revoke_all_refresh_tokens_for_user env.fails db uid;
    tracker = revoke_all_for_user s.tracker uid;
    hub = if env.has_hub then s.hub ++ (disconnect_by_user uid ∷ []) else s.hub;
  },
  record { status = 200; body = ok_body; cookies = [] },
)

abbrev store_hash : Env → Server → ℕ → Option String → Server × Response
store_hash env s uid none = (s, fail_with 500 "failed to hash password" [])
store_hash env s uid (some hash) =
    end_sessions env s uid (update_user_password env.fails s.db hash (unix env) uid)

abbrev change_user : Env → Server → PasswordRequest → Option User → Server × Response
change_user env s req none = (s, fail_with 500 "failed to load user" [])
change_user env s req (some user) =
    if not (env.check_password req.current_password user.password_hash)
    then (s, fail_with 401 "current password is incorrect" [])
    else store_hash env s req.user_id (env.hash_password req.new_password)

-- `len` counts bytes, as Go's does.
unfoldable pub put_password : Env → Server → PasswordRequest → Server × Response
put_password env s req =
    if not req.bound || str_eq req.current_password "" || str_eq req.new_password ""
    then (s, fail_with 400 "currentPassword and newPassword are required" [])
    else if ltb (len req.new_password) 8
    then (s, fail_with 400 "new password must be at least 8 characters" [])
    else if ltb 128 (len req.new_password)
    then (s, fail_with 400 "new password must be at most 128 characters" [])
    else change_user env s req (get_user env.fails s.db req.user_id)

-- ===== src/Session/Logout.antt =====
-- `PostLogout`. The middleware in front of it has put the token's id into the context.
use open_scanner.Base.{Bool, Option, none, some, String, [], ◌∷◌, ◌++◌, str_eq, if◌then◌else◌}
use open_scanner.Auth.Tokens.{revoke}
use open_scanner.Store.{Db, RefreshToken, get_refresh_token_by_hash, revoke_refresh_token_family}
use open_scanner.Session.{
  Env, Server, Response, ok_body, disconnect_by_jti, hash_refresh_token, clear_refresh_cookie,
  clear_session_cookie,
}

pub record LogoutRequest : Type 0 where
  pub secure : Bool
  pub jti : Option String
  pub cookie : Option String

abbrev drop_access : Env → Server → Option String → Server
drop_access env s none = s
drop_access env s (some jti) = record s {
  tracker = revoke s.tracker jti env.now;
  hub = if env.has_hub then s.hub ++ (disconnect_by_jti jti ∷ []) else s.hub;
}

abbrev drop_found : Env → Db → Option RefreshToken → Db
drop_found env db none = db
drop_found env db (some rt) = revoke_refresh_token_family env.fails db rt.family_id

abbrev drop_family : Env → Db → Option String → Db
drop_family env db none = db
drop_family env db (some raw) =
    if str_eq raw ""
    then db
    else drop_found env db (get_refresh_token_by_hash env.fails db (hash_refresh_token env raw))

unfoldable pub post_logout : Env → Server → LogoutRequest → Server × Response
post_logout env s req =
    let s' = drop_access env s req.jti in
    (
      record s' { db = drop_family env s'.db req.cookie },
      record {
        status = 200;
        body = ok_body;
        cookies = clear_refresh_cookie req.secure ∷ clear_session_cookie req.secure ∷ [];
      },
    )

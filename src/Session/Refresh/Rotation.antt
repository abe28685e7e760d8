-- ===== src/Session/Refresh/Rotation.antt =====
-- `PostRefresh` of backend/internal/handler/auth/auth.go: the rotation of a live token.
use open_scanner.Base.{
  suc, ◌+◌, ◌/◌, Bool, ◌≤◌, ◌≡◌, refl, ◌∙◌, false, some, String, arith, List, [], ◌∷◌, ◌++◌, ◌==◌,
  ltb, str_eq, eq_refl, any,
}
use open_scanner.Auth.ReplayCache.{put}
use open_scanner.Auth.Tokens.{track, access_token_expiry}
use open_scanner.Store.{
  User, RefreshToken, q_create_refresh_token, q_revoke_refresh_token, get_user,
  get_refresh_token_by_hash, create_refresh_token, revoke_refresh_token, find_first, revoke_where,
}
use open_scanner.Store.Rows.{
  has_hash, find_first-revoke_where, any-revoke_where, find_first-append, find_first-append_new,
  get_refresh_token_by_hash-found,
}
use open_scanner.Session.{
  Env, Server, Response, refresh_body, second, set_refresh_cookie, set_session_cookie, unix,
  refresh_token_expiry, generate_token, generate_refresh_token, is_expired_account, account_exp_of,
}
use open_scanner.Session.Refresh.{RefreshRequest, refreshed, post_refresh, rotate}

-- A request that carries a live refresh token of a usable account, with the random source, the
-- signer and the two writes at work and a new hash that is not taken.
pub record CanRotate (env : Env) (s : Server) (req : RefreshRequest) (raw : String)
    (rt : RefreshToken) (user : User) (access new_raw : String) : Type 0 where
  pub cookie : req.cookie ≡ some raw
  pub filled : str_eq raw "" ≡ false
  pub row : get_refresh_token_by_hash env.fails s.db (env.sha256_hex raw) ≡ some rt
  pub unrevoked : rt.revoked ≡ 0
  pub live : unix env ≤ rt.expires_at
  pub user_row : get_user env.fails s.db rt.user_id ≡ some user
  pub enabled : user.disabled ≡ 0
  pub unexpired : is_expired_account (unix env) user.expiration ≡ false
  pub signed :
      generate_token env user.id user.username user.role (account_exp_of user.expiration)
      ≡ some (access, env.uuid_jti)
  pub random : env.random ≡ some new_raw
  pub revoke_works : env.fails q_revoke_refresh_token ≡ false
  pub create_works : env.fails q_create_refresh_token ≡ false
  pub new_hash : any (has_hash (env.sha256_hex new_raw)) s.db.refresh_tokens ≡ false

-- The rows after a rotation: the presented one revoked, and its successor at the end.
abbrev pub rotated_rows : Env → Server → RefreshToken → User → String → List RefreshToken
rotated_rows env s rt user new_raw =
    revoke_where (λ t. t.id == rt.id) s.db.refresh_tokens
    ++ (record {
      id = s.db.next_token_id;
      user_id = user.id;
      token_hash = env.sha256_hex new_raw;
      family_id = rt.family_id;
      expires_at = unix env + refresh_token_expiry;
      revoked = 0;
      created_at = unix env;
    }
        ∷ [])

abbrev pub rotated_server : Env → Server → String → RefreshToken → User → String → String → Server
rotated_server env s raw rt user access new_raw = record s {
  db = record s.db {
    refresh_tokens = rotated_rows env s rt user new_raw;
    next_token_id = suc s.db.next_token_id;
  };
  tracker = track s.tracker user.id env.uuid_jti (env.now + access_token_expiry) env.now;
  replay =
      put s.replay (env.sha256_hex raw)
        (record {
          access_token = access;
          refresh_raw = new_raw;
          user_id = user.id;
          username = user.username;
          role = user.role;
          family_id = rt.family_id;
          expires_at = 0;
        })
        env.now;
}

-- What the client is to get: the access token in the body and the session cookie, the refresh token
-- in its own cookie for thirty days and nowhere else, and the user.
abbrev pub signed_in : Bool → String → String → User → Response
signed_in secure access raw user = record {
  status = 200;
  body = refresh_body access (record { id = user.id; username = user.username; role = user.role });
  cookies =
      set_refresh_cookie secure raw 2_592_000
      ∷ set_session_cookie secure access (access_token_expiry / second)
      ∷ [];
}

module _ (env : Env) (s : Server) (req : RefreshRequest) (raw : String) (rt : RefreshToken)
    (user : User) (access new_raw : String)
    (can : CanRotate env s req raw rt user access new_raw) where
  created :
      create_refresh_token env.fails
        (revoke_refresh_token env.fails s.db rt.id)
        user.id
        (env.sha256_hex new_raw)
        rt.family_id
        (unix env + refresh_token_expiry)
        (unix env)
      ≡ some (record s.db {
        refresh_tokens = rotated_rows env s rt user new_raw;
        next_token_id = suc s.db.next_token_id;
      })
  unfolding create_refresh_token revoke_refresh_token
  created = rw (
    can.revoke_works,
    can.create_works,
    any-revoke_where (λ t. t.id == rt.id) (env.sha256_hex new_raw) s.db.refresh_tokens,
    can.new_hash,
  )

  same_user : get_user env.fails (revoke_refresh_token env.fails s.db rt.id) rt.user_id ≡ some user
  unfolding get_user revoke_refresh_token
  same_user = rw can.revoke_works can.user_row

  not_late : ltb rt.expires_at (unix env) ≡ false
  not_late = ground (arith, can.live)

  -- The whole effect of a rotation.
  pub post_refresh-rotates : post_refresh env s req ≡ (
    rotated_server env s raw rt user access new_raw,
    refreshed req.secure access new_raw user.id user.username user.role,
  )
  unfolding post_refresh rotate generate_refresh_token
  post_refresh-rotates = rw (
    can.cookie, can.filled, can.row, can.unrevoked, not_late, same_user, can.enabled, can.unexpired,
    can.signed, can.random, created,
  )

  found : find_first (has_hash (env.sha256_hex raw)) s.db.refresh_tokens ≡ some rt
  found = get_refresh_token_by_hash-found env.fails s.db (env.sha256_hex raw) rt can.row

  pub find-rotated :
      find_first (has_hash (env.sha256_hex raw)) (rotated_rows env s rt user new_raw)
      ≡ some (record rt { revoked = 1 })
  find-rotated = find_first-append _ _ _ _ (
      find_first-revoke_where (λ t. t.id == rt.id) (env.sha256_hex raw) s.db.refresh_tokens
      ∙ rw found (ground arith))

  find-successor :
      find_first (has_hash (env.sha256_hex new_raw)) (rotated_rows env s rt user new_raw)
      ≡ some (record {
        id = s.db.next_token_id;
        user_id = user.id;
        token_hash = env.sha256_hex new_raw;
        family_id = rt.family_id;
        expires_at = unix env + refresh_token_expiry;
        revoked = 0;
        created_at = unix env;
      })
  find-successor =
      find_first-append_new _ _ _
        (any-revoke_where (λ t. t.id == rt.id) (env.sha256_hex new_raw) s.db.refresh_tokens
          ∙ can.new_hash)
        (eq_refl (env.sha256_hex new_raw))

  -- A live refresh token is good for one rotation. The handler answers 200, with a new access token
  -- in the body and the session cookie and a new refresh token in its own cookie only; the presented
  -- token is revoked from then on, its successor is live for thirty days in the same family and for
  -- the same user, the table is the old one with that id revoked and the successor at its end, and the
  -- new access token is tracked for the user.
  pub post_refresh-rotation :
      let (s', answer) = post_refresh env s req in
      (answer ≡ signed_in req.secure access new_raw user)
      × (find_first (has_hash (env.sha256_hex raw)) s'.db.refresh_tokens
          ≡ some (record rt { revoked = 1 }))
      × (find_first (has_hash (env.sha256_hex new_raw)) s'.db.refresh_tokens
          ≡ some (record {
            id = s.db.next_token_id;
            user_id = user.id;
            token_hash = env.sha256_hex new_raw;
            family_id = rt.family_id;
            expires_at = unix env + refresh_token_expiry;
            revoked = 0;
            created_at = unix env;
          }))
      × (s'.db.refresh_tokens ≡ rotated_rows env s rt user new_raw)
      × (s'.tracker ≡ track s.tracker user.id env.uuid_jti (env.now + access_token_expiry) env.now)
  post_refresh-rotation = rw post_refresh-rotates (refl, find-rotated, find-successor, refl, refl)

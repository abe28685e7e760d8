-- ===== src/Middleware/Identity/Revoked.antt =====
-- `PostLogout` seen by the middleware: backend/internal/middleware/auth.go.
use open_scanner.Base.{ℕ, ◌+◌, ◌≤◌, ◌<◌, ◌≡◌, true, some, String, List, All}
use open_scanner.Auth.Tokens.{
  TokenTracker, new_token_tracker, is_revoked, revoke, run, Event, access_token_expiry,
}
use open_scanner.Auth.Tokens.Denial.Steps.{Respects, RespectsInLife}
use open_scanner.Auth.Tokens.Denial.History.{revoke-lasting}
use open_scanner.Session.{Claims, Env, Server}
use open_scanner.Session.Logout.{LogoutRequest, post_logout}
use open_scanner.Middleware.Identity.{Gate, abort, has_bearer, bearer_token, jwt_auth, admin_gate}

jwt_auth-revoked :
    (g : Gate) (tr : TokenTracker) (header : String) (c : Claims)
    → has_bearer header ≡ true
    → g.verify (bearer_token header) ≡ some c
    → (is_revoked tr c.jti g.now).1 ≡ true
    → (jwt_auth g tr header).1 ≡ abort 401 "token has been revoked"
unfolding jwt_auth
jwt_auth-revoked g tr header c bearer known dead = rw (bearer, known, dead)

post_logout-tracker :
    (env : Env) (s : Server) (req : LogoutRequest) (jti : String)
    → req.jti ≡ some jti
    → (post_logout env s req).0.tracker ≡ revoke s.tracker jti env.now
unfolding post_logout
post_logout-tracker env s req jti h = rw h

admin_gate-abort :
    (g : Gate) (tr : TokenTracker) (header : String) (status : ℕ) (message : String)
    → (jwt_auth g tr header).1 ≡ abort status message
    → (admin_gate g tr header).1 ≡ abort status message
admin_gate-abort g tr header status message h = unfold admin_gate in rw h

-- After a logout the access token opens nothing. Say the server's tracker has been through any
-- history that tracks the token, if at all, for at least its life, `PostLogout` is called with the
-- token's id, at most fifteen minutes before the token's end, and any calls of the tracker follow in
-- the token's life. Then a request that carries the token, while it lives, is aborted with 401 by
-- `JWTAuth`, and so by the admin gate.
pub logout-jwt_auth :
    (env : Env) (s : Server) (req : LogoutRequest) (before later : List (ℕ × Event)) (g : Gate)
    (header : String) (c : Claims)
    → s.tracker ≡ run new_token_tracker before
    → All (Respects c.jti c.expires_at) before
    → req.jti ≡ some c.jti
    → c.expires_at ≤ env.now + access_token_expiry
    → All (RespectsInLife c.jti c.expires_at) later
    → has_bearer header ≡ true
    → g.verify (bearer_token header) ≡ some c
    → g.now < c.expires_at
    → let tr = run (post_logout env s req).0.tracker later in
      ((jwt_auth g tr header).1 ≡ abort 401 "token has been revoked")
      × ((admin_gate g tr header).1 ≡ abort 401 "token has been revoked")
logout-jwt_auth env s req before later g header c known respects own soon after bearer parsed
      lives =
    (closed, admin_gate-abort g _ header 401 "token has been revoked" closed)
  where
    dead : (is_revoked (run (post_logout env s req).0.tracker later) c.jti g.now).1 ≡ true
    dead =
        rw (post_logout-tracker env s req c.jti own, known)
          (revoke-lasting c.jti c.expires_at before later env.now g.now respects soon after lives)

    closed :
        (jwt_auth g (run (post_logout env s req).0.tracker later) header).1
        ≡ abort 401 "token has been revoked"
    closed = jwt_auth-revoked g _ header c bearer parsed dead

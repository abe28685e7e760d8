-- ===== src/Tests/SessionTests.antt =====
-- The handlers of backend/internal/handler/auth at concrete inputs.
use open_scanner.Base.{
  ℕ, ◌≤◌, ◌≡◌, refl, true, false, none, some, List, [], ◌∷◌, arith, str_eq, concat, pos,
}
use open_scanner.Auth.RateLimiter.{new_rate_limiter}
use open_scanner.Auth.ReplayCache.{
  new_replay_cache, refresh_replay_grace, get, Op, gets, run as run_cache,
}
use open_scanner.Auth.Tokens.{new_token_tracker, Event, tracks, run}
use open_scanner.Store.{
  q_get_refresh_token, User, RefreshToken, find_first, get_user, get_refresh_token_by_hash,
  get_user_by_username,
}
use open_scanner.Session.{Env, Server, Claims, fail_with, generate_token}
use open_scanner.Session.Login.{LoginRequest, post_login, login_route}
use open_scanner.Session.Login.Refusal.{
  post_login-refused, three_bad_logins-locked, IsRefusal, IsBadLogin,
}
use open_scanner.Session.Refresh.{RefreshRequest, post_refresh, rejected, cleanup_refresh_tokens}
use open_scanner.Session.Refresh.Rotation.{CanRotate, signed_in, post_refresh-rotation}
use open_scanner.Session.Refresh.Replay.{
  Presents, IsLater, post_refresh-theft, post_refresh-within_grace, post_refresh-after_grace,
  post_refresh-after_cleanup,
}
use open_scanner.Session.Logout.{LogoutRequest, post_logout}
use open_scanner.Session.Password.{PasswordRequest, put_password}
use open_scanner.Session.Password.Change.{put_password-Outcome, Outcome}
use open_scanner.Middleware.Identity.{Gate, jwt_auth, abort}
use open_scanner.Middleware.Identity.Revoked.{logout-jwt_auth}

abbrev env : Env
env = record {
  now = 5_000_000_000;
  fails = λ q. false;
  random = some "fresh";
  uuid_jti = "j";
  uuid_family = "g";
  sign = λ claims. some "access";
  check_password = λ password hash. str_eq password hash;
  hash_password = λ password. some password;
  sha256_hex = λ s. concat "#" s;
  has_hub = true;
}

abbrev ann : User
ann = record {
  id = 7;
  username = "ann";
  password_hash = "secret12";
  role = "listener";
  disabled = 0;
  systems_json = none;
  expiration = none;
  limit = none;
  password_need_change = 0;
  tg_selection_json = none;
  created_at = 0;
  updated_at = 0;
}

abbrev live_token : RefreshToken
live_token = record {
  id = 1;
  user_id = 7;
  token_hash = "#old";
  family_id = "f";
  expires_at = 100;
  revoked = 0;
  created_at = 1;
}

abbrev with_tokens : List RefreshToken → Server
with_tokens tokens = record {
  db = record { users = ann ∷ []; refresh_tokens = tokens; next_token_id = 2; logs = [] };
  limiter = new_rate_limiter;
  tracker = new_token_tracker;
  replay = new_replay_cache refresh_replay_grace;
  hub = [];
}

abbrev server : Server
server = with_tokens (live_token ∷ [])

abbrev request : RefreshRequest
request = record { ip = "10.0.0.1"; secure = true; cookie = some "old" }

can : CanRotate env server request "old" live_token ann "access" "fresh"
unfolding get_refresh_token_by_hash get_user find_first generate_token
can = record {
  cookie = refl;
  filled = refl;
  row = refl;
  unrevoked = refl;
  live = omega arith;
  user_row = refl;
  enabled = refl;
  unexpired = refl;
  signed = refl;
  random = refl;
  revoke_works = refl;
  create_works = refl;
  new_hash = refl;
}

post_refresh-rotation_example :
    (post_refresh env server request).1 ≡ signed_in true "access" "fresh" ann
post_refresh-rotation_example =
    (post_refresh-rotation env server request "old" live_token ann "access" "fresh" can).0

again :
    (e : Env)
    → e.sha256_hex "old" ≡ "#old"
    → e.fails q_get_refresh_token ≡ false
    → Presents e request "old" "#old"
again e same reads = record { cookie = refl; filled = refl; same_hash = same; reads = reads }

abbrev soon : Env
soon = record env { now = 35_000_000_000 }

abbrev late : Env
late = record env { now = 35_000_000_001 }

-- Somebody else's token was looked up since the rotation.
abbrev traffic : List (ℕ × Op)
traffic = (6_000_000_000, gets "#other") ∷ []

abbrev later : Server
later = record (post_refresh env server request).0 {
  replay = run_cache (post_refresh env server request).0.replay traffic;
}

later-IsLater :
    (e : Env) → 6_000_000_000 ≤ e.now → IsLater env server request "old" live_token e later traffic
later-IsLater e h = record {
  cache = refl;
  spared = ((h, tt), tt);
  row = (post_refresh-rotation env server request "old" live_token ann "access" "fresh" can).1;
}

post_refresh-within_grace_example :
    post_refresh soon later request ≡ (later, signed_in true "access" "fresh" ann)
post_refresh-within_grace_example =
    post_refresh-within_grace env server request "old" live_token ann "access" "fresh" can soon
      request (again soon refl refl) later traffic (later-IsLater soon (omega arith)) (omega arith)

post_refresh-after_grace_example :
    (post_refresh late later request).1 ≡ rejected request "invalid refresh token"
post_refresh-after_grace_example =
    (post_refresh-after_grace env server request "old" live_token ann "access" "fresh" can late
      request (again late refl refl) later traffic (later-IsLater late (omega arith)) (omega arith)
      refl).0

-- A stolen token: revoked, and no cached answer for it.
abbrev stolen : Server
stolen = with_tokens (record live_token { revoked = 1 } ∷ [])

post_refresh-theft_example :
    (post_refresh env stolen request).1 ≡ rejected request "invalid refresh token"
unfolding find_first get
post_refresh-theft_example =
    (post_refresh-theft env stolen request "old" "#old" (record live_token { revoked = 1 })
      (again env refl refl) refl refl refl refl).0

post_refresh-after_cleanup_example :
    post_refresh late (cleanup_refresh_tokens env stolen) request
    ≡ (cleanup_refresh_tokens env stolen, rejected request "invalid refresh token")
post_refresh-after_cleanup_example =
    post_refresh-after_cleanup late stolen env request "old" "#old" (again late refl refl) refl
      ((λ e. (refl, omega arith)), tt)

-- A database that answers nothing knows no user.
abbrev down : Env
down = record env { fails = λ q. true }

abbrev login : LoginRequest
login = record {
  ip = "10.0.0.1";
  secure = true;
  bound = true;
  username = "ann";
  password = "guess";
  remember_me = none;
}

post_login-refused_example : IsRefusal env server "10.0.0.1" (post_login env server login)
unfolding get_user_by_username find_first
post_login-refused_example = post_login-refused env server login refl refl

bad : (s : Server) → IsBadLogin "10.0.0.1" down s login
unfolding get_user_by_username
bad s = (refl, refl, refl)

abbrev third : Server
third = (login_route down (login_route down (login_route down server login).0 login).0 login).0

-- The right password, after three guesses.
three_bad_logins-locked_example :
    login_route env third (record login { password = "secret12" })
    ≡ (third, fail_with 429 "too many failed attempts, try again later" [])
three_bad_logins-locked_example =
    three_bad_logins-locked down down down env server login login login
      (record login { password = "secret12" }) refl (bad server)
      (bad (login_route down server login).0)
      (bad (login_route down (login_route down server login).0 login).0) (omega arith)

abbrev change : PasswordRequest
change = record {
  user_id = 7;
  bound = true;
  current_password = "secret12";
  new_password = "secret34";
}

put_password-Outcome_example : Outcome env server change (put_password env server change)
put_password-Outcome_example = put_password-Outcome env server change

abbrev access_claims : Claims
access_claims = record {
  user_id = 7;
  username = "ann";
  role = "admin";
  account_exp = pos 0;
  jti = "a";
  issued_at = 0;
  expires_at = 900_000_000_000;
}

abbrev gate : Gate
gate = record { now = 6_000_000_000; verify = λ token. some access_claims }

abbrev logout : LogoutRequest
logout = record { secure = true; jti = some "a"; cookie = none }

abbrev calls : List (ℕ × Event)
calls = (1, tracks 7 "a" 900_000_000_000) ∷ []

logout-jwt_auth_example :
    (jwt_auth gate
      (run
        (post_logout env (record server { tracker = run new_token_tracker calls }) logout).0.tracker
        [])
      "Bearer x").1
    ≡ abort 401 "token has been revoked"
logout-jwt_auth_example =
    (logout-jwt_auth env (record server { tracker = run new_token_tracker calls }) logout calls []
      gate "Bearer x" access_claims refl ((λ e. omega arith), tt) refl (omega arith) tt refl refl
      (omega arith)).0

-- ===== src/Session/Login/Refusal.antt =====
-- `PostLogin` of backend/internal/handler/auth/auth.go: the logins that are refused.
use open_scanner.Base.{
  ℕ, ◌+◌, ◌<◌, ◌≡◌, refl, inl, inr, Bool, true, false, not, ◌||◌, ◌&&◌, Option, none, some, String,
  arith, [], ◌==◌, str_eq, Bool-cases, ◌∙◌, lt→ltb,
}
use open_scanner.Auth.RateLimiter.{RateLimiter, record_failure, is_locked_out, lockout_duration}
use open_scanner.Auth.RateLimiter.Lockout.{three_failures-lock}
use open_scanner.Store.{User, get_user_by_username, create_log}
use open_scanner.Session.{Env, Server, Response, unix, is_expired_account, fail_with}
use open_scanner.Session.Login.{LoginRequest, refuse, login_user, post_login, login_route}

-- The credentials are those of an account that is enabled and has not run out.
abbrev pub admits : Env → LoginRequest → Option User → Bool
admits env req none = false
admits env req (some user) =
    user.disabled == 0
    && not (is_expired_account (unix env) user.expiration)
    && env.check_password req.password user.password_hash

-- The request has a body with both fields.
abbrev pub is_filled : LoginRequest → Bool
is_filled req = req.bound && not (str_eq req.username "") && not (str_eq req.password "")

-- What a refusal does: one more failure of the address, and the one generic answer. Users, refresh
-- tokens, access tokens, cached answers and hub calls stay as they were.
pub record IsRefusal (env : Env) (s : Server) (ip : String) (r : Server × Response) : Type 0 where
  pub answer : r.1 ≡ fail_with 401 "invalid credentials" []
  pub limiter : r.0.limiter ≡ (record_failure s.limiter ip env.now).0
  pub users : r.0.db.users ≡ s.db.users
  pub refresh_tokens : r.0.db.refresh_tokens ≡ s.db.refresh_tokens
  pub tracker : r.0.tracker ≡ s.tracker
  pub replay : r.0.replay ≡ s.replay
  pub hub : r.0.hub ≡ s.hub

refuse-IsRefusal :
    (env : Env) (s : Server) (req : LoginRequest) (reason : String)
    → IsRefusal env s req.ip (refuse env s req reason)
unfolding refuse create_log
refuse-IsRefusal env s req reason = record {
  answer = refl;
  limiter = refl;
  users = ground arith;
  refresh_tokens = ground arith;
  tracker = refl;
  replay = refl;
  hub = refl;
}

login_user-IsRefusal :
    (env : Env) (s : Server) (req : LoginRequest) (o : Option User)
    → admits env req o ≡ false
    → IsRefusal env s req.ip (login_user env s req o)
login_user-IsRefusal env s req none h = refuse-IsRefusal env s req _
login_user-IsRefusal env s req (some user) h = elim (Bool-cases (user.disabled == 0)) [
  | inr d ↦ rw d (refuse-IsRefusal env s req _)
  | inl d ↦ elim (Bool-cases (is_expired_account (unix env) user.expiration)) [
    | inl x ↦ rw (d, x) (refuse-IsRefusal env s req _)
    | inr x ↦ elim (Bool-cases (env.check_password req.password user.password_hash)) [
      | inl p ↦ absurd (wrong d x p)
      | inr p ↦ rw (d, x, p) (refuse-IsRefusal env s req _)
    ]
  ]
]
  where
    wrong :
        (user.disabled == 0) ≡ true
        → is_expired_account (unix env) user.expiration ≡ false
        → env.check_password req.password user.password_hash ≡ true
        → ⊥
    wrong d x p = ground arith

-- A filled-in login either is for an enabled, unexpired account with the right password, and then
-- goes on to issue tokens, or it is refused: an unknown name, a disabled or an expired account and a
-- wrong password all get the same answer, count one failure of the address, and leave users, tokens,
-- cached answers and hub calls alone.
pub post_login-refused :
    (env : Env) (s : Server) (req : LoginRequest)
    → is_filled req ≡ true
    → admits env req (get_user_by_username env.fails s.db req.username) ≡ false
    → IsRefusal env s req.ip (post_login env s req)
unfolding post_login
post_login-refused env s req filled h =
    let open_door : (not req.bound || str_eq req.username "" || str_eq req.password "") ≡ false =
      ground arith in
    rw open_door
      (login_user-IsRefusal env s req (get_user_by_username env.fails s.db req.username) h)

pub login_route-refused :
    (env : Env) (s : Server) (req : LoginRequest)
    → is_filled req ≡ true
    → admits env req (get_user_by_username env.fails s.db req.username) ≡ false
    → is_locked_out s.limiter req.ip env.now ≡ false
    → IsRefusal env s req.ip (login_route env s req)
unfolding login_route
login_route-refused env s req filled h unlocked =
    rw unlocked (post_login-refused env s req filled h)

-- A bad login from the address: filled in, and not admitted by the state that it meets.
abbrev pub IsBadLogin : String → Env → Server → LoginRequest → Type 0
IsBadLogin ip env s req =
    (req.ip ≡ ip)
    × (is_filled req ≡ true)
    × (admits env req (get_user_by_username env.fails s.db req.username) ≡ false)

fresh-unlocked :
    (r : RateLimiter) (ip : String) (t : ℕ) → r.entries ip ≡ none → is_locked_out r ip t ≡ false
unfolding is_locked_out
fresh-unlocked r ip t h = rw h

-- A bad login that is let in counts one failure of its address.
bad-limiter :
    (ip : String) (env : Env) (s : Server) (req : LoginRequest) (r : RateLimiter)
    → s.limiter ≡ r
    → IsBadLogin ip env s req
    → is_locked_out r ip env.now ≡ false
    → (login_route env s req).0.limiter ≡ (record_failure r ip env.now).0
bad-limiter ip env s req r at_r (own, filled, bad) unlocked =
    (login_route-refused env s req filled bad (rw (at_r, own) unlocked)).limiter ∙ rw (at_r, own)

-- Brute force is stopped. When three bad logins in a row have come from an address with no failures
-- on record, at any times and for any accounts, then every login from that address within ten
-- minutes of the third is answered 429 and changes nothing, the right password included.
pub three_bad_logins-locked :
    (e1 e2 e3 e4 : Env) (s : Server) (r1 r2 r3 r4 : LoginRequest)
    → s.limiter.entries r4.ip ≡ none
    → IsBadLogin r4.ip e1 s r1
    → IsBadLogin r4.ip e2 (login_route e1 s r1).0 r2
    → IsBadLogin r4.ip e3 (login_route e2 (login_route e1 s r1).0 r2).0 r3
    → e4.now < e3.now + lockout_duration
    → let s3 = (login_route e3 (login_route e2 (login_route e1 s r1).0 r2).0 r3).0 in
      login_route e4 s3 r4 ≡ (s3, fail_with 429 "too many failed attempts, try again later" [])
three_bad_logins-locked e1 e2 e3 e4 s r1 r2 r3 r4 fresh b1 b2 b3 soon =
    unfold login_route in rw locked
  where
    l1 : RateLimiter
    l1 = (record_failure s.limiter r4.ip e1.now).0

    l2 : RateLimiter
    l2 = (record_failure l1 r4.ip e2.now).0

    s1 : Server
    s1 = (login_route e1 s r1).0

    s2 : Server
    s2 = (login_route e2 s1 r2).0

    at1 : s1.limiter ≡ l1
    at1 = bad-limiter r4.ip e1 s r1 s.limiter refl b1 (fresh-unlocked s.limiter r4.ip e1.now fresh)

    at2 : s2.limiter ≡ l2
    at2 =
        bad-limiter r4.ip e2 s1 r2 l1 at1 b2
          (three_failures-lock s.limiter r4.ip e1.now e2.now e3.now e2.now fresh).3

    at3 : (login_route e3 s2 r3).0.limiter ≡ (record_failure l2 r4.ip e3.now).0
    at3 =
        bad-limiter r4.ip e3 s2 r3 l2 at2 b3
          (three_failures-lock s.limiter r4.ip e1.now e2.now e3.now e3.now fresh).4

    locked : is_locked_out (login_route e3 s2 r3).0.limiter r4.ip e4.now ≡ true
    locked = rw at3 (
        (three_failures-lock s.limiter r4.ip e1.now e2.now e3.now e4.now fresh).5
        ∙ lt→ltb e4.now (e3.now + lockout_duration) soon)

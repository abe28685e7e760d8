-- ===== src/Session/Password/Change.antt =====
-- `PutPassword` of backend/internal/handler/auth/auth.go: its outcomes.
use open_scanner.Base.{
  ℕ, ◌≤◌, ◌≡◌, ◌≢◌, refl, ◌⊎◌, inl, inr, Bool, true, not, ◌||◌, Option, none, some, String, arith,
  [], ◌∷◌, ◌++◌, ltb, str_eq, if◌then◌else◌, Bool-cases, ◌==◌, ◌∙◌, ap,
}
use Prim.Native.String.{len}
use open_scanner.Auth.Tokens.{revoke_all_for_user}
use open_scanner.Store.{
  Query, Db, User, RefreshToken, get_user, update_user_password, update_users,
  revoke_all_refresh_tokens_for_user, revoke_where, q_revoke_all_for_user,
}
use open_scanner.Session.{Env, Server, Response, disconnect_by_user, unix}
use open_scanner.Session.Password.{
  PasswordRequest, put_password, change_user, store_hash, end_sessions,
}

-- The row belongs to the user.
abbrev pub is_owned : ℕ → RefreshToken → Bool
is_owned uid t = t.user_id == uid

-- What a change does, for the user's row and the new hash.
pub record IsChange (env : Env) (s : Server) (req : PasswordRequest) (user : User) (hash : String)
    (r : Server × Response) : Type 0 where
  pub long_enough : 8 ≤ len req.new_password
  pub short_enough : len req.new_password ≤ 128
  pub row : get_user env.fails s.db req.user_id ≡ some user
  pub proved : env.check_password req.current_password user.password_hash ≡ true
  pub hashed : env.hash_password req.new_password ≡ some hash
  pub users :
      r.0.db.users
      ≡ update_users
          (λ u. record u { password_hash = hash; password_need_change = 0; updated_at = unix env })
          req.user_id
          s.db.users
  pub refresh_tokens : r.0.db.refresh_tokens ≡ (
      if env.fails q_revoke_all_for_user
      then s.db.refresh_tokens
      else revoke_where (is_owned req.user_id) s.db.refresh_tokens)
  pub tracker : r.0.tracker ≡ revoke_all_for_user s.tracker req.user_id
  pub hub :
      r.0.hub ≡ (if env.has_hub then s.hub ++ (disconnect_by_user req.user_id ∷ []) else s.hub)

abbrev pub Outcome : Env → Server → PasswordRequest → Server × Response → Type 0
Outcome env s req r =
    ((r.0 ≡ s) × (r.1.status ≢ 200))
    ⊎ ((user : User) × (hash : String) × IsChange env s req user hash r)

update_user_password-rows :
    (fails : Query → Bool) (db db' : Db) (hash : String) (now uid : ℕ)
    → update_user_password fails db hash now uid ≡ some db'
    → (db'.users
        ≡ update_users
            (λ u. record u { password_hash = hash; password_need_change = 0; updated_at = now })
            uid
            db.users)
      × (db'.refresh_tokens ≡ db.refresh_tokens)
unfolding update_user_password
update_user_password-rows fails db db' hash now uid h = ground arith

revoke_all-rows :
    (fails : Query → Bool) (db : Db) (uid : ℕ)
    → let db' = revoke_all_refresh_tokens_for_user fails db uid in
      (db'.users ≡ db.users)
      × (db'.refresh_tokens ≡ (
          if fails q_revoke_all_for_user
          then db.refresh_tokens
          else revoke_where (is_owned uid) db.refresh_tokens))
unfolding revoke_all_refresh_tokens_for_user
revoke_all-rows fails db uid = ground arith

stored :
    (env : Env) (s : Server) (req : PasswordRequest) (user : User) (hash : String) (o : Option Db)
    → update_user_password env.fails s.db hash (unix env) req.user_id ≡ o
    → 8 ≤ len req.new_password
    → len req.new_password ≤ 128
    → get_user env.fails s.db req.user_id ≡ some user
    → env.check_password req.current_password user.password_hash ≡ true
    → env.hash_password req.new_password ≡ some hash
    → Outcome env s req (end_sessions env s req.user_id o)
stored env s req user hash none e lo hi row ok hashed = inl (refl, omega arith)
stored env s req user hash (some db) e lo hi row ok hashed = inr (
  user,
  hash,
  record {
    long_enough = lo;
    short_enough = hi;
    row = row;
    proved = ok;
    hashed = hashed;
    users = (revoke_all-rows env.fails db req.user_id).0 ∙ known.0;
    refresh_tokens =
        (revoke_all-rows env.fails db req.user_id).1
        ∙ ap
            (λ ts.
              if env.fails q_revoke_all_for_user
              then ts
              else revoke_where (is_owned req.user_id) ts)
            known.1;
    tracker = refl;
    hub = refl;
  },
)
  where
    known :
        (db.users
          ≡ update_users
              (λ u. record u {
                password_hash = hash;
                password_need_change = 0;
                updated_at = unix env;
              })
              req.user_id
              s.db.users)
        × (db.refresh_tokens ≡ s.db.refresh_tokens)
    known = update_user_password-rows env.fails s.db db hash (unix env) req.user_id e

hashed-Outcome :
    (env : Env) (s : Server) (req : PasswordRequest) (user : User) (o : Option String)
    → env.hash_password req.new_password ≡ o
    → 8 ≤ len req.new_password
    → len req.new_password ≤ 128
    → get_user env.fails s.db req.user_id ≡ some user
    → env.check_password req.current_password user.password_hash ≡ true
    → Outcome env s req (store_hash env s req.user_id o)
hashed-Outcome env s req user none e lo hi row ok = inl (refl, omega arith)
hashed-Outcome env s req user (some hash) e lo hi row ok =
    stored env s req user hash (update_user_password env.fails s.db hash (unix env) req.user_id)
      refl lo hi row ok e

change_user-Outcome :
    (env : Env) (s : Server) (req : PasswordRequest) (o : Option User)
    → get_user env.fails s.db req.user_id ≡ o
    → 8 ≤ len req.new_password
    → len req.new_password ≤ 128
    → Outcome env s req (change_user env s req o)
change_user-Outcome env s req none e lo hi = inl (refl, omega arith)
change_user-Outcome env s req (some user) e lo hi =
    elim (Bool-cases (env.check_password req.current_password user.password_hash)) [
      | inl ok ↦
          rw ok (hashed-Outcome env s req user (env.hash_password req.new_password) refl lo hi e ok)
      | inr bad ↦ rw bad (inl (refl, omega arith))
    ]

-- A password change either is refused, with an error status and the server's state untouched, or
-- it happens whole: only for a new password of 8 to 128 bytes and the right current password of the
-- user's row; the new hash is stored, the user's tracked access tokens are revoked, all the user's
-- refresh tokens are revoked unless the database refuses that write, and the hub, if there is one,
-- is told to disconnect the user.
pub put_password-Outcome :
    (env : Env) (s : Server) (req : PasswordRequest) → Outcome env s req (put_password env s req)
unfolding put_password
put_password-Outcome env s req =
    elim (Bool-cases
      (not req.bound || str_eq req.current_password "" || str_eq req.new_password "")) [
        | inl e ↦ rw e (inl (refl, omega arith))
        | inr e ↦ elim (Bool-cases (ltb (len req.new_password) 8)) [
          | inl short ↦ rw (e, short) (inl (refl, omega arith))
          | inr lo ↦ elim (Bool-cases (ltb 128 (len req.new_password))) [
            | inl long ↦ rw (e, lo, long) (inl (refl, omega arith))
            | inr hi ↦
                rw (e, lo, hi)
                  (change_user-Outcome env s req (get_user env.fails s.db req.user_id) refl
                    (ground arith) (ground arith))
          ]
        ]
      ]

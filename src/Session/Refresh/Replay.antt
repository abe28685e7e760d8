-- ===== src/Session/Refresh/Replay.antt =====
-- `PostRefresh` of backend/internal/handler/auth/auth.go: a token that is presented again.
use open_scanner.Base.{
  ◌+◌, ◌≤◌, ◌<◌, ◌≡◌, refl, sym, ◌∙◌, ap, ℕ, Bool, true, false, none, some, String, List, str_eq,
  All,
}
use open_scanner.Auth.ReplayCache.{ReplayCache, ReplayCacheEntry, Op, get, run}
use open_scanner.Auth.ReplayCache.Window.{Spares, get-run-put_within, get-run-put_after}
use open_scanner.Store.{
  User, RefreshToken, q_get_refresh_token, q_revoke_family, q_delete_expired,
  revoke_refresh_token_family, find_first, revoke_where,
}
use open_scanner.Store.Rows.{
  has_hash, get_refresh_token_by_hash-works, RevokedWhere, revoke_where-RevokedWhere,
  revoke_refresh_token_family-rows, create_log-rows, delete_expired-find,
}
use open_scanner.Session.{Env, Server, Response, unix, log_auth_event}
use open_scanner.Session.Refresh.{
  RefreshRequest, refreshed, rejected, post_refresh, replayed, cleanup_refresh_tokens,
}
use open_scanner.Session.Refresh.Rotation.{
  CanRotate, rotated_server, signed_in, post_refresh-rotates,
}

-- A later request that presents the same cookie to a database that can be read.
pub record Presents (env : Env) (req : RefreshRequest) (raw : String) (hash : String) : Type 0 where
  pub cookie : req.cookie ≡ some raw
  pub filled : str_eq raw "" ≡ false
  pub same_hash : env.sha256_hex raw ≡ hash
  pub reads : env.fails q_get_refresh_token ≡ false

-- The row is revoked, so the cache decides.
post_refresh-revoked :
    (env : Env) (s : Server) (req : RefreshRequest) (raw hash : String) (rt : RefreshToken)
    → Presents env req raw hash
    → find_first (has_hash hash) s.db.refresh_tokens ≡ some rt
    → rt.revoked ≡ 1
    → post_refresh env s req ≡ replayed env s req hash rt
unfolding post_refresh
post_refresh-revoked env s req raw hash rt p row dead = rw (
  p.cookie,
  p.filled,
  p.same_hash,
  get_refresh_token_by_hash-works env.fails s.db hash p.reads,
  row,
  dead,
)

-- The row belongs to the family.
abbrev pub in_family : String → RefreshToken → Bool
in_family family t = str_eq t.family_id family

-- A revoked token that no cached answer covers is taken for theft: the request is refused, its
-- cookie deleted, and every token of the family is revoked, the thief's and the owner's, if the
-- database takes the write. No token is issued and no other family is touched.
pub post_refresh-theft :
    (env : Env) (s : Server) (req : RefreshRequest) (raw hash : String) (rt : RefreshToken)
    → Presents env req raw hash
    → find_first (has_hash hash) s.db.refresh_tokens ≡ some rt
    → rt.revoked ≡ 1
    → (get s.replay hash env.now).1 ≡ none
    → env.fails q_revoke_family ≡ false
    → let (s', answer) = post_refresh env s req in
      (answer ≡ rejected req "invalid refresh token")
      × RevokedWhere (in_family rt.family_id) s'.db.refresh_tokens
      × (s'.db.refresh_tokens ≡ revoke_where (in_family rt.family_id) s.db.refresh_tokens)
      × (s'.tracker ≡ s.tracker)
post_refresh-theft env s req raw hash rt p row dead uncached writes =
    rw (post_refresh-revoked env s req raw hash rt p row dead) (
      unfold replayed in
      rw uncached (
        refl,
        rw rows (revoke_where-RevokedWhere (in_family rt.family_id) s.db.refresh_tokens),
        rows,
        refl,
      ))
  where
    rows :
        (log_auth_event env
          (revoke_refresh_token_family env.fails s.db rt.family_id)
          "warn"
          "refresh token replay detected"
          req.ip).refresh_tokens
        ≡ revoke_where (in_family rt.family_id) s.db.refresh_tokens
    rows =
        unfold log_auth_event in
        (create_log-rows env.fails _ _ _ _
          ∙ revoke_refresh_token_family-rows env.fails s.db rt.family_id writes)

-- An answer that the cache has.
replayed-hit :
    (env : Env) (s : Server) (req : RefreshRequest) (hash : String) (rt : RefreshToken)
    (c : ReplayCache) (e : ReplayCacheEntry)
    → get s.replay hash env.now ≡ (c, some e)
    → c ≡ s.replay
    → replayed env s req hash rt
      ≡ (s, refreshed req.secure e.access_token e.refresh_raw e.user_id e.username e.role)
unfolding replayed
replayed-hit env s req hash rt c e hit same = rw (hit, same) refl

-- A server some time after a rotation: the rotated token's row is still there, and the replay cache has
-- meanwhile taken operations on other hashes and look-ups of any, none later than `env'`.
pub record IsLater (env : Env) (s : Server) (req : RefreshRequest) (raw : String)
    (rt : RefreshToken) (env' : Env) (s' : Server) (ops : List (ℕ × Op)) : Type 0 where
  pub cache : s'.replay ≡ run (post_refresh env s req).0.replay ops
  pub spared : All (λ p. (p.0 ≤ env'.now) × Spares (env.sha256_hex raw) p.1) ops
  pub row :
      find_first (has_hash (env.sha256_hex raw)) s'.db.refresh_tokens
      ≡ some (record rt { revoked = 1 })

module _ (env : Env) (s : Server) (req : RefreshRequest) (raw : String) (rt : RefreshToken)
    (user : User) (access new_raw : String) (can : CanRotate env s req raw rt user access new_raw)
    (env' : Env) (req' : RefreshRequest) (again : Presents env' req' raw (env.sha256_hex raw))
    (s' : Server) (ops : List (ℕ × Op)) (later : IsLater env s req raw rt env' s' ops) where
  cache_of : s'.replay ≡ run (rotated_server env s raw rt user access new_raw).replay ops
  cache_of =
      later.cache
      ∙ ap (λ (r : Server × Response). run r.0.replay ops)
          (post_refresh-rotates env s req raw rt user access new_raw can)

  -- Presenting a rotated token again within the grace is harmless, as long as its row is there and
  -- whatever else the server did: the second answer carries the access token, the refresh token and
  -- the user of the first, and the server's state does not change.
  pub post_refresh-within_grace :
      env'.now ≤ env.now + s.replay.ttl
      → post_refresh env' s' req' ≡ (s', signed_in req'.secure access new_raw user)
  post_refresh-within_grace soon =
      post_refresh-revoked env' s' req' raw (env.sha256_hex raw) (record rt { revoked = 1 }) again
        later.row refl
      ∙ replayed-hit env' s' req' (env.sha256_hex raw) (record rt { revoked = 1 })
          (run (rotated_server env s raw rt user access new_raw).replay ops) _
          (ap (λ c. get c (env.sha256_hex raw) env'.now) cache_of
            ∙ get-run-put_within s.replay (env.sha256_hex raw) _ env.now env'.now ops later.spared
                soon)
          (sym cache_of)

  -- Presenting it after the grace ends the family, as long as its row is there and whatever else the
  -- server did: the request is refused and every token that is then of the family is revoked, if the
  -- database takes the write.
  pub post_refresh-after_grace :
      env.now + s.replay.ttl < env'.now
      → env'.fails q_revoke_family ≡ false
      → let (s'', answer) = post_refresh env' s' req' in
        (answer ≡ rejected req' "invalid refresh token")
        × RevokedWhere (in_family rt.family_id) s''.db.refresh_tokens
        × (s''.db.refresh_tokens ≡ revoke_where (in_family rt.family_id) s'.db.refresh_tokens)
        × (s''.tracker ≡ s'.tracker)
  post_refresh-after_grace late writes =
      post_refresh-theft env' s' req' raw (env.sha256_hex raw) (record rt { revoked = 1 }) again
        later.row refl
        (ap (λ c. (get c (env.sha256_hex raw) env'.now).1) cache_of
          ∙ get-run-put_after s.replay (env.sha256_hex raw) _ env.now env'.now ops later.spared
              late)
        writes

-- The hourly clean-up forgets what was rotated. If all rows with the presented hash are revoked and
-- were created before the clean-up's second, then after it the same token is refused like an unknown
-- one at every later time: no family is revoked, so a successor in the thief's hands stays usable.
pub post_refresh-after_cleanup :
    (env : Env) (s : Server) (tick : Env) (req : RefreshRequest) (raw hash : String)
    → Presents env req raw hash
    → tick.fails q_delete_expired ≡ false
    → All
        (λ t. has_hash hash t ≡ true → (t.revoked ≡ 1) × (t.created_at < unix tick))
        s.db.refresh_tokens
    → post_refresh env (cleanup_refresh_tokens tick s) req
      ≡ (cleanup_refresh_tokens tick s, rejected req "invalid refresh token")
unfolding post_refresh
post_refresh-after_cleanup env s tick req raw hash p works spent = rw (
  p.cookie,
  p.filled,
  p.same_hash,
  get_refresh_token_by_hash-works env.fails (cleanup_refresh_tokens tick s).db hash p.reads,
  unknown,
)
  where
    unknown : find_first (has_hash hash) (cleanup_refresh_tokens tick s).db.refresh_tokens ≡ none
    unknown =
        unfold cleanup_refresh_tokens in
        delete_expired-find tick.fails s.db hash (unix tick) (unix tick) works spent

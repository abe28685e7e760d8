-- ===== src/Auth/ReplayCache.antt =====
-- backend/internal/handler/auth/replay_cache.go: the answers to recent refreshes, by the hash of the
-- token that was rotated. Times are nanoseconds. Every operation holds the mutex and reads the clock,
-- which is an argument; `put` reads it twice within one critical section, and one reading stands for
-- both.
pub mod Window
use open_scanner.Base.{
  ℕ, ◌+◌, Bool, Option, none, some, String, ltb, if◌then◌else◌, StringMap, put_at, drop_if, List,
  [], ◌∷◌,
}

-- 30 * time.Second
abbrev pub refresh_replay_grace : ℕ
refresh_replay_grace = 30_000_000_000

pub record ReplayCacheEntry : Type 0 where
  pub access_token : String
  pub refresh_raw : String
  pub user_id : ℕ
  pub username : String
  pub role : String
  pub family_id : String
  pub expires_at : ℕ

pub record ReplayCache : Type 0 where
  pub items : StringMap ReplayCacheEntry
  pub ttl : ℕ

abbrev pub new_replay_cache : ℕ → ReplayCache
new_replay_cache ttl = record { items = λ hash. none; ttl = ttl }

abbrev pub is_expired : ℕ → ReplayCacheEntry → Bool
is_expired now e = ltb e.expires_at now

-- `sweepLocked`
unfoldable pub sweep_locked : ReplayCache → ℕ → ReplayCache
sweep_locked c now = record c { items = drop_if (is_expired now) c.items }

unfoldable pub put : ReplayCache → String → ReplayCacheEntry → ℕ → ReplayCache
unfolding sweep_locked
put c hash e now =
    sweep_locked
      (record c { items = put_at c.items hash (some (record e { expires_at = now + c.ttl })) }) now

-- `get`, on what the map holds at the hash.
abbrev get_found :
    ReplayCache → String → Option ReplayCacheEntry → ℕ → ReplayCache × Option ReplayCacheEntry
get_found c hash none now = (c, none)
get_found c hash (some e) now =
    if is_expired now e then (record c { items = put_at c.items hash none }, none) else (c, some e)

unfoldable pub get : ReplayCache → String → ℕ → ReplayCache × Option ReplayCacheEntry
get c hash now = get_found c hash (c.items hash) now

pub data Op : Type 0 where
  puts : String → ReplayCacheEntry → Op
  gets : String → Op

unfoldable pub step : ReplayCache → ℕ → Op → ReplayCache
unfolding put get
step c now (puts hash e) = put c hash e now
step c now (gets hash) = (get c hash now).0

pub run : ReplayCache → List (ℕ × Op) → ReplayCache
run c [] = c
run c ((now, op) ∷ ops) = run (step c now op) ops

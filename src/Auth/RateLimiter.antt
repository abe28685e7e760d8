-- ===== src/Auth/RateLimiter.antt =====
-- backend/internal/auth/ratelimit.go: the login limiter, which locks an address out for ten minutes
-- after three failures. Times are nanoseconds; `time.Time{}` is 0. Each operation reads the clock
-- once under the mutex, so the clock is an argument.
pub mod Lockout
pub mod History
use open_scanner.Base.{
  ℕ, ◌+◌, ◌*◌, Bool, true, false, ◌&&◌, Option, none, some, String, ltb, leb, if◌then◌else◌,
  StringMap, put_at, drop_if, List, [], ◌∷◌,
}

abbrev pub max_failures : ℕ
max_failures = 3

-- 10 * time.Minute
abbrev pub lockout_duration : ℕ
lockout_duration = 600_000_000_000

pub record LoginEntry : Type 0 where
  pub failures : ℕ
  pub locked_until : ℕ
  pub last_failure : ℕ

pub record RateLimiter : Type 0 where
  pub entries : StringMap LoginEntry

-- The map that `NewRateLimiter` makes; its goroutine is `cleanup_tick`.
abbrev pub new_rate_limiter : RateLimiter
new_rate_limiter = record { entries = λ ip. none }

abbrev pub zero_entry : LoginEntry
zero_entry = record { failures = 0; locked_until = 0; last_failure = 0 }

abbrev pub entry_or_new : Option LoginEntry → LoginEntry
entry_or_new none = zero_entry
entry_or_new (some e) = e

-- The part of `RecordFailure` behind the lookup, on the entry that the map holds.
unfoldable pub fail_entry : LoginEntry → ℕ → LoginEntry × Bool
fail_entry e now =
    if ltb now e.locked_until
    then (e, true)
    else let reset = leb max_failures e.failures && ltb e.locked_until now in
      let failures = (if reset then 0 else e.failures) + 1 in
      if leb max_failures failures
      then (
        record { failures = failures; locked_until = now + lockout_duration; last_failure = now },
        true,
      )
      else (record e { failures = failures; last_failure = now }, false)

unfoldable pub record_failure : RateLimiter → String → ℕ → RateLimiter × Bool
record_failure r ip now =
    let (e, locked) = fail_entry (entry_or_new (r.entries ip)) now in
    (record { entries = put_at r.entries ip (some e) }, locked)

abbrev entry_locked : Option LoginEntry → ℕ → Bool
entry_locked none now = false
entry_locked (some e) now = ltb now e.locked_until

unfoldable pub is_locked_out : RateLimiter → String → ℕ → Bool
is_locked_out r ip now = entry_locked (r.entries ip) now

unfoldable pub reset : RateLimiter → String → RateLimiter
reset r ip = record { entries = put_at r.entries ip none }

-- Whether a round of `cleanup` deletes the entry. `now.Sub(a) > d` is `a + d < now`.
pub is_stale : ℕ → LoginEntry → Bool
is_stale now e =
    if leb max_failures e.failures
    then ltb e.locked_until now
    else ltb (e.last_failure + lockout_duration) now

abbrev cleanup_entry : ℕ → Option LoginEntry → Option LoginEntry
cleanup_entry now none = none
cleanup_entry now (some e) = if is_stale now e then none else some e

-- One tick of `cleanup`: `range` visits every entry, and each is decided by its own values.
unfoldable pub cleanup_tick : RateLimiter → ℕ → RateLimiter
unfolding is_stale
cleanup_tick r now = record { entries = λ ip. cleanup_entry now (r.entries ip) }

-- The calls that change the limiter.
pub data Event : Type 0 where
  failure : String → Event
  success : String → Event
  tick : Event

unfoldable pub step : RateLimiter → ℕ → Event → RateLimiter
unfolding record_failure reset cleanup_tick
step r now (failure ip) = (record_failure r ip now).0
step r now (success ip) = reset r ip
step r now tick = cleanup_tick r now

pub run : RateLimiter → List (ℕ × Event) → RateLimiter
run r [] = r
run r ((now, e) ∷ es) = run (step r now e) es

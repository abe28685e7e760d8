-- ===== src/Auth/RateLimiter/History.antt =====
-- The limiter of backend/internal/auth/ratelimit.go over histories of calls.
use open_scanner.Base.{
  ℕ, ◌+◌, ◌≤◌, ◌<◌, ◌≡◌, refl, Bool, true, Option, none, some, String, arith, List, [], ◌∷◌, eq_iff,
  str_eq, keep, Bool-cases, inl, inr,
}
use open_scanner.Auth.RateLimiter.{
  RateLimiter, LoginEntry, new_rate_limiter, entry_or_new, lockout_duration, max_failures,
  fail_entry, is_locked_out, is_stale, cleanup_tick, cleanup_entry, entry_locked, Event, failure,
  success, tick, step, run,
}

-- A full count holds a lockout of ten minutes from the last failure; below it any lockout that is
-- still recorded ended before the last failure.
abbrev pub EntryOk : Option LoginEntry → Type 0
EntryOk none = Unit {0}
EntryOk (some e) =
    (e.failures < max_failures → e.locked_until ≤ e.last_failure)
    × (max_failures ≤ e.failures → e.locked_until ≡ e.last_failure + lockout_duration)

abbrev pub IsConsistent : RateLimiter → Type 0
IsConsistent r = (ip : String) → EntryOk (r.entries ip)

fail_entry-EntryOk :
    (o : Option LoginEntry) (now : ℕ)
    → EntryOk o
    → EntryOk (some (fail_entry (entry_or_new o) now).0)
unfolding fail_entry
fail_entry-EntryOk none now h = ground arith
fail_entry-EntryOk (some e) now h = (λ a. ground (arith, h.0, h.1), λ a. ground (arith, h.0, h.1))

step-IsConsistent :
    (r : RateLimiter) (now : ℕ) (ev : Event) → IsConsistent r → IsConsistent (step r now ev)
unfolding step
step-IsConsistent r now (failure ip) h j = elim (Bool-cases (str_eq ip j)) [
  | inl same ↦ rw same (fail_entry-EntryOk (r.entries ip) now (h ip))
  | inr other ↦ rw other (h j)
]
step-IsConsistent r now (success ip) h j = elim (Bool-cases (str_eq ip j)) [
  | inl same ↦ rw same tt
  | inr other ↦ rw other (h j)
]
step-IsConsistent r now tick h j = swept (r.entries j) (h j)
  where
    swept : (o : Option LoginEntry) → EntryOk o → EntryOk (cleanup_entry now o)
    swept none k = tt
    swept (some e) k = elim (Bool-cases (is_stale now e)) [
      | inl gone ↦ rw gone tt
      | inr kept ↦ rw kept k
    ]

run-IsConsistent :
    (r : RateLimiter) (es : List (ℕ × Event)) → IsConsistent r → IsConsistent (run r es)
unfolding run
run-IsConsistent r [] h = h
run-IsConsistent r ((now, e) ∷ es) h =
    run-IsConsistent (step r now e) es (step-IsConsistent r now e h)

swept_locked :
    (o : Option LoginEntry) (now t : ℕ)
    → EntryOk o
    → now ≤ t
    → entry_locked (cleanup_entry now o) t ≡ entry_locked o t
unfolding is_stale
swept_locked none now t k le = refl
swept_locked (some e) now t k le = ground (arith, k.0, k.1)

-- After any history of failures, successful logins and ticks, in any order and at any times, a
-- cleanup tick frees nobody: every address is locked out afterwards exactly if it was before, at
-- the tick's time and at all later times.
pub cleanup_tick-is_locked_out :
    (es : List (ℕ × Event)) (ip : String) (now t : ℕ)
    → now ≤ t
    → let r = run new_rate_limiter es in
      is_locked_out (cleanup_tick r now) ip t ≡ is_locked_out r ip t
unfolding is_locked_out cleanup_tick
cleanup_tick-is_locked_out es ip now t le =
    swept_locked _ now t (run-IsConsistent new_rate_limiter es (λ j. tt) ip) le

-- The events that bear on an address.
unfoldable pub concerns : String → Event → Bool
concerns ip (failure j) = str_eq j ip
concerns ip (success j) = str_eq j ip
concerns ip tick = true

-- Failures and successful logins of other addresses change nothing for an address: its record
-- after a history is its record after the part of the history that concerns it.
pub run-isolated :
    (r s : RateLimiter) (es : List (ℕ × Event)) (ip : String)
    → r.entries ip ≡ s.entries ip
    → (run r es).entries ip ≡ (run s (keep (λ e. concerns ip e.1) es)).entries ip
unfolding run concerns step
run-isolated r s [] ip same = same
run-isolated r s ((now, failure j) ∷ es) ip same = elim (Bool-cases (str_eq j ip)) [
  | inl own ↦ rw own (
      run-isolated (step r now (failure j)) (step s now (failure j)) es ip
        (ground (arith, eq_iff j ip)))
  | inr other ↦ rw other (run-isolated (step r now (failure j)) s es ip (ground arith))
]
run-isolated r s ((now, success j) ∷ es) ip same = elim (Bool-cases (str_eq j ip)) [
  | inl own ↦
      rw own (run-isolated (step r now (success j)) (step s now (success j)) es ip (ground (arith)))
  | inr other ↦ rw other (run-isolated (step r now (success j)) s es ip (ground arith))
]
run-isolated r s ((now, tick) ∷ es) ip same =
    run-isolated (step r now tick) (step s now tick) es ip (ground arith)

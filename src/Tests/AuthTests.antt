-- ===== src/Tests/AuthTests.antt =====
-- backend/internal/auth and the replay cache at concrete inputs.
use open_scanner.Base.{ℕ, ◌≤◌, ◌≡◌, refl, true, some, List, [], ◌∷◌, arith, length}
use open_scanner.Auth.RateLimiter.{
  RateLimiter, LoginEntry, Event, failure, new_rate_limiter, run, record_failure, is_locked_out,
  cleanup_tick,
}
use open_scanner.Auth.RateLimiter.Lockout.{
  three_failures-lock, record_failure-locked, record_failure-at_expiry,
}
use open_scanner.Auth.RateLimiter.History.{cleanup_tick-is_locked_out, run-isolated, concerns}
use open_scanner.Auth.ReplayCache.{
  ReplayCacheEntry, new_replay_cache, refresh_replay_grace, put, puts, gets,
}
use open_scanner.Auth.ReplayCache as Cache
use open_scanner.Auth.ReplayCache.Window.{get-run-put}
use open_scanner.Auth.Tokens as Tracker
use open_scanner.Auth.Tokens.{
  new_token_tracker, tracks, checks, revokes, revokes_user, tokens_of, max_refresh_families,
  is_revoked, revoke, revoke_all_for_user, track,
}
use open_scanner.Auth.Tokens.Bound.{run-tokens_of-le}
use open_scanner.Auth.Tokens.Denial.History.{revoke-lasting, revoke_all_for_user-lasting}

abbrev minute : ℕ
minute = 60_000_000_000

-- Locked out until minute 12 by three failures.
abbrev locked_entry : LoginEntry
locked_entry = record {
  failures = 3;
  locked_until = 720_000_000_000;
  last_failure = 120_000_000_000;
}

abbrev locked_limiter : RateLimiter
locked_limiter = record { entries = λ ip. some locked_entry }

three_failures-lock_example :
    is_locked_out
      (record_failure
        (record_failure (record_failure new_rate_limiter "10.0.0.1" 1).0 "10.0.0.1" 2).0
        "10.0.0.1"
        3).0
      "10.0.0.1"
      4
    ≡ true
unfolding record_failure is_locked_out
three_failures-lock_example = (three_failures-lock new_rate_limiter "10.0.0.1" 1 2 3 4 refl).5

record_failure-locked_example : (record_failure locked_limiter "10.0.0.1" 600_000_000_000).1 ≡ true
unfolding is_locked_out
record_failure-locked_example =
    (record_failure-locked locked_limiter "10.0.0.1" "10.0.0.2" 600_000_000_000 refl).0

record_failure-at_expiry_example :
    (record_failure locked_limiter "10.0.0.1" 720_000_000_000).1 ≡ true
record_failure-at_expiry_example =
    (record_failure-at_expiry locked_limiter "10.0.0.1" locked_entry 720_000_000_001 refl
      (omega arith)).1

abbrev guesses : List (ℕ × Event)
guesses =
    (1, failure "10.0.0.1")
    ∷ (2, failure "10.0.0.2")
    ∷ (3, failure "10.0.0.1")
    ∷ (4, failure "10.0.0.1")
    ∷ []

cleanup_tick-is_locked_out_example :
    is_locked_out (cleanup_tick (run new_rate_limiter guesses) minute) "10.0.0.1" 70_000_000_000
    ≡ is_locked_out (run new_rate_limiter guesses) "10.0.0.1" 70_000_000_000
cleanup_tick-is_locked_out_example =
    cleanup_tick-is_locked_out guesses "10.0.0.1" minute 70_000_000_000 (omega arith)

run-isolated_example :
    (run new_rate_limiter guesses).entries "10.0.0.2"
    ≡ (run new_rate_limiter ((2, failure "10.0.0.2") ∷ [])).entries "10.0.0.2"
unfolding concerns
run-isolated_example = run-isolated new_rate_limiter new_rate_limiter guesses "10.0.0.2" refl

abbrev answer : ReplayCacheEntry
answer = record {
  access_token = "access";
  refresh_raw = "successor";
  user_id = 7;
  username = "ann";
  role = "listener";
  family_id = "f";
  expires_at = 0;
}

-- Thirty seconds after the rotation the answer is still there, past other traffic.
get-run-put_example :
    (Cache.get
      (Cache.run
        (put (new_replay_cache refresh_replay_grace) "h" answer 1)
        ((2, puts "g" answer) ∷ (3, gets "h") ∷ []))
      "h"
      30_000_000_001).1
    ≡ some (record answer { expires_at = 30_000_000_001 })
get-run-put_example =
    get-run-put (new_replay_cache refresh_replay_grace) "h" answer 1 30_000_000_001
      ((2, puts "g" answer) ∷ (3, gets "h") ∷ []) ((omega arith, refl), ((omega arith, tt), tt))

abbrev calls : List (ℕ × Tracker.Event)
calls = (1, tracks 7 "a" 900_000_000_001) ∷ (2, tracks 7 "b" 900_000_000_002) ∷ (3, checks "a") ∷ []

run-tokens_of-le_example :
    length (tokens_of 7 (Tracker.run new_token_tracker calls).user_tokens) ≤ max_refresh_families
run-tokens_of-le_example = run-tokens_of-le calls 7

revoke-lasting_example :
    (is_revoked
      (Tracker.run
        (revoke (Tracker.run new_token_tracker calls) "a" 4)
        ((5, tracks 8 "c" 900_000_000_005) ∷ (6, revokes "b") ∷ []))
      "a"
      900_000_000_000).1
    ≡ true
revoke-lasting_example =
    revoke-lasting "a" 900_000_000_001 calls
      ((5, tracks 8 "c" 900_000_000_005) ∷ (6, revokes "b") ∷ []) 4 900_000_000_000
      ((λ e. omega arith), ((λ e. omega arith), (tt, tt))) (omega arith)
      (((λ e. omega arith), omega arith), (((λ e. omega arith), omega arith), tt)) (omega arith)

revoke_all_for_user-lasting_example :
    (is_revoked
      (Tracker.run
        (revoke_all_for_user
          (Tracker.run
            (track (Tracker.run new_token_tracker []) 7 "a" 900_000_000_001 1)
            ((2, tracks 7 "b" 900_000_000_002) ∷ []))
          7)
        ((5, checks "a") ∷ []))
      "a"
      900_000_000_000).1
    ≡ true
revoke_all_for_user-lasting_example =
    revoke_all_for_user-lasting "a" 900_000_000_001 [] ((2, tracks 7 "b" 900_000_000_002) ∷ [])
      ((5, checks "a") ∷ []) 7 900_000_000_001 1 900_000_000_000 tt (omega arith)
      (((λ e. omega arith), omega arith), tt) ((tt, omega arith), tt) (omega arith)

-- ===== src/Auth/RateLimiter/Lockout.antt =====
-- The limiter of backend/internal/auth/ratelimit.go on one address.
use open_scanner.Base.{
  ℕ, ◌+◌, ◌≤◌, ◌≡◌, true, false, none, some, String, arith, ltb, eq_iff, eq_refl,
}
use open_scanner.Auth.RateLimiter.{
  RateLimiter, LoginEntry, lockout_duration, max_failures, fail_entry, record_failure,
  is_locked_out,
}

-- An address with no record has two failures free; the third locks it out, and it is locked out
-- at exactly the times before the third failure plus ten minutes.
pub three_failures-lock :
    (r : RateLimiter) (ip : String) (t1 t2 t3 t : ℕ)
    → r.entries ip ≡ none
    → let (r1, a) = record_failure r ip t1 in
      let (r2, b) = record_failure r1 ip t2 in
      let (r3, c) = record_failure r2 ip t3 in
      (a ≡ false)
      × (b ≡ false)
      × (c ≡ true)
      × (is_locked_out r1 ip t ≡ false)
      × (is_locked_out r2 ip t ≡ false)
      × (is_locked_out r3 ip t ≡ ltb t (t3 + lockout_duration))
unfolding record_failure fail_entry is_locked_out
three_failures-lock r ip t1 t2 t3 t fresh = rw (eq_refl, fresh) (ground arith)

-- While an address is locked out, further failures are refused and change no entry: guessing on
-- does not lengthen the lockout.
pub record_failure-locked :
    (r : RateLimiter) (ip j : String) (now : ℕ)
    → is_locked_out r ip now ≡ true
    → ((record_failure r ip now).1 ≡ true) × ((record_failure r ip now).0.entries j ≡ r.entries j)
unfolding record_failure fail_entry is_locked_out
record_failure-locked r ip j now h = ground (arith, eq_iff ip j)

-- At the very instant at which a lockout ends the address is not locked out, and yet its next
-- failure locks it out again at once, for any count that had filled up.
pub record_failure-at_expiry :
    (r : RateLimiter) (ip : String) (e : LoginEntry) (t : ℕ)
    → r.entries ip ≡ some e
    → max_failures ≤ e.failures
    → (is_locked_out r ip e.locked_until ≡ false)
      × ((record_failure r ip e.locked_until).1 ≡ true)
      × (is_locked_out (record_failure r ip e.locked_until).0 ip t
          ≡ ltb t (e.locked_until + lockout_duration))
unfolding record_failure fail_entry is_locked_out
record_failure-at_expiry r ip e t found full =
    (ground arith, ground arith, ground (arith, eq_refl ip))

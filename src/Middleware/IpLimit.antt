-- ===== src/Middleware/IpLimit.antt =====
-- `RateLimitByIP` of backend/internal/middleware/limits.go. Times are nanoseconds; the clock and
-- the address are arguments. The buckets are an association list, since the code asks for their
-- number. A clock that went backwards gives a negative difference in Go and 0 here, which passes
-- the same tests.
pub mod Window
use open_scanner.Base.{
  ℕ, ◌+◌, ◌-◌, ◌*◌, Bool, true, false, not, Option, none, some, String, List, [], ◌∷◌, ltb, leb,
  if◌then◌else◌, length, keep, str_eq,
}

pub record IpBucket : Type 0 where
  pub window_start : ℕ
  pub count : ℕ

-- time.Minute
abbrev pub window : ℕ
window = 60_000_000_000

unfoldable pub find_bucket : String → List (String × IpBucket) → Option IpBucket
find_bucket ip [] = none
find_bucket ip ((k, b) ∷ rest) = if str_eq k ip then some b else find_bucket ip rest

-- A write through the map, for a key that is there or not.
unfoldable pub set_bucket : String → IpBucket → List (String × IpBucket) → List (String × IpBucket)
set_bucket ip b [] = (ip, b) ∷ []
set_bucket ip b ((k, old) ∷ rest) =
    if str_eq k ip then (k, b) ∷ rest else (k, old) ∷ set_bucket ip b rest

abbrev pub is_recent : ℕ → String × IpBucket → Bool
is_recent now (k, b) = ltb (now - b.window_start) (2 * window)

abbrev pub swept : ℕ → List (String × IpBucket) → List (String × IpBucket)
swept now buckets = if ltb 1000 (length buckets) then keep (is_recent now) buckets else buckets

abbrev pub bucket_or_new : Option IpBucket → ℕ → IpBucket
bucket_or_new none now = record { window_start = now; count = 0 }
bucket_or_new (some b) now =
    if leb window (now - b.window_start) then record { window_start = now; count = 0 } else b

unfoldable pub limit_by_ip :
    ℕ → List (String × IpBucket) → String → ℕ → List (String × IpBucket) × Bool
unfolding find_bucket set_bucket
limit_by_ip rpm buckets ip now =
    let kept = swept now buckets in
    let b = bucket_or_new (find_bucket ip kept) now in
    if leb rpm b.count
    then (set_bucket ip b kept, false)
    else (set_bucket ip (record b { count = b.count + 1 }) kept, true)

-- How many requests of one address a sequence of requests lets through.
pub admitted : ℕ → List (String × IpBucket) → String → List (String × ℕ) → ℕ
unfolding limit_by_ip
admitted rpm buckets ip [] = 0
admitted rpm buckets ip ((from, now) ∷ rs) =
    let (after, ok) = limit_by_ip rpm buckets from now in
    let later = admitted rpm after ip rs in
    if str_eq from ip then (if ok then later + 1 else later) else later

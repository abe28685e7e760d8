-- ===== src/Middleware/IpLimit/Window.antt =====
-- One window of `RateLimitByIP` of backend/internal/middleware/limits.go.
use open_scanner.Base.{
  ℕ, suc, ◌+◌, ◌-◌, ◌≤◌, ◌<◌, min, ◌≡◌, refl, sym, ap, ◌⊎◌, inl, inr, true, false, some, String,
  List, [], ◌∷◌, ltb, leb, arith, All, if◌then◌else◌, length, keep, str_eq, eq_iff, eq_refl,
  Bool-cases,
}
use open_scanner.Middleware.IpLimit.{
  IpBucket, window, find_bucket, set_bucket, is_recent, swept, bucket_or_new, limit_by_ip, admitted,
}

-- How many requests come from one address.
abbrev pub requests : String → List (String × ℕ) → ℕ
requests ip [] = 0
requests ip ((from, now) ∷ rs) = if str_eq from ip then suc (requests ip rs) else requests ip rs

abbrev pub InWindow : ℕ → String × ℕ → Type 0
InWindow start (from, now) = (start ≤ now) × (now < start + window)

find_bucket-set_bucket :
    (ip j : String) (b : IpBucket) (buckets : List (String × IpBucket))
    → find_bucket j (set_bucket ip b buckets)
      ≡ (if str_eq ip j then some b else find_bucket j buckets)
unfolding find_bucket set_bucket
find_bucket-set_bucket ip j b [] = refl
find_bucket-set_bucket ip j b ((k, old) ∷ rest) = elim (Bool-cases (str_eq k ip)) [
  | inl same ↦ rw ((eq_iff k ip).0 same, eq_refl ip) (ground arith)
  | inr apart ↦ elim (Bool-cases (str_eq ip j)) [
    | inl here ↦
        let key : ip ≡ j = (eq_iff ip j).0 here in
        rw (apart, sym key, apart, eq_refl ip) (rw here at (find_bucket-set_bucket ip j b rest))
    | inr there ↦
        rw (apart, there)
          (ap (λ t. if str_eq k j then some old else t)
            (rw there at (find_bucket-set_bucket ip j b rest)))
  ]
]

find_bucket-keep :
    (ip : String) (now : ℕ) (b : IpBucket) (buckets : List (String × IpBucket))
    → now < b.window_start + window
    → find_bucket ip buckets ≡ some b
    → find_bucket ip (keep (is_recent now) buckets) ≡ some b
unfolding find_bucket
find_bucket-keep ip now b [] soon e = e
find_bucket-keep ip now b ((k, old) ∷ rest) soon e =
    ground (arith, find_bucket-keep ip now b rest soon)

find_bucket-swept :
    (ip : String) (now : ℕ) (b : IpBucket) (buckets : List (String × IpBucket))
    → now < b.window_start + window
    → find_bucket ip buckets ≡ some b
    → find_bucket ip (swept now buckets) ≡ some b
find_bucket-swept ip now b buckets soon e = elim (Bool-cases (ltb 1000 (length buckets))) [
  | inl many ↦ rw many (find_bucket-keep ip now b buckets soon e)
  | inr few ↦ rw few e
]

-- A request of another address leaves the bucket as it is.
limit_by_ip-other :
    (rpm : ℕ) (buckets : List (String × IpBucket)) (ip from : String) (now : ℕ) (b : IpBucket)
    → str_eq from ip ≡ false
    → now < b.window_start + window
    → find_bucket ip buckets ≡ some b
    → find_bucket ip (limit_by_ip rpm buckets from now).0 ≡ some b
unfolding limit_by_ip
limit_by_ip-other rpm buckets ip from now b apart soon e =
    let kept = swept now buckets in
    let found = find_bucket-swept ip now b buckets soon e in
    let own = bucket_or_new (find_bucket from kept) now in
    elim (Bool-cases (leb rpm own.count)) [
      | inl full ↦ rw full (rw (find_bucket-set_bucket from ip own kept, apart) found)
      | inr free ↦ rw free (
          rw (find_bucket-set_bucket from ip (record own { count = own.count + 1 }) kept, apart)
            found)
    ]

-- A request of the address itself: refused with a full bucket, else counted.
limit_by_ip-own :
    (rpm : ℕ) (buckets : List (String × IpBucket)) (ip : String) (now : ℕ) (b : IpBucket)
    → b.window_start ≤ now
    → now < b.window_start + window
    → find_bucket ip buckets ≡ some b
    → ((rpm ≤ b.count)
        × ((limit_by_ip rpm buckets ip now).1 ≡ false)
        × (find_bucket ip (limit_by_ip rpm buckets ip now).0 ≡ some b))
      ⊎ ((b.count < rpm)
          × ((limit_by_ip rpm buckets ip now).1 ≡ true)
          × (find_bucket ip (limit_by_ip rpm buckets ip now).0
              ≡ some (record b { count = b.count + 1 })))
unfolding limit_by_ip
limit_by_ip-own rpm buckets ip now b from_start soon e =
    let kept = swept now buckets in
    let found : bucket_or_new (find_bucket ip kept) now ≡ b =
      rw (find_bucket-swept ip now b buckets soon e) (ground arith) in
    elim (Bool-cases (leb rpm b.count)) [
      | inl full ↦ inl (
        ground arith,
        rw (found, full) refl,
        rw (found, full) (rw (find_bucket-set_bucket ip ip b kept, eq_refl ip) refl),
      )
      | inr free ↦ inr (
        ground arith,
        rw (found, free) refl,
        rw (found, free)
            (rw (find_bucket-set_bucket ip ip (record b { count = b.count + 1 }) kept, eq_refl ip)
              refl),
      )
    ]

-- Within the window of a bucket, however the requests of other addresses come in between and
-- whenever the map is swept, exactly the first requests are let through, up to the limit.
pub admitted-window :
    (rpm : ℕ) (buckets : List (String × IpBucket)) (ip : String) (b : IpBucket)
    (rs : List (String × ℕ))
    → find_bucket ip buckets ≡ some b
    → All (InWindow b.window_start) rs
    → admitted rpm buckets ip rs ≡ min (requests ip rs) (rpm - b.count)
unfolding admitted
admitted-window rpm buckets ip b [] e within = omega arith
admitted-window rpm buckets ip b ((from, now) ∷ rs) e ((from_start, soon), within) =
    elim (Bool-cases (str_eq from ip)) [
      | inr apart ↦ rw apart (
          admitted-window rpm (limit_by_ip rpm buckets from now).0 ip b rs
            (limit_by_ip-other rpm buckets ip from now b apart soon e) within)
      | inl same ↦
          let key : from ≡ ip = (eq_iff from ip).0 same in
          rw (key, eq_refl ip)
            (elim (limit_by_ip-own rpm buckets ip now b from_start soon e) [
              | inl (full, refused, after) ↦ rw refused (
                  omega (
                    arith,
                    admitted-window rpm (limit_by_ip rpm buckets ip now).0 ip b rs after within,
                  ))
              | inr (free, passed, after) ↦ rw passed (
                  omega (
                    arith,
                    admitted-window rpm (limit_by_ip rpm buckets ip now).0 ip
                        (record b { count = b.count + 1 }) rs after within,
                  ))
            ])
    ]

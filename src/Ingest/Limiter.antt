-- ===== src/Ingest/Limiter.antt =====
-- `apiKeyLimiter` and `getLimiter` of backend/internal/handler/calls/calls.go: a fixed window of one
-- minute for each API key. Times are nanoseconds and the clock is an argument. The limiters are an
-- association list, since the code asks for their number. A limiter is a shared object that stays in
-- the map while it is asked, so a call of `getLimiter(…).allow()` is one step on the map.
use open_scanner.Base.{
  ℕ, ◌+◌, ◌-◌, ◌*◌, Bool, true, false, Option, none, some, List, [], ◌∷◌, ltb, leb, ◌==◌,
  if◌then◌else◌, length, keep,
}

abbrev pub default_call_rate_per_min : ℕ
default_call_rate_per_min = 60

abbrev pub max_call_rate_per_min : ℕ
max_call_rate_per_min = 600

-- time.Minute
abbrev pub rate_window_duration : ℕ
rate_window_duration = 60_000_000_000

pub record ApiKeyLimiter : Type 0 where
  pub window_start : ℕ
  pub count : ℕ
  pub rate_limit : ℕ

unfoldable pub allow : ApiKeyLimiter → ℕ → ApiKeyLimiter × Bool
allow l now =
    let l' : ApiKeyLimiter =
      if leb rate_window_duration (now - l.window_start)
      then record l { window_start = now; count = 0 }
      else l in
    if leb l'.rate_limit l'.count then (l', false) else (record l' { count = l'.count + 1 }, true)

unfoldable pub find_limiter : ℕ → List (ℕ × ApiKeyLimiter) → Option ApiKeyLimiter
find_limiter key [] = none
find_limiter key ((k, l) ∷ rest) = if k == key then some l else find_limiter key rest

unfoldable pub set_limiter : ℕ → ApiKeyLimiter → List (ℕ × ApiKeyLimiter) → List (ℕ × ApiKeyLimiter)
set_limiter key l [] = (key, l) ∷ []
set_limiter key l ((k, old) ∷ rest) =
    if k == key then (k, l) ∷ rest else (k, old) ∷ set_limiter key l rest

abbrev pub is_fresh : ℕ → ℕ × ApiKeyLimiter → Bool
is_fresh now (k, l) = ltb (now - l.window_start) (2 * rate_window_duration)

abbrev pub swept : ℕ → List (ℕ × ApiKeyLimiter) → List (ℕ × ApiKeyLimiter)
swept now ls = if ltb 100 (length ls) then keep (is_fresh now) ls else ls

abbrev pub limiter_or_new : Option ApiKeyLimiter → ℕ → ℕ → ApiKeyLimiter
limiter_or_new none rate now = record { window_start = now; count = 0; rate_limit = rate }
limiter_or_new (some l) rate now = record l { rate_limit = rate }

-- `h.getLimiter(apiKeyID, rateLimit).allow()`
unfoldable pub allow_key : List (ℕ × ApiKeyLimiter) → ℕ → ℕ → ℕ → List (ℕ × ApiKeyLimiter) × Bool
unfolding find_limiter set_limiter allow
allow_key ls key rate now =
    let kept = swept now ls in
    let (l, ok) = allow (limiter_or_new (find_limiter key kept) rate now) now in
    (set_limiter key l kept, ok)

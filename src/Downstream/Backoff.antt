-- ===== src/Downstream/Backoff.antt =====
-- How often `pushWithRetry` of backend/internal/downstream/pusher.go tries, and how long it waits.
use open_scanner.Base.{
  ℕ, zero, suc, ◌+◌, ◌*◌, ◌/◌, ◌<◌, ◌≤◌, ◌≡◌, refl, sym, ap, subst, ◌∙◌, ◌⊎◌, inl, inr, Bool, true,
  false, List, [], ◌∷◌, arith, ◌==◌, length,
}
use open_scanner.Ingest.Upload.{CallEvent}
use open_scanner.Downstream.{Downstream}
use open_scanner.Downstream.Push.{
  PushEnv, push_call, second, max_wait, capped, PushEnd, pushed_at, gave_up, push_round,
  push_rounds, push_with_retry,
}

-- Each wait is at least its backoff and less than one and a half times that; the backoff doubles.
abbrev pub AreBackoffs : ℕ → List ℕ → Type 0
AreBackoffs backoff [] = Unit
AreBackoffs backoff (w ∷ ws) = (backoff ≤ w) × (2 * w < 3 * backoff) × AreBackoffs (backoff * 2) ws

-- `rand.Int64N` is below its bound.
abbrev pub IsRandom : PushEnv → Type 0
IsRandom env = (attempt bound : ℕ) → 0 < bound → env.random attempt bound < bound

-- From an attempt on, in so many rounds: the first attempt that works ends the push, after as many
-- waits as attempts before it; or none works.
abbrev pub Ended : PushEnv → Downstream → CallEvent → ℕ → ℕ → PushEnd × List ℕ → Type 0
Ended env ds e rounds first (end, waits) =
    ((i : ℕ) × (i < rounds)
      × (push_call env (first + i) ds e ≡ true)
      × ((j : ℕ) → j < i → push_call env (first + j) ds e ≡ false)
      × (end ≡ pushed_at (first + i))
      × (length waits ≡ i))
    ⊎ (((j : ℕ) → j < rounds → push_call env (first + j) ds e ≡ false)
        × (end ≡ gave_up)
        × (suc (length waits) ≡ rounds))

-- The backoff can double as often without reaching 32 seconds.
abbrev Fits : ℕ → ℕ → Type 0
Fits zero backoff = backoff ≤ 32 * second
Fits (suc n) backoff = Fits n (backoff * 2)

Fits-le : (n backoff : ℕ) → Fits n backoff → backoff ≤ 32 * second
Fits-le zero backoff h = h
Fits-le (suc n) backoff h = omega (arith, Fits-le n (backoff * 2) h)

capped-small : (d : ℕ) → d ≤ max_wait → capped d ≡ d
capped-small d h = ground arith

half_positive : (b : ℕ) → 2 ≤ b → 0 < b / 2
half_positive b h = omega arith

with_half : (b x : ℕ) → x < b / 2 → (b ≤ b + x) × (2 * (b + x) < 3 * b)
with_half b x h = omega arith

wait-bounds :
    (env : PushEnv) (attempt backoff : ℕ)
    → IsRandom env
    → 2 ≤ backoff
    → backoff ≤ 8 * second
    → let w = capped (backoff + env.random attempt (backoff / 2)) in
      (backoff ≤ w) × (2 * w < 3 * backoff)
wait-bounds env attempt backoff r positive small =
    let below = r attempt (backoff / 2) (half_positive backoff positive) in
    let (least, most) = with_half backoff (env.random attempt (backoff / 2)) below in
    rw (capped-small (backoff + env.random attempt (backoff / 2)) (omega (arith, most, small)))
      (least, most)

-- All the rounds, unless the context ends.
module _ (env : PushEnv) (ds : Downstream) (e : CallEvent) (r : IsRandom env)
    (lasts : (attempt : ℕ) → env.is_cancelled attempt ≡ false) where
  first-shift :
      (i attempt : ℕ) → push_call env (suc attempt + i) ds e ≡ push_call env (attempt + suc i) ds e
  first-shift i attempt = ap (λ n. push_call env n ds e) (omega arith)

  first-start : (attempt : ℕ) → push_call env (attempt + 0) ds e ≡ push_call env attempt ds e
  first-start attempt = ap (λ n. push_call env n ds e) (omega arith)

  shifted :
      (k attempt : ℕ)
      → push_call env attempt ds e ≡ false
      → ((j : ℕ) → j < k → push_call env (suc attempt + j) ds e ≡ false)
      → (j : ℕ) → j < suc k
      → push_call env (attempt + j) ds e ≡ false
  shifted k attempt h before zero below = first-start attempt ∙ h
  shifted k attempt h before (suc j) below = sym (first-shift j attempt) ∙ before j (omega arith)

  -- An attempt that did not work, and the rest.
  later-Ended :
      (left attempt : ℕ) (w : ℕ) (later : PushEnd × List ℕ)
      → push_call env attempt ds e ≡ false
      → Ended env ds e (suc left) (suc attempt) later
      → Ended env ds e (suc (suc left)) attempt (later.0, w ∷ later.1)
  later-Ended left attempt w (end, waits) h (inl (i, below, works, before, ends, n)) = inl (
    suc i,
    omega arith,
    sym (first-shift i attempt) ∙ works,
    shifted i attempt h before,
    ends ∙ ap pushed_at (omega arith),
    ap suc n,
  )
  later-Ended left attempt w (end, waits) h (inr (none_works, ends, n)) =
      inr (shifted (suc left) attempt h none_works, ends, ap suc n)

  at_once :
      (left attempt : ℕ)
      → push_call env attempt ds e ≡ true
      → Ended env ds e (suc left) attempt (pushed_at attempt, [])
  at_once left attempt works = inl (
    0,
    omega arith,
    first-start attempt ∙ works,
    λ j k. elim k [ ],
    ap pushed_at (omega arith),
    refl,
  )

  round-Ended :
      (left attempt backoff wait : ℕ) (worked last stopped : Bool) (later : PushEnd × List ℕ)
      → push_call env attempt ds e ≡ worked
      → last ≡ false
      → stopped ≡ false
      → (backoff ≤ wait) × (2 * wait < 3 * backoff)
      → Ended env ds e (suc left) (suc attempt) later × AreBackoffs (backoff * 2) later.1
      → Ended env ds e (suc (suc left)) attempt (push_round worked last stopped attempt wait later)
        × AreBackoffs backoff (push_round worked last stopped attempt wait later).1
  round-Ended left attempt backoff wait true last stopped later works l s bounds h =
      (at_once (suc left) attempt works, tt)
  round-Ended left attempt backoff wait false last stopped later fails l s (least, most)
        (ended, rest) =
      rw (l, s) (later-Ended left attempt wait later fails ended, (least, most, rest))

  last_round-Ended :
      (attempt backoff wait : ℕ) (worked last stopped : Bool) (later : PushEnd × List ℕ)
      → push_call env attempt ds e ≡ worked
      → last ≡ true
      → Ended env ds e 1 attempt (push_round worked last stopped attempt wait later)
        × AreBackoffs backoff (push_round worked last stopped attempt wait later).1
  last_round-Ended attempt backoff wait true last stopped later works l =
      (at_once 0 attempt works, tt)
  last_round-Ended attempt backoff wait false last stopped later fails l =
      rw l (inr (shifted 0 attempt fails (λ j k. elim k [ ]), refl, refl), tt)

  not_last : (left : ℕ) → (suc left == 0) ≡ false
  not_last left = ground arith

  push_rounds-Ended :
      (left attempt backoff : ℕ)
      → 2 ≤ backoff
      → Fits (suc left) backoff
      → Ended env ds e (suc left) attempt (push_rounds (suc left) env ds e attempt backoff)
        × AreBackoffs backoff (push_rounds (suc left) env ds e attempt backoff).1
  unfolding push_rounds
  push_rounds-Ended zero attempt backoff positive fits =
      last_round-Ended attempt backoff (capped (backoff + env.random attempt (backoff / 2)))
        (push_call env attempt ds e) (0 == 0) (env.is_cancelled attempt)
        (push_rounds 0 env ds e (suc attempt) (capped (backoff * 2))) refl refl
  push_rounds-Ended (suc left) attempt backoff positive fits =
      let small : backoff ≤ 8 * second = omega (arith, Fits-le left (backoff * 2 * 2) fits) in
      round-Ended left attempt backoff (capped (backoff + env.random attempt (backoff / 2)))
        (push_call env attempt ds e) (suc left == 0) (env.is_cancelled attempt)
        (push_rounds (suc left) env ds e (suc attempt) (capped (backoff * 2))) refl (not_last left)
        (lasts attempt) (wait-bounds env attempt backoff r positive small)
        (subst
          (λ b.
            Ended env ds e (suc left) (suc attempt)
              (push_rounds (suc left) env ds e (suc attempt) b)
            × AreBackoffs (backoff * 2) (push_rounds (suc left) env ds e (suc attempt) b).1)
          (sym (capped-small (backoff * 2) (omega (arith, small))))
          (push_rounds-Ended left (suc attempt) (backoff * 2) (omega arith) fits))

-- A push ends after at most five attempts. While the context lasts and the random source stays below
-- its bound, the first attempt of the five that works is the last one, with one wait before it for
-- each attempt that did not work; if none of the five works, the push is given up after four waits.
-- The backoff starts at one second and doubles, and each wait is at least its backoff and less than
-- one and a half times that; the cap of thirty seconds is never reached.
pub push_with_retry-Ended :
    (env : PushEnv) (ds : Downstream) (e : CallEvent)
    → IsRandom env
    → ((attempt : ℕ) → env.is_cancelled attempt ≡ false)
    → Ended env ds e 5 0 (push_with_retry env ds e)
      × AreBackoffs 1_000_000_000 (push_with_retry env ds e).1
unfolding push_with_retry
push_with_retry-Ended env ds e r lasts =
    push_rounds-Ended env ds e r lasts 4 0 second (omega arith) (omega arith)

-- ===== src/Auth/ReplayCache/Window.antt =====
-- The grace window: what a replayed hash is answered with, and for how long.
use open_scanner.Base.{
  ℕ, ◌+◌, ◌≤◌, ◌<◌, ◌≡◌, ◌⊎◌, inl, inr, false, none, some, String, arith, leb, List, [], ◌∷◌,
  eq_iff, str_eq, if◌then◌else◌, All, eq_refl,
}
use open_scanner.Auth.ReplayCache.{
  ReplayCache, ReplayCacheEntry, put, get, Op, puts, gets, step, run,
}

-- The operation does not write the entry of `hash`.
abbrev pub Spares : String → Op → Type 0
Spares hash (puts j e) = str_eq j hash ≡ false
Spares hash (gets j) = Unit {0}

-- The entry is there, or its time is past.
abbrev Holds : ReplayCache → String → ReplayCacheEntry → ℕ → Type 0
Holds c hash e t = (c.items hash ≡ some e) ⊎ ((c.items hash ≡ none) × (e.expires_at < t))

step-Holds :
    (c : ReplayCache) (hash : String) (e : ReplayCacheEntry) (now t : ℕ) (op : Op)
    → now ≤ t
    → Spares hash op
    → Holds c hash e t
    → Holds (step c now op) hash e t
unfolding step
step-Holds c hash e now t (puts j f) le apart (inl h) = ground arith
step-Holds c hash e now t (puts j f) le apart (inr h) = ground arith
step-Holds c hash e now t (gets j) le apart (inl h) = ground (arith, eq_iff j hash)
step-Holds c hash e now t (gets j) le apart (inr h) = ground (arith, eq_iff j hash)

run-Holds :
    (c : ReplayCache) (hash : String) (e : ReplayCacheEntry) (t : ℕ) (ops : List (ℕ × Op))
    → All (λ p. (p.0 ≤ t) × Spares hash p.1) ops
    → Holds c hash e t
    → Holds (run c ops) hash e t
unfolding run
run-Holds c hash e t [] k h = h
run-Holds c hash e t ((now, op) ∷ ops) k h =
    run-Holds (step c now op) hash e t ops k.1 (step-Holds c hash e now t op k.0.0 k.0.1 h)

items-put :
    (c : ReplayCache) (hash : String) (e : ReplayCacheEntry) (t0 : ℕ)
    → (put c hash e t0).items hash ≡ some (record e { expires_at = t0 + c.ttl })
unfolding put
items-put c hash e t0 = ground (arith, eq_refl hash)

-- The answer recorded for a hash at `t0` is given back for that hash, with its tokens and user
-- unchanged, at every time up to `t0` plus the grace, and at no later time, whatever other hashes
-- were recorded and whatever was looked up in between, none of it later than the look-up.
pub get-run-put :
    (c : ReplayCache) (hash : String) (e : ReplayCacheEntry) (t0 t : ℕ) (ops : List (ℕ × Op))
    → All (λ p. (p.0 ≤ t) × Spares hash p.1) ops
    → (get (run (put c hash e t0) ops) hash t).1
      ≡ (if leb t (t0 + c.ttl) then some (record e { expires_at = t0 + c.ttl }) else none)
unfolding get
get-run-put c hash e t0 t ops k = answer (run-Holds (put c hash e t0) hash stamped t ops k first)
  where
    stamped : ReplayCacheEntry
    stamped = record e { expires_at = t0 + c.ttl }

    first : Holds (put c hash e t0) hash stamped t
    first = inl (items-put c hash e t0)

    answer :
        Holds (run (put c hash e t0) ops) hash stamped t
        → (get (run (put c hash e t0) ops) hash t).1
          ≡ (if leb t (t0 + c.ttl) then some stamped else none)
    answer (inl h) = rw h (ground arith)
    answer (inr h) = ground arith

-- Within the grace such a look-up changes nothing.
pub get-run-put_within :
    (c : ReplayCache) (hash : String) (e : ReplayCacheEntry) (t0 t : ℕ) (ops : List (ℕ × Op))
    → All (λ p. (p.0 ≤ t) × Spares hash p.1) ops
    → t ≤ t0 + c.ttl
    → get (run (put c hash e t0) ops) hash t
      ≡ (run (put c hash e t0) ops, some (record e { expires_at = t0 + c.ttl }))
unfolding get
get-run-put_within c hash e t0 t ops k soon =
    answer (run-Holds (put c hash e t0) hash stamped t ops k (inl (items-put c hash e t0)))
  where
    stamped : ReplayCacheEntry
    stamped = record e { expires_at = t0 + c.ttl }

    answer :
        Holds (run (put c hash e t0) ops) hash stamped t
        → get (run (put c hash e t0) ops) hash t ≡ (run (put c hash e t0) ops, some stamped)
    answer (inl h) = rw h (ground arith)
    answer (inr h) = absurd (omega (arith, h.1, soon))

pub get-run-put_after :
    (c : ReplayCache) (hash : String) (e : ReplayCacheEntry) (t0 t : ℕ) (ops : List (ℕ × Op))
    → All (λ p. (p.0 ≤ t) × Spares hash p.1) ops
    → t0 + c.ttl < t
    → (get (run (put c hash e t0) ops) hash t).1 ≡ none
get-run-put_after c hash e t0 t ops k late = rw (get-run-put c hash e t0 t ops k) (ground arith)

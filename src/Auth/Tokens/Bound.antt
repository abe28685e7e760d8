-- ===== src/Auth/Tokens/Bound.antt =====
-- `TokenTracker` of backend/internal/auth/auth.go: the number of tokens that a user holds.
use open_scanner.Base.{
  ℕ, ◌+◌, ◌≤◌, ◌<◌, ◌≡◌, refl, String, arith, List, [], ◌∷◌, ◌++◌, length, length-append, keep,
  length-keep-le, All,
}
use open_scanner.Auth.Tokens.{
  TokenEntry, TokenTracker, new_token_tracker, tokens_of, set_tokens, delete_tokens, sweep_users,
  keep_user, is_live, cleanup_locked, evict, append_token, Event, tracks, checks, revokes,
  revokes_user, step, run, max_refresh_families,
}

-- Every user of the map holds at most `n` tokens.
abbrev Within : ℕ → List (ℕ × List TokenEntry) → Type 0
Within n = All (λ p. length p.1 ≤ n)

tokens_of-Within :
    (n uid : ℕ) (us : List (ℕ × List TokenEntry)) → Within n us → length (tokens_of uid us) ≤ n
unfolding tokens_of
tokens_of-Within n uid [] h = omega arith
tokens_of-Within n uid ((u, es) ∷ rest) h = ground (arith, tokens_of-Within n uid rest h.1)

set_tokens-Within :
    (n uid : ℕ) (es : List TokenEntry) (us : List (ℕ × List TokenEntry))
    → length es ≤ n
    → Within n us
    → Within n (set_tokens uid es us)
unfolding set_tokens
set_tokens-Within n uid es [] k h = (k, tt)
set_tokens-Within n uid es ((u, old) ∷ rest) k h =
    ground (arith, set_tokens-Within n uid es rest k h.1)

delete_tokens-Within :
    (n uid : ℕ) (us : List (ℕ × List TokenEntry)) → Within n us → Within n (delete_tokens uid us)
unfolding delete_tokens
delete_tokens-Within n uid [] h = tt
delete_tokens-Within n uid ((u, es) ∷ rest) h = ground (arith, delete_tokens-Within n uid rest h.1)

keep_user-Within :
    (n u : ℕ) (es : List TokenEntry) (rest : List (ℕ × List TokenEntry))
    → length es ≤ n
    → Within n rest
    → Within n (keep_user u es rest)
keep_user-Within n u [] rest k h = h
keep_user-Within n u (e ∷ es) rest k h = (k, h)

sweep_users-Within :
    (n now : ℕ) (us : List (ℕ × List TokenEntry)) → Within n us → Within n (sweep_users now us)
unfolding sweep_users
sweep_users-Within n now [] h = tt
sweep_users-Within n now ((u, es) ∷ rest) h =
    keep_user-Within n u (keep (is_live now) es) (sweep_users now rest)
      (omega (arith, length-keep-le (is_live now) es, h.0)) (sweep_users-Within n now rest h.1)

abbrev IsBounded : TokenTracker → Type 0
IsBounded tr = (tr.max_tokens ≡ max_refresh_families) × Within max_refresh_families tr.user_tokens

-- The slice that `Track` appends to, with the state that it leaves.
evict-length :
    (tr : TokenTracker) (es : List TokenEntry)
    → 0 < tr.max_tokens
    → length es ≤ tr.max_tokens
    → (length (evict tr es).1 + 1 ≤ tr.max_tokens)
      × ((evict tr es).0.max_tokens ≡ tr.max_tokens)
      × ((evict tr es).0.user_tokens ≡ tr.user_tokens)
evict-length tr [] p h = (omega arith, refl, refl)
evict-length tr (e ∷ es) p h = ground arith

append_token-IsBounded :
    (tr : TokenTracker) (uid : ℕ) (jti : String) (exp : ℕ)
    → IsBounded tr
    → IsBounded (append_token tr uid jti exp)
unfolding append_token
append_token-IsBounded tr uid jti exp h = bounded (
    evict-length tr es (omega arith)
      (omega (arith, h.0, tokens_of-Within max_refresh_families uid tr.user_tokens h.1)))
  where
    es : List TokenEntry
    es = tokens_of uid tr.user_tokens

    bounded :
        (length (evict tr es).1 + 1 ≤ tr.max_tokens)
          × ((evict tr es).0.max_tokens ≡ tr.max_tokens)
          × ((evict tr es).0.user_tokens ≡ tr.user_tokens)
        → IsBounded (append_token tr uid jti exp)
    bounded (l, m, u) = (
      omega arith,
      set_tokens-Within max_refresh_families uid
          ((evict tr es).1 ++ (record { jti = jti; expires_at = exp } ∷ []))
          (evict tr es).0.user_tokens
          (omega (
            arith,
            length-append (evict tr es).1 (record { jti = jti; expires_at = exp } ∷ []),
            h.0,
          ))
          (rw u h.1),
    )

cleanup_locked-IsBounded :
    (tr : TokenTracker) (now : ℕ) → IsBounded tr → IsBounded (cleanup_locked tr now)
unfolding cleanup_locked
cleanup_locked-IsBounded tr now h =
    (h.0, sweep_users-Within max_refresh_families now tr.user_tokens h.1)

step-IsBounded :
    (tr : TokenTracker) (now : ℕ) (ev : Event) → IsBounded tr → IsBounded (step tr now ev)
unfolding step
step-IsBounded tr now (tracks uid jti exp) h =
    append_token-IsBounded (cleanup_locked tr now) uid jti exp (cleanup_locked-IsBounded tr now h)
step-IsBounded tr now (checks jti) h = ground arith
step-IsBounded tr now (revokes jti) h = h
step-IsBounded tr now (revokes_user uid) h =
    (h.0, delete_tokens-Within max_refresh_families uid tr.user_tokens h.1)

run-IsBounded : (tr : TokenTracker) (es : List (ℕ × Event)) → IsBounded tr → IsBounded (run tr es)
unfolding run
run-IsBounded tr [] h = h
run-IsBounded tr ((now, e) ∷ es) h = run-IsBounded (step tr now e) es (step-IsBounded tr now e h)

-- After any history of calls on a new tracker, at any times, no user holds more than twenty tokens.
pub run-tokens_of-le :
    (es : List (ℕ × Event)) (uid : ℕ)
    → length (tokens_of uid (run new_token_tracker es).user_tokens) ≤ max_refresh_families
run-tokens_of-le es uid =
    tokens_of-Within max_refresh_families uid (run new_token_tracker es).user_tokens
      (run-IsBounded new_token_tracker es (refl, tt)).1

-- ===== src/Auth/Tokens/Denial/History.antt =====
-- `TokenTracker` of backend/internal/auth/auth.go: denial over histories of calls.
use open_scanner.Base.{
  ℕ, ◌+◌, ◌≤◌, ◌<◌, ◌≡◌, inl, true, Option, none, some, String, arith, List, [], ◌∷◌, All, eq_refl,
}
use open_scanner.Auth.Tokens.{
  TokenTracker, new_token_tracker, cleanup_locked, revoked_found, track, revoke, is_revoked,
  revoke_all_for_user, Event, step, run, access_token_expiry,
}
use open_scanner.Auth.Tokens.Denial.{
  Covers, FreshUsers, sweep_users-FreshUsers, tokens_of-Fresh, delete_tokens-FreshUsers,
  deny_all-Covers,
}
use open_scanner.Auth.Tokens.Denial.Steps.{
  Respects, RespectsInLife, append_token-FreshUsers, step-FreshUsers, step-Covers,
}
use open_scanner.Auth.Tokens.Denial.Held.{Held, append_token-tracked, step-Held}

module _ (jti : String) (life : ℕ) where
  run-FreshUsers :
      (tr : TokenTracker) (es : List (ℕ × Event))
      → All (Respects jti life) es
      → FreshUsers jti life tr.user_tokens
      → FreshUsers jti life (run tr es).user_tokens
  unfolding run
  run-FreshUsers tr [] k f = f
  run-FreshUsers tr ((now, e) ∷ es) k f =
      run-FreshUsers (step tr now e) es k.1 (step-FreshUsers jti life tr now e k.0 f)

  run-Covers :
      (tr : TokenTracker) (es : List (ℕ × Event))
      → All (RespectsInLife jti life) es
      → FreshUsers jti life tr.user_tokens
      → Covers life (tr.denied jti)
      → Covers life ((run tr es).denied jti)
  unfolding run
  run-Covers tr [] k f h = h
  run-Covers tr ((now, e) ∷ es) k f h =
      run-Covers (step tr now e) es k.1 (step-FreshUsers jti life tr now e k.0.0 f)
        (step-Covers jti life tr now e k.0 f h)

  run-Held :
      (uid : ℕ) (tr : TokenTracker) (es : List (ℕ × Event))
      → All (RespectsInLife jti life) es
      → FreshUsers jti life tr.user_tokens
      → Held jti life uid tr
      → Held jti life uid (run tr es) × FreshUsers jti life (run tr es).user_tokens
  unfolding run
  run-Held uid tr [] k f h = (h, f)
  run-Held uid tr ((now, e) ∷ es) k f h =
      run-Held uid (step tr now e) es k.1 (step-FreshUsers jti life tr now e k.0.0 f)
        (step-Held jti life uid now tr e k.0 f h)

  is_revoked_of_Covers :
      (tr : TokenTracker) (t : ℕ)
      → t < life
      → Covers life (tr.denied jti)
      → (is_revoked tr jti t).1 ≡ true
  unfolding is_revoked
  is_revoked_of_Covers tr t l h = answer (tr.denied jti) h
    where
      answer : (o : Option ℕ) → Covers life o → (revoked_found tr jti o t).1 ≡ true
      answer none k = absurd k
      answer (some exp) k = ground arith

  revoke-Covers :
      (tr : TokenTracker) (now : ℕ)
      → life ≤ now + access_token_expiry
      → Covers life ((revoke tr jti now).denied jti)
  unfolding revoke
  revoke-Covers tr now e = ground (arith, eq_refl jti)

  -- Logging out is final. Take any history of a new tracker that tracks the token, if at all, for at
  -- least its life, then `Revoke` at a time from which the token's end is at most fifteen minutes away, then
  -- any history whose calls all come before that end: look-ups, further tokens with their clean-ups
  -- and evictions, revocations of other tokens and users. The token is still revoked at every time
  -- before its end.
  pub revoke-lasting :
      (before later : List (ℕ × Event)) (now t : ℕ)
      → All (Respects jti life) before
      → life ≤ now + access_token_expiry
      → All (RespectsInLife jti life) later
      → t < life
      → (is_revoked (run (revoke (run new_token_tracker before) jti now) later) jti t).1 ≡ true
  revoke-lasting before later now t b e l k =
      is_revoked_of_Covers _ t k (run-Covers _ later l fresh (revoke-Covers _ now e))
    where
      fresh : FreshUsers jti life (revoke (run new_token_tracker before) jti now).user_tokens
      fresh = unfold revoke in run-FreshUsers new_token_tracker before b tt

  -- Revoking a user's tokens reaches every token ever issued to the user. Take a token that was
  -- tracked for a user until at least its end, any calls in its life, `RevokeAllForUser`, and any
  -- further calls in its life: the token is revoked at every time before its end, also if it had
  -- been evicted from the user's list in between.
  pub revoke_all_for_user-lasting :
      (before between later : List (ℕ × Event)) (uid exp issued t : ℕ)
      → All (Respects jti life) before
      → life ≤ exp
      → All (RespectsInLife jti life) between
      → All (RespectsInLife jti life) later
      → t < life
      → let held = run (track (run new_token_tracker before) uid jti exp issued) between in
        (is_revoked (run (revoke_all_for_user held uid) later) jti t).1 ≡ true
  revoke_all_for_user-lasting before between later uid exp issued t b e m l k =
      is_revoked_of_Covers _ t k (run-Covers _ later l denied.1 denied.0)
    where
      start : TokenTracker
      start = track (run new_token_tracker before) uid jti exp issued

      tracked : Held jti life uid start × FreshUsers jti life start.user_tokens
      tracked =
          unfold track in
          (
            inl (append_token-tracked jti life uid exp _),
            append_token-FreshUsers jti life _ uid jti exp (λ _. e)
                (unfold cleanup_locked in
                  sweep_users-FreshUsers jti life issued _
                    (run-FreshUsers new_token_tracker before b tt)),
          )

      held :
          Held jti life uid (run start between)
          × FreshUsers jti life (run start between).user_tokens
      held = run-Held uid start between m tracked.1 tracked.0

      denied :
          Covers life ((revoke_all_for_user (run start between) uid).denied jti)
          × FreshUsers jti life (revoke_all_for_user (run start between) uid).user_tokens
      denied =
          unfold revoke_all_for_user in
          (
            deny_all-Covers jti life _ _ (tokens_of-Fresh jti life uid _ held.1) held.0,
            delete_tokens-FreshUsers jti life uid _ held.1,
          )

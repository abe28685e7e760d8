-- ===== src/Auth/Tokens/Denial/Steps.antt =====
-- One call at a time: what evictions, clean-ups, look-ups and revocations do to a token that is
-- denied. All is stated for a token and the end of its life.
use open_scanner.Base.{
  ℕ, ◌+◌, ◌≤◌, ◌<◌, ◌≡◌, refl, ◌⊎◌, inl, inr, true, Option, none, some, String, arith, ltb, leb,
  List, [], ◌∷◌, length, any, str_eq, Bool-cases, eq_iff,
}
use open_scanner.Auth.Tokens.{
  TokenEntry, TokenTracker, tokens_of, cleanup_locked, evict, append_token, revoked_found, Event,
  tracks, checks, revokes, revokes_user, step, access_token_expiry,
}
use open_scanner.Auth.Tokens.Denial.{
  Covers, Fresh, FreshUsers, is_for, cleanup_locked-Covers, sweep_users-FreshUsers, tokens_of-Fresh,
  set_tokens-FreshUsers, delete_tokens-FreshUsers, append-Fresh, deny_all-Covers,
}

-- A token is tracked no shorter than it lives, and it lives no longer than fifteen minutes from any
-- moment at which it is revoked.
abbrev pub Respects : String → ℕ → ℕ × Event → Type 0
Respects jti life (now, tracks uid j exp) = str_eq j jti ≡ true → life ≤ exp
Respects jti life (now, checks j) = Unit {0}
Respects jti life (now, revokes j) = str_eq j jti ≡ true → life ≤ now + access_token_expiry
Respects jti life (now, revokes_user uid) = Unit {0}

-- ... and the call is made while the token lives.
abbrev pub RespectsInLife : String → ℕ → ℕ × Event → Type 0
RespectsInLife jti life e = Respects jti life e × (e.0 < life)

module _ (jti : String) (life : ℕ) where
  pub evict-users :
      (tr : TokenTracker) (es : List TokenEntry) → (evict tr es).0.user_tokens ≡ tr.user_tokens
  evict-users tr [] = refl
  evict-users tr (e ∷ es) = ground arith

  pub evict-Fresh :
      (tr : TokenTracker) (es : List TokenEntry)
      → Fresh jti life es
      → Fresh jti life (evict tr es).1
  evict-Fresh tr [] f = tt
  evict-Fresh tr (e ∷ es) f = elim (Bool-cases (leb tr.max_tokens (length (e ∷ es)))) [
    | inl k ↦ rw k f.1
    | inr k ↦ rw k f
  ]

  pub evict-Covers :
      (tr : TokenTracker) (es : List TokenEntry)
      → Fresh jti life es
      → Covers life (tr.denied jti)
      → Covers life ((evict tr es).0.denied jti)
  evict-Covers tr [] f h = h
  evict-Covers tr (e ∷ es) f h = ground (arith, f.0)

  -- The evicted entry is denied, the others stay.
  pub evict-Held :
      (tr : TokenTracker) (es : List TokenEntry)
      → Fresh jti life es
      → any (is_for jti) es ≡ true
      → (any (is_for jti) (evict tr es).1 ≡ true) ⊎ Covers life ((evict tr es).0.denied jti)
  evict-Held tr [] f h = inl h
  evict-Held tr (e ∷ es) f h = elim (Bool-cases (leb tr.max_tokens (length (e ∷ es)))) [
    | inl full ↦ rw full (elim (Bool-cases (is_for jti e)) [
      | inl own ↦ inr (rw own (f.0 own))
      | inr other ↦ inl (rw other at h)
    ])
    | inr room ↦ inl (rw room h)
  ]

  pub append_token-FreshUsers :
      (tr : TokenTracker) (uid : ℕ) (j : String) (exp : ℕ)
      → (str_eq j jti ≡ true → life ≤ exp)
      → FreshUsers jti life tr.user_tokens
      → FreshUsers jti life (append_token tr uid j exp).user_tokens
  unfolding append_token
  append_token-FreshUsers tr uid j exp k f =
      set_tokens-FreshUsers jti life uid _ _
        (append-Fresh jti life _ (record { jti = j; expires_at = exp })
          (evict-Fresh tr _ (tokens_of-Fresh jti life uid tr.user_tokens f)) k)
        (rw (evict-users tr (tokens_of uid tr.user_tokens)) f)

  pub append_token-Covers :
      (tr : TokenTracker) (uid : ℕ) (j : String) (exp : ℕ)
      → FreshUsers jti life tr.user_tokens
      → Covers life (tr.denied jti)
      → Covers life ((append_token tr uid j exp).denied jti)
  unfolding append_token
  append_token-Covers tr uid j exp f h =
      evict-Covers tr _ (tokens_of-Fresh jti life uid tr.user_tokens f) h

  pub checks-users :
      (tr : TokenTracker) (j : String) (o : Option ℕ) (now : ℕ)
      → (revoked_found tr j o now).0.user_tokens ≡ tr.user_tokens
  checks-users tr j none now = refl
  checks-users tr j (some exp) now = ground arith

  -- Looking up only drops a denial that has run out.
  pub checks-Covers :
      (tr : TokenTracker) (j : String) (o : Option ℕ) (now : ℕ)
      → now < life
      → o ≡ tr.denied j
      → Covers life (tr.denied jti)
      → Covers life ((revoked_found tr j o now).0.denied jti)
  checks-Covers tr j none now l e h = h
  checks-Covers tr j (some exp) now l e h = elim (Bool-cases (ltb exp now)) [
    | inr k ↦ rw k h
    | inl k ↦ rw k (elim (Bool-cases (str_eq j jti)) [
      | inr other ↦ rw other h
      | inl own ↦ absurd (lapsed own k)
    ])
  ]
    where
      lapsed : str_eq j jti ≡ true → ltb exp now ≡ true → ⊥
      lapsed own k =
          let at_j : Covers life (tr.denied j) = rw ((eq_iff j jti).0 own) h in
          let known : Covers life (some exp) = rw (← e) at at_j in ground arith

  pub step-FreshUsers :
      (tr : TokenTracker) (now : ℕ) (ev : Event)
      → Respects jti life (now, ev)
      → FreshUsers jti life tr.user_tokens
      → FreshUsers jti life (step tr now ev).user_tokens
  unfolding step
  step-FreshUsers tr now (tracks uid j exp) k f =
      append_token-FreshUsers (cleanup_locked tr now) uid j exp k
        (unfold cleanup_locked in sweep_users-FreshUsers jti life now tr.user_tokens f)
  step-FreshUsers tr now (checks j) k f = rw (checks-users tr j (tr.denied j) now) f
  step-FreshUsers tr now (revokes j) k f = f
  step-FreshUsers tr now (revokes_user uid) k f =
      delete_tokens-FreshUsers jti life uid tr.user_tokens f

  pub step-Covers :
      (tr : TokenTracker) (now : ℕ) (ev : Event)
      → RespectsInLife jti life (now, ev)
      → FreshUsers jti life tr.user_tokens
      → Covers life (tr.denied jti)
      → Covers life ((step tr now ev).denied jti)
  unfolding step
  step-Covers tr now (tracks uid j exp) k f h =
      append_token-Covers (cleanup_locked tr now) uid j exp
        (unfold cleanup_locked in sweep_users-FreshUsers jti life now tr.user_tokens f)
        (cleanup_locked-Covers jti life tr now k.1 f h)
  step-Covers tr now (checks j) k f h = checks-Covers tr j (tr.denied j) now k.1 refl h
  step-Covers tr now (revokes j) k f h = ground (arith, k.0)
  step-Covers tr now (revokes_user uid) k f h =
      deny_all-Covers jti life (tokens_of uid tr.user_tokens) tr.denied
        (tokens_of-Fresh jti life uid tr.user_tokens f) (inr h)

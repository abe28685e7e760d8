-- ===== src/Auth/Tokens/Denial/Held.antt =====
-- `TokenTracker` of backend/internal/auth/auth.go: the token that is tracked for its user.
use open_scanner.Base.{
  ℕ, ◌<◌, ◌≡◌, refl, ◌⊎◌, inl, inr, true, false, String, arith, ◌==◌, List, [], ◌∷◌, ◌++◌, keep,
  any, if◌then◌else◌, Bool-cases, ==_iff, eq_refl,
}
use open_scanner.Auth.Tokens.{
  TokenEntry, TokenTracker, tokens_of, set_tokens, delete_tokens, sweep_users, keep_user, is_live,
  cleanup_locked, evict, append_token, Event, tracks, checks, revokes, revokes_user, step,
}
use open_scanner.Auth.Tokens.Denial.{
  Covers, Fresh, FreshUsers, is_for, cleanup_locked-Covers, sweep_users-FreshUsers, tokens_of-Fresh,
  deny_all-Covers,
}
use open_scanner.Auth.Tokens.Denial.Steps.{
  RespectsInLife, evict-users, evict-Covers, evict-Held, checks-users, step-Covers,
}

module _ (jti : String) (life : ℕ) where
  -- The token is tracked for the user, or denied already.
  abbrev pub Held : ℕ → TokenTracker → Type 0
  Held uid tr =
      (any (is_for jti) (tokens_of uid tr.user_tokens) ≡ true) ⊎ Covers life (tr.denied jti)

  any-keep :
      (now : ℕ) (es : List TokenEntry)
      → now < life
      → Fresh jti life es
      → any (is_for jti) es ≡ true
      → any (is_for jti) (keep (is_live now) es) ≡ true
  any-keep now [] l f h = h
  any-keep now (e ∷ es) l f h = ground (arith, f.0, any-keep now es l f.1)

  tokens_of-keep_user :
      (uid u : ℕ) (es : List TokenEntry) (rest : List (ℕ × List TokenEntry))
      → any (is_for jti) es ≡ true
      → (u == uid) ≡ true
      → any (is_for jti) (tokens_of uid (keep_user u es rest)) ≡ true
  unfolding tokens_of
  tokens_of-keep_user uid u [] rest h e = absurd (cc)
  tokens_of-keep_user uid u (x ∷ es) rest h e = rw e h

  tokens_of-keep_user_ne :
      (uid u : ℕ) (es : List TokenEntry) (rest : List (ℕ × List TokenEntry))
      → (u == uid) ≡ false
      → tokens_of uid (keep_user u es rest) ≡ tokens_of uid rest
  unfolding tokens_of
  tokens_of-keep_user_ne uid u [] rest e = refl
  tokens_of-keep_user_ne uid u (x ∷ es) rest e = rw e

  tokens_of-sweep_users :
      (now uid : ℕ) (us : List (ℕ × List TokenEntry))
      → now < life
      → FreshUsers jti life us
      → any (is_for jti) (tokens_of uid us) ≡ true
      → any (is_for jti) (tokens_of uid (sweep_users now us)) ≡ true
  unfolding tokens_of sweep_users
  tokens_of-sweep_users now uid [] l f h = h
  tokens_of-sweep_users now uid ((u, es) ∷ rest) l f h = elim (Bool-cases (u == uid)) [
    | inl e ↦
        tokens_of-keep_user uid u (keep (is_live now) es) (sweep_users now rest)
          (any-keep now es l f.0 (rw e at h)) e
    | inr e ↦
        rw (tokens_of-keep_user_ne uid u (keep (is_live now) es) (sweep_users now rest) e)
          (tokens_of-sweep_users now uid rest l f.1 (rw e at h))
  ]

  tokens_of-set_tokens :
      (uid u : ℕ) (es : List TokenEntry) (us : List (ℕ × List TokenEntry))
      → tokens_of uid (set_tokens u es us) ≡ (if u == uid then es else tokens_of uid us)
  unfolding tokens_of set_tokens
  tokens_of-set_tokens uid u es [] = ground arith
  tokens_of-set_tokens uid u es ((v, old) ∷ rest) =
      ground (arith, tokens_of-set_tokens uid u es rest)

  tokens_of-delete_tokens :
      (uid u : ℕ) (us : List (ℕ × List TokenEntry))
      → tokens_of uid (delete_tokens u us) ≡ (if u == uid then [] else tokens_of uid us)
  unfolding tokens_of delete_tokens
  tokens_of-delete_tokens uid u [] = ground arith
  tokens_of-delete_tokens uid u ((v, old) ∷ rest) =
      ground (arith, tokens_of-delete_tokens uid u rest)

  any-append_left :
      (es : List TokenEntry) (e : TokenEntry)
      → any (is_for jti) es ≡ true
      → any (is_for jti) (es ++ (e ∷ [])) ≡ true
  any-append_left [] e h = absurd (cc)
  any-append_left (x ∷ es) e h = ground (arith, any-append_left es e)

  any-append_own :
      (es : List TokenEntry) (e : TokenEntry)
      → is_for jti e ≡ true
      → any (is_for jti) (es ++ (e ∷ [])) ≡ true
  any-append_own [] e h = ground arith
  any-append_own (x ∷ es) e h = ground (arith, any-append_own es e h)

  evict-Held_of :
      (uid : ℕ) (j : String) (exp : ℕ) (tr : TokenTracker)
      → FreshUsers jti life tr.user_tokens
      → (any (is_for jti) (tokens_of uid tr.user_tokens) ≡ true) ⊎ Covers life (tr.denied jti)
      → Held uid (append_token tr uid j exp)
  unfolding append_token
  evict-Held_of uid j exp tr f (inr d) = inr (
      evict-Covers jti life tr (tokens_of uid tr.user_tokens)
        (tokens_of-Fresh jti life uid tr.user_tokens f) d)
  evict-Held_of uid j exp tr f (inl h) =
      elim (evict-Held jti life tr (tokens_of uid tr.user_tokens)
        (tokens_of-Fresh jti life uid tr.user_tokens f) h) [
          | inr d ↦ inr d
          | inl a ↦ inl (
              rw (tokens_of-set_tokens uid uid) (
                ground (
                  arith,
                  any-append_left (evict tr (tokens_of uid tr.user_tokens)).1
                      (record { jti = j; expires_at = exp }) a,
                )))
        ]

  append_token-Held_ne :
      (uid u : ℕ) (j : String) (exp : ℕ) (tr : TokenTracker)
      → (u == uid) ≡ false
      → FreshUsers jti life tr.user_tokens
      → Held uid tr
      → Held uid (append_token tr u j exp)
  unfolding append_token
  append_token-Held_ne uid u j exp tr e f (inr d) = inr (
      evict-Covers jti life tr (tokens_of u tr.user_tokens)
        (tokens_of-Fresh jti life u tr.user_tokens f) d)
  append_token-Held_ne uid u j exp tr e f (inl h) =
      inl
        (rw (tokens_of-set_tokens uid u, e, evict-users jti life tr (tokens_of u tr.user_tokens)) h)

  append_token-Held :
      (uid u : ℕ) (j : String) (exp : ℕ) (tr : TokenTracker)
      → FreshUsers jti life tr.user_tokens
      → Held uid tr
      → Held uid (append_token tr u j exp)
  append_token-Held uid u j exp tr f h = elim (Bool-cases (u == uid)) [
    | inl e ↦ rw ((==_iff u uid).0 e) (evict-Held_of uid j exp tr f h)
    | inr e ↦ append_token-Held_ne uid u j exp tr e f h
  ]

  pub cleanup_locked-Held :
      (uid now : ℕ) (tr : TokenTracker)
      → now < life
      → FreshUsers jti life tr.user_tokens
      → Held uid tr
      → Held uid (cleanup_locked tr now)
  cleanup_locked-Held uid now tr l f (inl h) =
      inl (unfold cleanup_locked in tokens_of-sweep_users now uid tr.user_tokens l f h)
  cleanup_locked-Held uid now tr l f (inr h) = inr (cleanup_locked-Covers jti life tr now l f h)

  pub step-Held :
      (uid now : ℕ) (tr : TokenTracker) (ev : Event)
      → RespectsInLife jti life (now, ev)
      → FreshUsers jti life tr.user_tokens
      → Held uid tr
      → Held uid (step tr now ev)
  unfolding step
  step-Held uid now tr (tracks u j exp) k f h =
      append_token-Held uid u j exp (cleanup_locked tr now)
        (unfold cleanup_locked in sweep_users-FreshUsers jti life now tr.user_tokens f)
        (cleanup_locked-Held uid now tr k.1 f h)
  step-Held uid now tr (checks j) k f (inl h) =
      inl (rw (checks-users jti life tr j (tr.denied j) now) h)
  step-Held uid now tr (revokes j) k f (inl h) = inl h
  step-Held uid now tr (revokes_user u) k f (inl h) = elim (Bool-cases (u == uid)) [
    | inl e ↦ inr (
        deny_all-Covers jti life (tokens_of u tr.user_tokens) tr.denied
          (tokens_of-Fresh jti life u tr.user_tokens f) (inl (rw ((==_iff u uid).0 e) h)))
    | inr e ↦ inl (rw (tokens_of-delete_tokens uid u, e) h)
  ]
  step-Held uid now tr ev k f (inr h) = inr (step-Covers jti life tr now ev k f h)

  pub append_token-tracked :
      (uid : ℕ) (exp : ℕ) (tr : TokenTracker)
      → any (is_for jti) (tokens_of uid (append_token tr uid jti exp).user_tokens) ≡ true
  unfolding append_token
  append_token-tracked uid exp tr = rw (tokens_of-set_tokens uid uid) (
      ground (
        arith,
        any-append_own (evict tr (tokens_of uid tr.user_tokens)).1
            (record { jti = jti; expires_at = exp }) (eq_refl jti),
      ))

-- ===== src/Auth/Tokens/Denial.antt =====
-- The deny list of `TokenTracker`, backend/internal/auth/auth.go: for how long a denial covers a token.
pub mod Steps
mod Held
pub mod History
use open_scanner.Base.{
  ℕ, ◌+◌, ◌≤◌, ◌<◌, ◌≡◌, refl, ◌⊎◌, inl, inr, Bool, true, false, ◌||◌, Option, none, some, String,
  arith, ltb, leb, ◌==◌, List, [], ◌∷◌, ◌++◌, length, keep, any, if◌then◌else◌, All, str_eq,
  StringMap, put_at, drop_if, Bool-cases,
}
use open_scanner.Auth.Tokens.{
  TokenEntry, TokenTracker, tokens_of, set_tokens, delete_tokens, sweep_users, keep_user, is_live,
  cleanup_locked, evict, append_token, forget_dead, forget_users, deny_all,
}

-- What is recorded for one token reaches its end of life.
abbrev pub Covers : ℕ → Option ℕ → Type 0
Covers life none = ⊥
Covers life (some exp) = life ≤ exp

-- Every entry for the token in a slice is kept at least until its end of life.
abbrev pub Fresh : String → ℕ → List TokenEntry → Type 0
Fresh jti life = All (λ e. str_eq e.jti jti ≡ true → life ≤ e.expires_at)

abbrev pub FreshUsers : String → ℕ → List (ℕ × List TokenEntry) → Type 0
FreshUsers jti life = All (λ p. Fresh jti life p.1)

abbrev pub is_for : String → TokenEntry → Bool
is_for jti e = str_eq e.jti jti

module _ (jti : String) (life : ℕ) where
  forget_dead-Covers :
      (now : ℕ) (es : List TokenEntry) (d : StringMap ℕ)
      → now < life
      → Fresh jti life es
      → Covers life (d jti)
      → Covers life (forget_dead now es d jti)
  unfolding forget_dead
  forget_dead-Covers now [] d l f h = h
  forget_dead-Covers now (e ∷ es) d l f h = forget_dead-Covers now es _ l f.1 (one (d jti) h)
    where
      one :
          (o : Option ℕ)
          → Covers life o
          → Covers life ((if is_live now e then d else put_at d e.jti none) jti)
      one o k = ground (arith, f.0)

  forget_users-Covers :
      (now : ℕ) (us : List (ℕ × List TokenEntry)) (d : StringMap ℕ)
      → now < life
      → FreshUsers jti life us
      → Covers life (d jti)
      → Covers life (forget_users now us d jti)
  unfolding forget_users
  forget_users-Covers now [] d l f h = h
  forget_users-Covers now ((u, es) ∷ rest) d l f h =
      forget_users-Covers now rest (forget_dead now es d) l f.1
        (forget_dead-Covers now es d l f.0 h)

  drop_if-Covers :
      (now : ℕ) (o : Option ℕ)
      → now < life
      → Covers life o
      → Covers life (elim o [ none ↦ none | some v ↦ if ltb v now then none else some v ])
  drop_if-Covers now none l h = h
  drop_if-Covers now (some v) l h = ground arith

  pub cleanup_locked-Covers :
      (tr : TokenTracker) (now : ℕ)
      → now < life
      → FreshUsers jti life tr.user_tokens
      → Covers life (tr.denied jti)
      → Covers life ((cleanup_locked tr now).denied jti)
  unfolding cleanup_locked
  cleanup_locked-Covers tr now l f h =
      drop_if-Covers now _ l (forget_users-Covers now tr.user_tokens tr.denied l f h)

  keep-Fresh :
      (p : TokenEntry → Bool) (es : List TokenEntry)
      → Fresh jti life es
      → Fresh jti life (keep p es)
  keep-Fresh p [] f = tt
  keep-Fresh p (e ∷ es) f = elim (Bool-cases (p e)) [
    | inl k ↦ rw k (f.0, keep-Fresh p es f.1)
    | inr k ↦ rw k (keep-Fresh p es f.1)
  ]

  keep_user-FreshUsers :
      (u : ℕ) (es : List TokenEntry) (rest : List (ℕ × List TokenEntry))
      → Fresh jti life es
      → FreshUsers jti life rest
      → FreshUsers jti life (keep_user u es rest)
  keep_user-FreshUsers u [] rest f g = g
  keep_user-FreshUsers u (e ∷ es) rest f g = (f, g)

  pub sweep_users-FreshUsers :
      (now : ℕ) (us : List (ℕ × List TokenEntry))
      → FreshUsers jti life us
      → FreshUsers jti life (sweep_users now us)
  unfolding sweep_users
  sweep_users-FreshUsers now [] f = tt
  sweep_users-FreshUsers now ((u, es) ∷ rest) f =
      keep_user-FreshUsers u (keep (is_live now) es) (sweep_users now rest)
        (keep-Fresh (is_live now) es f.0) (sweep_users-FreshUsers now rest f.1)

  pub tokens_of-Fresh :
      (uid : ℕ) (us : List (ℕ × List TokenEntry))
      → FreshUsers jti life us
      → Fresh jti life (tokens_of uid us)
  unfolding tokens_of
  tokens_of-Fresh uid [] f = tt
  tokens_of-Fresh uid ((u, es) ∷ rest) f = elim (Bool-cases (u == uid)) [
    | inl k ↦ rw k f.0
    | inr k ↦ rw k (tokens_of-Fresh uid rest f.1)
  ]

  pub set_tokens-FreshUsers :
      (uid : ℕ) (es : List TokenEntry) (us : List (ℕ × List TokenEntry))
      → Fresh jti life es
      → FreshUsers jti life us
      → FreshUsers jti life (set_tokens uid es us)
  unfolding set_tokens
  set_tokens-FreshUsers uid es [] k f = (k, tt)
  set_tokens-FreshUsers uid es ((u, old) ∷ rest) k f = elim (Bool-cases (u == uid)) [
    | inl e ↦ rw e (k, f.1)
    | inr e ↦ rw e (f.0, set_tokens-FreshUsers uid es rest k f.1)
  ]

  pub delete_tokens-FreshUsers :
      (uid : ℕ) (us : List (ℕ × List TokenEntry))
      → FreshUsers jti life us
      → FreshUsers jti life (delete_tokens uid us)
  unfolding delete_tokens
  delete_tokens-FreshUsers uid [] f = tt
  delete_tokens-FreshUsers uid ((u, old) ∷ rest) f = elim (Bool-cases (u == uid)) [
    | inl e ↦ rw e (delete_tokens-FreshUsers uid rest f.1)
    | inr e ↦ rw e (f.0, delete_tokens-FreshUsers uid rest f.1)
  ]

  pub append-Fresh :
      (es : List TokenEntry) (e : TokenEntry)
      → Fresh jti life es
      → (is_for jti e ≡ true → life ≤ e.expires_at)
      → Fresh jti life (es ++ (e ∷ []))
  append-Fresh [] e f g = (g, tt)
  append-Fresh (x ∷ es) e f g = (f.0, append-Fresh es e f.1 g)

  -- Writing a slice to the deny list covers the token if the list did or if the slice holds it.
  pub deny_all-Covers :
      (es : List TokenEntry) (d : StringMap ℕ)
      → Fresh jti life es
      → (any (is_for jti) es ≡ true) ⊎ Covers life (d jti)
      → Covers life (deny_all es d jti)
  unfolding deny_all
  deny_all-Covers [] d f (inl h) = absurd (cc)
  deny_all-Covers [] d f (inr h) = h
  deny_all-Covers (e ∷ es) d f h = elim (Bool-cases (is_for jti e)) [
    | inl own ↦ deny_all-Covers es _ f.1 (inr (rw own (f.0 own)))
    | inr other ↦ deny_all-Covers es _ f.1 (later other h)
  ]
    where
      later :
          is_for jti e ≡ false
          → (any (is_for jti) (e ∷ es) ≡ true) ⊎ Covers life (d jti)
          → (any (is_for jti) es ≡ true) ⊎ Covers life (put_at d e.jti (some e.expires_at) jti)
      later o (inl k) = inl (rw o at k)
      later o (inr k) = inr (rw o k)

-- ===== src/Middleware/Identity/Agree.antt =====
-- The identity middlewares of backend/internal/middleware/auth.go, compared.
use open_scanner.Base.{
  ◌≡◌, refl, not, ◌&&◌, Option, none, some, String, str_eq, if◌then◌else◌, Bool-cases, inl, inr,
}
use open_scanner.Auth.Tokens.{TokenTracker, is_revoked}
use open_scanner.Session.{Claims}
use open_scanner.Middleware.Identity.{
  Gate, Verdict, abort, next, has_bearer, jwt_auth, optional_jwt_auth, optional_jwt_or_session_auth,
  is_same_site, is_account_over, jwt_claims, optional_claims, session_claims, claims_valid,
}

-- An abort forgiven: the request goes on with nobody in the context.
abbrev pub forgive : TokenTracker × Verdict → TokenTracker × Verdict
forgive (tr, abort status message) = (tr, next none)
forgive (tr, next who) = (tr, next who)

optional-forgive :
    (g : Gate) (tr : TokenTracker) (o : Option Claims)
    → optional_claims g tr o ≡ forgive (jwt_claims g tr o)
optional-forgive g tr none = refl
optional-forgive g tr (some c) = elim (Bool-cases (is_revoked tr c.jti g.now).1) [
  | inl e ↦ rw e
  | inr e ↦ elim (Bool-cases (is_account_over g c)) [ inl x ↦ rw (e, x) | inr x ↦ rw (e, x) ]
]

session-forgive :
    (g : Gate) (tr : TokenTracker) (o : Option Claims)
    → session_claims g tr o ≡ forgive (jwt_claims g tr o)
unfolding claims_valid
session-forgive g tr none = refl
session-forgive g tr (some c) = elim (Bool-cases (is_revoked tr c.jti g.now).1) [
  | inl e ↦ rw e
  | inr e ↦ elim (Bool-cases (is_account_over g c)) [ inl x ↦ rw (e, x) | inr x ↦ rw (e, x) ]
]

-- The optional middlewares never disagree with `JWTAuth` about a caller, and never abort. On every
-- request `OptionalJWTAuth` is `JWTAuth` with its aborts forgiven. So is `OptionalJWTOrSessionAuth`
-- when the request has a Bearer header; without one it is nobody's request unless it carries a
-- session cookie from the same site, and then the cookie's token is judged as `JWTAuth` judges a
-- Bearer token. The state of the deny list ends up the same too.
pub identity_agrees :
    (g : Gate) (tr : TokenTracker) (header cookie site : String)
    → (optional_jwt_auth g tr header ≡ forgive (jwt_auth g tr header))
      × (optional_jwt_or_session_auth g tr header cookie site ≡ (
          if has_bearer header
          then forgive (jwt_auth g tr header)
          else if not (str_eq cookie "") && is_same_site site
          then forgive (jwt_claims g tr (g.verify cookie))
          else (tr, next none)))
unfolding optional_jwt_auth optional_jwt_or_session_auth jwt_auth
identity_agrees g tr header cookie site = elim (Bool-cases (has_bearer header)) [
  | inl b ↦ rw b (optional-forgive g tr _, session-forgive g tr _)
  | inr b ↦ rw b (refl, by_cookie)
]
  where
    by_cookie :
        (if str_eq cookie ""
          then (tr, next none)
          else if not (is_same_site site)
          then (tr, next none)
          else session_claims g tr (g.verify cookie))
        ≡ (if not (str_eq cookie "") && is_same_site site
            then forgive (jwt_claims g tr (g.verify cookie))
            else (tr, next none))
    by_cookie = elim (Bool-cases (str_eq cookie "")) [
      | inl e ↦ rw e
      | inr e ↦ elim (Bool-cases (is_same_site site)) [
        | inl w ↦ rw (e, w) (session-forgive g tr (g.verify cookie))
        | inr w ↦ rw (e, w)
      ]
    ]
